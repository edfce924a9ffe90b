-- ===== src/StaticFiles/Errors.antt =====
-- `static_file_result_t`. `STATIC_FILE_OK` is the `ok` of a `Result`.
use cinder_http.Prelude.{Result}

pub data StaticError : Type 0 where
  not_found forbidden bad_target too_large io_error out_of_memory : StaticError

abbrev pub Static : Type 0 → Type 0
Static = Result StaticError
