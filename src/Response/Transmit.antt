-- ===== src/Response/Transmit.antt =====
-- `http_response_send` and `send_file_body` of src/http_response.c, over the answers of `send`,
-- `sendfile` and `read`. A file keeps its content while it is sent.
pub mod FilePart
pub mod Exact
pub mod Ends
use cinder_http.Prelude.{
  ℕ, zero, suc, ◌+◌, ◌-◌, Bool, true, false, List, [], ◌∷◌, ◌++◌, ◌==◌, if◌then◌else◌, Option, none,
  some, ℤ, length, take, drop, is_empty, is_negative, min,
}
use cinder_http.Text.{Bytes, Alloc}
use cinder_http.Response.{Response, no_body, memory, file}
use cinder_http.Response.Serialize.{http_response_serialize_headers}
use cinder_http.Sending.{Send, Sent, add_sent, send_all}

-- What `sendfile` answers: so many bytes, as far as the request and the file go; EINTR; EINVAL or
-- ENOSYS; another error.
pub data SendFile : Type 0 where
  file_sent : ℕ → SendFile
  file_interrupted file_unsupported file_failed : SendFile

-- What `read` answers, and `send` for the bytes that were read.
pub data Chunk : Type 0 where
  chunk_read : ℕ → List Send → Chunk
  read_interrupted read_failed : Chunk

-- How the `sendfile` loop ends: with the answer of the function, or the portable path goes on.
pub data FileSend : Type 0 where
  file_ended : Sent → FileSend
  falls_back : FileSend

abbrev pub add_file_sent : Bytes → Option FileSend → Option FileSend
add_file_sent out none = none
add_file_sent out (some falls_back) = some falls_back
add_file_sent out (some (file_ended (done, later))) = some (file_ended (done, out ++ later))

-- The `sendfile` loop, with what is left of the file and the bytes that remain to be sent.
unfoldable pub sendfile_loop : ℕ → Bytes → ℕ → List SendFile → Option FileSend
sendfile_loop offset left zero answers = some (file_ended (true, []))
sendfile_loop offset left (suc m) [] = none
sendfile_loop offset left (suc m) (file_interrupted ∷ answers) =
    sendfile_loop offset left (suc m) answers
sendfile_loop offset left (suc m) (file_failed ∷ answers) = some (file_ended (false, []))
sendfile_loop offset left (suc m) (file_unsupported ∷ answers) =
    some (if offset == 0 then falls_back else file_ended (false, []))
sendfile_loop offset left (suc m) (file_sent n ∷ answers) =
    let part = take (min n (suc m)) left in
    elim (is_empty part) [
      | true ↦ some (file_ended (false, []))
      | false ↦ add_file_sent part (
          sendfile_loop (offset + length part) (drop (min n (suc m)) left) (suc m - length part)
            answers)
    ]

abbrev pub http_static_send_chunk : ℕ
http_static_send_chunk = 32768

-- What goes on behind a call of `send_all`.
abbrev pub then_send : Option Sent → Option Sent → Option Sent
then_send none next = none
then_send (some (false, out)) next = some (false, out)
then_send (some (true, out)) next = add_sent out next

-- The loop of `read` and `send_all`.
unfoldable pub copy_loop : Bytes → ℕ → List Chunk → Option Sent
copy_loop left zero chunks = some (true, [])
copy_loop left (suc m) [] = none
copy_loop left (suc m) (read_interrupted ∷ chunks) = copy_loop left (suc m) chunks
copy_loop left (suc m) (read_failed ∷ chunks) = some (false, [])
copy_loop left (suc m) (chunk_read n answers ∷ chunks) =
    let want = min (suc m) http_static_send_chunk in
    let part = take (min n want) left in
    elim (is_empty part) [
      | true ↦ some (false, [])
      | false ↦
          then_send (send_all part answers)
            (copy_loop (drop (min n want) left) (suc m - length part) chunks)
    ]

-- What the kernel does while one response is sent.
pub record Wire : Type 0 where
  pub head_answers : List Send
  pub body_answers : List Send
  pub file_answers : List SendFile
  pub lseek_works : Bool
  pub chunks : List Chunk
  pub content : ℤ → Bytes

abbrev pub after_sendfile : Wire → Bytes → ℕ → Option FileSend → Option Sent
after_sendfile w bytes n none = none
after_sendfile w bytes n (some (file_ended s)) = some s
after_sendfile w bytes n (some falls_back) =
    if w.lseek_works then copy_loop bytes n w.chunks else some (false, [])

-- With __linux__ defined. The descriptor stands at the start of the file.
unfoldable pub send_file_body : Wire → Bytes → ℕ → Option Sent
send_file_body w bytes zero = some (true, [])
send_file_body w bytes (suc m) =
    after_sendfile w bytes (suc m) (sendfile_loop 0 bytes (suc m) w.file_answers)

-- The body of a response that is not sent for HEAD.
unfoldable pub send_body : Wire → Response → Option Sent
send_body w r = elim r.body [
  | no_body ↦ some (true, [])
  | memory none ↦ some (r.body_length == 0, [])
  | memory (some bytes) ↦
      if r.body_length == 0
      then some (true, [])
      else send_all (take r.body_length bytes) w.body_answers
  | file fd ↦
      if is_negative fd then some (false, []) else send_file_body w (w.content fd) r.body_length
]

abbrev pub send_head : Wire → Response → Bool → Option Bytes → Option Sent
send_head w r omit_body none = some (false, [])
send_head w r omit_body (some headers) =
    then_send (send_all headers w.head_answers)
      (if omit_body then some (true, []) else send_body w r)

unfoldable pub http_response_send : Alloc → Wire → Response → Bool → Option Sent
http_response_send alloc w r omit_body =
    send_head w r omit_body (http_response_serialize_headers alloc r)
