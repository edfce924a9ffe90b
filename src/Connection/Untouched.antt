-- ===== src/Connection/Untouched.antt =====
-- What the policy of src/http_connection.c leaves of a response as it is.
use cinder_http.Prelude.{refl, Bool, true, false, not, if◌then◌else◌, Option}
use cinder_http.Text.{Bytes, codes, Alloc}
use cinder_http.Response.{Response, http_response_set_header, http_response_remove_header}
use cinder_http.Response.Bodies.{Untouched, set_header-Untouched}
use cinder_http.Connection.{connection, is_http_1_0, http_response_apply_connection_policy}

pub policy-Untouched :
    (alloc : Alloc) (r : Response) (keep_alive : Bool) (version : Option Bytes)
    → Untouched r (http_response_apply_connection_policy alloc r keep_alive version).1
unfolding http_response_apply_connection_policy http_response_remove_header
policy-Untouched alloc r keep_alive version = go keep_alive (is_http_1_0 version)
  where
    shown : Response
    shown = record r { suppress_auto_connection_close = false }

    set : (value : Bytes) → Untouched r (http_response_set_header alloc shown connection value).1
    set value =
        let u = set_header-Untouched alloc shown connection value in
        record { status_code = u.status_code; body = u.body }

    go :
        (keep old : Bool)
        → let p : Bool × Response =
            if not keep
            then http_response_set_header alloc shown connection (codes "close")
            else if old
            then http_response_set_header alloc shown connection (codes "keep-alive")
            else (
              true,
              record (http_response_remove_header r connection).0 {
                suppress_auto_connection_close = true;
              },
            ) in
          Untouched r p.1
    go false old = set (codes "close")
    go true true = set (codes "keep-alive")
    go true false = record { status_code = refl; body = refl }
