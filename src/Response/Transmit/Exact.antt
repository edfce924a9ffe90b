-- ===== src/Response/Transmit/Exact.antt =====
-- What `http_response_send` has put on the wire.
use cinder_http.Prelude.{
  ℕ, ◌≤◌, ◌≡◌, refl, sym, ap, subst, ◌∙◌, Bool, true, false, [], ◌++◌, ◌==◌, ==→eq, if◌then◌else◌,
  Option, none, some, ℤ, length, take, is_negative, append-nil, append_assoc,
}
use cinder_http.Text.{Bytes, Alloc}
use cinder_http.Response.{Response, Body, no_body, memory, file}
use cinder_http.Response.Serialize.{http_response_serialize_headers}
use cinder_http.Sending.{Sent, add_sent, send_all, WhenSent, send_all-WhenSent}
use cinder_http.Response.Transmit.{
  then_send, Wire, send_file_body, send_body, send_head, http_response_send,
}
use cinder_http.Response.Transmit.FilePart.{WhenFileSent, send_file_body-WhenFileSent}

-- What a response's body comes to on the wire.
unfoldable pub payload : (ℤ → Bytes) → Response → Bytes
payload content r = elim r.body [
  | no_body ↦ []
  | memory none ↦ []
  | memory (some bytes) ↦ take r.body_length bytes
  | file fd ↦ take r.body_length (content fd)
]

-- The length that the header section announces is the body's.
abbrev pub HasLength : (ℤ → Bytes) → Response → Type 0
HasLength content r = elim r.body [
  | no_body ↦ Unit {0}
  | memory none ↦ r.body_length ≡ 0
  | memory (some bytes) ↦ Unit {0}
  | file fd ↦ r.body_length ≤ length (content fd)
]

abbrev WhenBodySent : Bytes → Type 0 → Option Sent → Type 0
WhenBodySent bytes Length none = Unit {0}
WhenBodySent bytes Length (some (true, out)) = Length × (out ≡ bytes)
WhenBodySent bytes Length (some (false, out)) = (rest : Bytes) × (out ++ rest ≡ bytes)

sent-WhenBodySent :
    (bytes : Bytes) (o : Option Sent) → WhenSent bytes o → WhenBodySent bytes (Unit {0}) o
sent-WhenBodySent bytes none s = tt
sent-WhenBodySent bytes (some (true, out)) s = (tt, s)
sent-WhenBodySent bytes (some (false, out)) s = s

file_sent-WhenBodySent :
    (n : ℕ) (bytes : Bytes) (o : Option Sent)
    → WhenFileSent n bytes o
    → WhenBodySent (take n bytes) (n ≤ length bytes) o
file_sent-WhenBodySent n bytes none s = tt
file_sent-WhenBodySent n bytes (some (true, out)) s = s
file_sent-WhenBodySent n bytes (some (false, out)) s = s

no_buffer-WhenBodySent : (n : ℕ) (t : Bool) → n == 0 ≡ t → WhenBodySent [] (n ≡ 0) (some (t, []))
no_buffer-WhenBodySent n true e = (==→eq n 0 e, refl)
no_buffer-WhenBodySent n false e = ([], refl)

buffer-WhenBodySent :
    (w : Wire) (bytes : Bytes) (n : ℕ) (t : Bool)
    → n == 0 ≡ t
    → WhenBodySent
        (take n bytes)
        (Unit {0})
        (if t then some (true, []) else send_all (take n bytes) w.body_answers)
buffer-WhenBodySent w bytes n true e = (tt, sym (ap (λ k. take k bytes) (==→eq n 0 e)))
buffer-WhenBodySent w bytes n false e =
    sent-WhenBodySent (take n bytes) (send_all (take n bytes) w.body_answers)
      (send_all-WhenSent w.body_answers (take n bytes))

open_file-WhenBodySent :
    (w : Wire) (fd : ℤ) (n : ℕ) (negative : Bool)
    → WhenBodySent
        (take n (w.content fd))
        (n ≤ length (w.content fd))
        (if negative then some (false, []) else send_file_body w (w.content fd) n)
open_file-WhenBodySent w fd n true = (take n (w.content fd), refl)
open_file-WhenBodySent w fd n false =
    file_sent-WhenBodySent n (w.content fd) (send_file_body w (w.content fd) n)
      (send_file_body-WhenFileSent w (w.content fd) n)

send_body-WhenBodySent :
    (w : Wire) (r : Response)
    → WhenBodySent (payload w.content r) (HasLength w.content r) (send_body w r)
unfolding send_body payload
send_body-WhenBodySent w r = go r.body r.body_length
  where
    go :
        (b : Body) (n : ℕ)
        → let r' : Response = record r { body = b; body_length = n } in
          WhenBodySent (payload w.content r') (HasLength w.content r') (send_body w r')
    go no_body n = (tt, refl)
    go (memory none) n = no_buffer-WhenBodySent n (n == 0) refl
    go (memory (some bytes)) n = buffer-WhenBodySent w bytes n (n == 0) refl
    go (file fd) n = open_file-WhenBodySent w fd n (is_negative fd)

-- What is on the wire behind a response's header section, when the send succeeds and when it fails.
abbrev pub IsSent : Wire → Response → Bool → Bytes → Sent → Type 0
IsSent w r true headers (true, out) = out ≡ headers
IsSent w r false headers (true, out) =
    HasLength w.content r × (out ≡ headers ++ payload w.content r)
IsSent w r true headers (false, out) = (rest : Bytes) × (out ++ rest ≡ headers)
IsSent w r false headers (false, out) =
    (rest : Bytes) × (out ++ rest ≡ headers ++ payload w.content r)

abbrev WhenAllSent : Wire → Response → Bool → Bytes → Option Sent → Type 0
WhenAllSent w r omit_body headers none = Unit {0}
WhenAllSent w r omit_body headers (some s) = IsSent w r omit_body headers s

-- The header section is out.
with_body :
    (w : Wire) (r : Response) (headers : Bytes) (o : Option Sent)
    → WhenBodySent (payload w.content r) (HasLength w.content r) o
    → WhenAllSent w r false headers (add_sent headers o)
with_body w r headers none b = tt
with_body w r headers (some (true, out)) (fits, e) = (fits, ap (λ t. headers ++ t) e)
with_body w r headers (some (false, out)) (rest, e) =
    (rest, append_assoc headers out rest ∙ ap (λ t. headers ++ t) e)

send_head-WhenAllSent :
    (w : Wire) (r : Response) (omit_body : Bool) (headers : Bytes) (o : Option Sent)
    → WhenSent headers o
    → WhenAllSent w r omit_body headers
        (then_send o (if omit_body then some (true, []) else send_body w r))
send_head-WhenAllSent w r omit_body headers none s = tt
send_head-WhenAllSent w r true headers (some (true, out)) s = append-nil out ∙ s
send_head-WhenAllSent w r false headers (some (true, out)) s =
    subst (λ t. WhenAllSent w r false headers (add_sent t (send_body w r))) (sym s)
      (with_body w r headers (send_body w r) (send_body-WhenBodySent w r))
send_head-WhenAllSent w r true headers (some (false, out)) s = s
send_head-WhenAllSent w r false headers (some (false, out)) (rest, e) = (
  rest ++ payload w.content r,
  sym (append_assoc out rest (payload w.content r)) ∙ ap (λ t. t ++ payload w.content r) e,
)

-- When `http_response_send` succeeds, exactly the serialised header section has gone out and behind
-- it, unless the body is left out for HEAD, the whole body and nothing else: for a file as many bytes
-- as the header section announces, from its start, whether `sendfile` or the portable copy sent
-- them, and the file has so many. When it fails, what has gone out is a beginning of that.
pub http_response_send-IsSent :
    (alloc : Alloc) (w : Wire) (r : Response) (omit_body : Bool) (headers : Bytes) (s : Sent)
    → http_response_serialize_headers alloc r ≡ some headers
    → http_response_send alloc w r omit_body ≡ some s
    → IsSent w r omit_body headers s
unfolding http_response_send
http_response_send-IsSent alloc w r omit_body headers s built h =
    subst (WhenAllSent w r omit_body headers) (sym (ap (send_head w r omit_body) built) ∙ h) (
      send_head-WhenAllSent w r omit_body headers (send_all headers w.head_answers)
        (send_all-WhenSent w.head_answers headers))
