-- ===== src/Response/Transmit/Ends.antt =====
-- The loops behind `http_response_send` end.
use cinder_http.Prelude.{
  ℕ, zero, suc, ◌+◌, ◌-◌, ◌≤◌, ◌≡◌, ◌≢◌, refl, sym, subst, Bool, true, false, List, [], ◌∷◌, ◌++◌,
  ◌==◌, if◌then◌else◌, Option, none, some, arith, length, take, drop, is_empty, is_negative,
  length-take, min,
}
use cinder_http.Text.{Bytes, Alloc}
use cinder_http.Response.{Response, Body, no_body, memory, file}
use cinder_http.Response.Serialize.{http_response_serialize_headers}
use cinder_http.Sending.{Sent, add_sent, send_all, NotInterrupted, send_all-ends}
use cinder_http.Response.Transmit.{
  SendFile, file_sent, file_interrupted, file_unsupported, file_failed, Chunk, chunk_read,
  read_interrupted, read_failed, FileSend, file_ended, falls_back, add_file_sent, sendfile_loop,
  http_static_send_chunk, then_send, copy_loop, Wire, after_sendfile, send_file_body, send_body,
  send_head, http_response_send,
}

abbrev pub Done {ℓ} : {A : Type ℓ} → Option A → Type ℓ
Done {A = A} o = (a : A) × (o ≡ some a)

abbrev pub SendfileAnswers : List SendFile → Type 0
SendfileAnswers [] = Unit
SendfileAnswers (a ∷ later) = (a ≢ file_interrupted) × SendfileAnswers later

-- Each `read` answers, and behind it `send` often enough for a whole chunk.
abbrev pub ChunksAnswered : List Chunk → Type 0
ChunksAnswered [] = Unit
ChunksAnswered (read_interrupted ∷ later) = ⊥
ChunksAnswered (read_failed ∷ later) = ChunksAnswered later
ChunksAnswered (chunk_read n answers ∷ later) =
    NotInterrupted answers × (http_static_send_chunk ≤ length answers) × ChunksAnswered later

add_sent-Done : (out : Bytes) (o : Option Sent) → Done o → Done (add_sent out o)
add_sent-Done out none (s, e) = absurd (cc)
add_sent-Done out (some (done, later)) d = ((done, out ++ later), refl)

then_send-Done : (o next : Option Sent) → Done o → Done next → Done (then_send o next)
then_send-Done none next (s, e) d = absurd (cc)
then_send-Done (some (false, out)) next o d = ((false, out), refl)
then_send-Done (some (true, out)) next o d = add_sent-Done out next d

add_file_sent-Done : (out : Bytes) (o : Option FileSend) → Done o → Done (add_file_sent out o)
add_file_sent-Done out none (s, e) = absurd (cc)
add_file_sent-Done out (some falls_back) d = (falls_back, refl)
add_file_sent-Done out (some (file_ended (done, later))) d = (file_ended (done, out ++ later), refl)

sendfile_loop-Done :
    (answers : List SendFile) (offset : ℕ) (bs : Bytes) (n : ℕ)
    → SendfileAnswers answers
    → n ≤ length answers
    → Done (sendfile_loop offset bs n answers)
unfolding sendfile_loop
sendfile_loop-Done answers offset bs zero ok le = (file_ended (true, []), refl)
sendfile_loop-Done [] offset bs (suc m) ok le = absurd (omega arith)
sendfile_loop-Done (file_interrupted ∷ answers) offset bs (suc m) ok le = absurd (ok.0 refl)
sendfile_loop-Done (file_failed ∷ answers) offset bs (suc m) ok le = (file_ended (false, []), refl)
sendfile_loop-Done (file_unsupported ∷ answers) offset bs (suc m) ok le = (_, refl)
sendfile_loop-Done (file_sent n ∷ answers) offset bs (suc m) ok le =
    go (take (min n (suc m)) bs) (λ some_sent.
      sendfile_loop-Done answers (offset + length (take (min n (suc m)) bs))
        (drop (min n (suc m)) bs) (suc m - length (take (min n (suc m)) bs)) ok.1
        (omega (arith, some_sent)))
  where
    go :
        (part : Bytes)
        → (1 ≤ length part
            → Done (
                sendfile_loop
                  (offset + length part)
                  (drop (min n (suc m)) bs)
                  (suc m - length part)
                  answers))
        → Done (elim (is_empty part) [
          | true ↦ some (file_ended (false, []))
          | false ↦ add_file_sent part (
              sendfile_loop
                (offset + length part)
                (drop (min n (suc m)) bs)
                (suc m - length part)
                answers)
        ])
    go [] d = (file_ended (false, []), refl)
    go (b ∷ part) d = add_file_sent-Done (b ∷ part) _ (d (omega arith))

copy_loop-Done :
    (chunks : List Chunk) (bs : Bytes) (n : ℕ)
    → ChunksAnswered chunks
    → n ≤ length chunks
    → Done (copy_loop bs n chunks)
unfolding copy_loop
copy_loop-Done chunks bs zero ok le = ((true, []), refl)
copy_loop-Done [] bs (suc m) ok le = absurd (omega arith)
copy_loop-Done (read_interrupted ∷ chunks) bs (suc m) ok le = absurd ok
copy_loop-Done (read_failed ∷ chunks) bs (suc m) ok le = ((false, []), refl)
copy_loop-Done (chunk_read n answers ∷ chunks) bs (suc m) (ni, enough, ok) le =
    let k = min n (min (suc m) http_static_send_chunk) in
    go (take k bs) (send_all-ends answers (take k bs) ni (omega (arith, length-take k bs)))
      (λ some_sent.
        copy_loop-Done chunks (drop k bs) (suc m - length (take k bs)) ok
          (omega (arith, some_sent)))
  where
    go :
        (part : Bytes)
        → Done (send_all part answers)
        → (1 ≤ length part
            → Done (
                copy_loop
                  (drop (min n (min (suc m) http_static_send_chunk)) bs)
                  (suc m - length part)
                  chunks))
        → Done (elim (is_empty part) [
          | true ↦ some (false, [])
          | false ↦ then_send (send_all part answers) (
              copy_loop
                (drop (min n (min (suc m) http_static_send_chunk)) bs)
                (suc m - length part)
                chunks)
        ])
    go [] s d = ((false, []), refl)
    go (b ∷ part) s d = then_send-Done _ _ s (d (omega arith))

-- As many answers as there are bytes, none of them an interruption.
pub record Answers (w : Wire) (headers : Bytes) (body_length : ℕ) : Type 0 where
  pub head_served : NotInterrupted w.head_answers
  pub head_enough : length headers ≤ length w.head_answers
  pub body_served : NotInterrupted w.body_answers
  pub body_enough : body_length ≤ length w.body_answers
  pub file_served : SendfileAnswers w.file_answers
  pub file_enough : body_length ≤ length w.file_answers
  pub chunks_served : ChunksAnswered w.chunks
  pub chunks_enough : body_length ≤ length w.chunks

send_file_body-Done :
    (w : Wire) (headers bs : Bytes) (n : ℕ) → Answers w headers n → Done (send_file_body w bs n)
unfolding send_file_body
send_file_body-Done w headers bs zero a = ((true, []), refl)
send_file_body-Done w headers bs (suc m) a =
    go (sendfile_loop 0 bs (suc m) w.file_answers)
      (sendfile_loop-Done w.file_answers 0 bs (suc m) a.file_served a.file_enough)
  where
    copied : (b : Bool) → Done (if b then copy_loop bs (suc m) w.chunks else some (false, []))
    copied true = copy_loop-Done w.chunks bs (suc m) a.chunks_served a.chunks_enough
    copied false = ((false, []), refl)

    go : (o : Option FileSend) → Done o → Done (after_sendfile w bs (suc m) o)
    go none (s, e) = absurd (cc)
    go (some falls_back) d = copied w.lseek_works
    go (some (file_ended s)) d = (s, refl)

if-Done : (t : Bool) (s : Sent) (o : Option Sent) → Done o → Done (if t then some s else o)
if-Done true s o d = (s, refl)
if-Done false s o d = d

send_body-Done :
    (w : Wire) (r : Response) (headers : Bytes)
    → Answers w headers r.body_length
    → Done (send_body w r)
unfolding send_body
send_body-Done w r headers a = go r.body
  where
    go : (b : Body) → Done (send_body w (record r { body = b }))
    go no_body = ((true, []), refl)
    go (memory none) = (_, refl)
    go (memory (some bytes)) =
        if-Done (r.body_length == 0) (true, []) _
          (send_all-ends w.body_answers (take r.body_length bytes) a.body_served
            (omega (arith, length-take r.body_length bytes, a.body_enough)))
    go (file fd) =
        if-Done (is_negative fd) (false, []) _
          (send_file_body-Done w headers (w.content fd) r.body_length a)

-- `http_response_send` returns: no loop in it goes on once the kernel has given as many answers
-- other than an interruption as there are bytes to send, whatever these answers are.
pub http_response_send-returns :
    (alloc : Alloc) (w : Wire) (r : Response) (omit_body : Bool) (headers : Bytes)
    → http_response_serialize_headers alloc r ≡ some headers
    → Answers w headers r.body_length
    → (s : Sent) × (http_response_send alloc w r omit_body ≡ some s)
unfolding http_response_send
http_response_send-returns alloc w r omit_body headers built a =
    subst (λ o. Done (send_head w r omit_body o)) (sym built)
      (then_send-Done (send_all headers w.head_answers) _
        (send_all-ends w.head_answers headers a.head_served a.head_enough)
        (if-Done omit_body (true, []) (send_body w r) (send_body-Done w r headers a)))
