-- ===== src/Response/Transmit/FilePart.antt =====
-- What `send_file_body` of src/http_response.c has put on the wire.
use cinder_http.Prelude.{
  ℕ, zero, suc, ◌+◌, ◌-◌, ◌≤◌, ◌≡◌, refl, sym, ap, subst, ◌∙◌, Bool, true, false, List, [], ◌∷◌,
  ◌++◌, ◌==◌, if◌then◌else◌, Option, none, some, arith, length, take, drop, is_empty, min,
  append_assoc,
}
use cinder_http.Text.{Bytes}
use cinder_http.Sending.{Sent, add_sent, send_all, WhenSent, send_all-WhenSent}
use cinder_http.Response.Transmit.{
  SendFile, file_sent, file_interrupted, file_unsupported, file_failed, Chunk, chunk_read,
  read_interrupted, read_failed, FileSend, file_ended, falls_back, add_file_sent, sendfile_loop,
  http_static_send_chunk, then_send, copy_loop, Wire, after_sendfile, send_file_body,
}

take_nil : (n : ℕ) → take {A = ℕ} n [] ≡ []
take_nil zero = refl
take_nil (suc n) = refl

-- A first part of at most `k` bytes, and what is then still to be sent.
take_in_parts :
    (k m : ℕ) (bs : Bytes)
    → k ≤ m
    → take k bs ++ take (m - length (take k bs)) (drop k bs) ≡ take m bs
take_in_parts zero m bs le = ap (λ n. take n bs) (omega arith)
take_in_parts (suc k) zero bs le = absurd (omega arith)
take_in_parts (suc k) (suc m) [] le = take_nil (suc m - 0)
take_in_parts (suc k) (suc m) (b ∷ bs) le =
    ap (◌∷◌ b)
      (ap (λ n. take k bs ++ take n (drop k bs)) (omega arith) ∙ take_in_parts k m bs (omega arith))

length_in_parts :
    (k m : ℕ) (bs : Bytes) → k ≤ m → m - length (take k bs) ≤ length (drop k bs) → m ≤ length bs
length_in_parts zero m bs le fits = omega arith
length_in_parts (suc k) zero bs le fits = omega arith
length_in_parts (suc k) (suc m) [] le fits = omega arith
length_in_parts (suc k) (suc m) (b ∷ bs) le fits =
    omega (arith, length_in_parts k m bs (omega arith) (omega arith))

-- The first `n` bytes of a file that has so many, or on an error a beginning of them.
abbrev pub IsFileSent : ℕ → Bytes → Sent → Type 0
IsFileSent n bs (true, out) = (n ≤ length bs) × (out ≡ take n bs)
IsFileSent n bs (false, out) = (rest : Bytes) × (out ++ rest ≡ take n bs)

abbrev pub WhenFileSent : ℕ → Bytes → Option Sent → Type 0
WhenFileSent n bs none = Unit {0}
WhenFileSent n bs (some s) = IsFileSent n bs s

-- A part that has been sent, and then the rest.
add_sent-WhenFileSent :
    (k m : ℕ) (bs : Bytes) (o : Option Sent)
    → k ≤ m
    → WhenFileSent (m - length (take k bs)) (drop k bs) o
    → WhenFileSent m bs (add_sent (take k bs) o)
add_sent-WhenFileSent k m bs none le w = tt
add_sent-WhenFileSent k m bs (some (true, out)) le (fits, e) =
    (length_in_parts k m bs le fits, ap (λ t. take k bs ++ t) e ∙ take_in_parts k m bs le)
add_sent-WhenFileSent k m bs (some (false, out)) le (rest, e) =
    (rest, append_assoc (take k bs) out rest ∙ ap (λ t. take k bs ++ t) e ∙ take_in_parts k m bs le)

nothing-WhenFileSent : (n : ℕ) (bs : Bytes) → WhenFileSent n bs (some (false, []))
nothing-WhenFileSent n bs = (take n bs, refl)

abbrev WhenFileEnded : ℕ → Bytes → Option FileSend → Type 0
WhenFileEnded n bs none = Unit {0}
WhenFileEnded n bs (some falls_back) = Unit {0}
WhenFileEnded n bs (some (file_ended s)) = IsFileSent n bs s

add_file_sent-WhenFileEnded :
    (k m : ℕ) (bs : Bytes) (o : Option FileSend)
    → k ≤ m
    → WhenFileEnded (m - length (take k bs)) (drop k bs) o
    → WhenFileEnded m bs (add_file_sent (take k bs) o)
add_file_sent-WhenFileEnded k m bs none le w = tt
add_file_sent-WhenFileEnded k m bs (some falls_back) le w = tt
add_file_sent-WhenFileEnded k m bs (some (file_ended (done, out))) le w =
    add_sent-WhenFileSent k m bs (some (done, out)) le w

sendfile_loop-WhenFileEnded :
    (answers : List SendFile) (offset : ℕ) (bs : Bytes) (n : ℕ)
    → WhenFileEnded n bs (sendfile_loop offset bs n answers)
unfolding sendfile_loop
sendfile_loop-WhenFileEnded answers offset bs zero = (omega arith, refl)
sendfile_loop-WhenFileEnded [] offset bs (suc m) = tt
sendfile_loop-WhenFileEnded (file_interrupted ∷ answers) offset bs (suc m) =
    sendfile_loop-WhenFileEnded answers offset bs (suc m)
sendfile_loop-WhenFileEnded (file_failed ∷ answers) offset bs (suc m) =
    nothing-WhenFileSent (suc m) bs
sendfile_loop-WhenFileEnded (file_unsupported ∷ answers) offset bs (suc m) = go (offset == 0)
  where
    go :
        (b : Bool)
        → WhenFileEnded (suc m) bs (some (if b then falls_back else file_ended (false, [])))
    go true = tt
    go false = nothing-WhenFileSent (suc m) bs
sendfile_loop-WhenFileEnded (file_sent n ∷ answers) offset bs (suc m) =
    let k = min n (suc m) in
    go _ (is_empty (take k bs)) (
      add_file_sent-WhenFileEnded k (suc m) bs
        (sendfile_loop (offset + length (take k bs)) (drop k bs) (suc m - length (take k bs))
          answers)
        (omega arith)
        (sendfile_loop-WhenFileEnded answers (offset + length (take k bs)) (drop k bs)
          (suc m - length (take k bs))))
  where
    go :
        (o : Option FileSend) (b : Bool)
        → WhenFileEnded (suc m) bs o
        → WhenFileEnded (suc m) bs (elim b [ true ↦ some (file_ended (false, [])) | false ↦ o ])
    go o true w = nothing-WhenFileSent (suc m) bs
    go o false w = w

then_send-WhenFileSent :
    (k m : ℕ) (bs : Bytes) (sent next : Option Sent)
    → k ≤ m
    → WhenSent (take k bs) sent
    → WhenFileSent (m - length (take k bs)) (drop k bs) next
    → WhenFileSent m bs (then_send sent next)
then_send-WhenFileSent k m bs none next le s w = tt
then_send-WhenFileSent k m bs (some (true, out)) next le s w =
    subst (λ t. WhenFileSent m bs (add_sent t next)) (sym s)
      (add_sent-WhenFileSent k m bs next le w)
then_send-WhenFileSent k m bs (some (false, out)) next le (rest, e) w = (
  rest ++ take (m - length (take k bs)) (drop k bs),
  sym (append_assoc out rest (take (m - length (take k bs)) (drop k bs)))
      ∙ ap (λ t. t ++ take (m - length (take k bs)) (drop k bs)) e
      ∙ take_in_parts k m bs le,
)

copy_loop-WhenFileSent :
    (chunks : List Chunk) (bs : Bytes) (n : ℕ) → WhenFileSent n bs (copy_loop bs n chunks)
unfolding copy_loop
copy_loop-WhenFileSent chunks bs zero = (omega arith, refl)
copy_loop-WhenFileSent [] bs (suc m) = tt
copy_loop-WhenFileSent (read_interrupted ∷ chunks) bs (suc m) =
    copy_loop-WhenFileSent chunks bs (suc m)
copy_loop-WhenFileSent (read_failed ∷ chunks) bs (suc m) = nothing-WhenFileSent (suc m) bs
copy_loop-WhenFileSent (chunk_read n answers ∷ chunks) bs (suc m) =
    let k = min n (min (suc m) http_static_send_chunk) in
    go _ (is_empty (take k bs)) (
      then_send-WhenFileSent k (suc m) bs (send_all (take k bs) answers)
        (copy_loop (drop k bs) (suc m - length (take k bs)) chunks) (omega arith)
        (send_all-WhenSent answers (take k bs))
        (copy_loop-WhenFileSent chunks (drop k bs) (suc m - length (take k bs))))
  where
    go :
        (o : Option Sent) (b : Bool)
        → WhenFileSent (suc m) bs o
        → WhenFileSent (suc m) bs (elim b [ true ↦ some (false, []) | false ↦ o ])
    go o true w = nothing-WhenFileSent (suc m) bs
    go o false w = w

pub send_file_body-WhenFileSent :
    (w : Wire) (bs : Bytes) (n : ℕ) → WhenFileSent n bs (send_file_body w bs n)
unfolding send_file_body
send_file_body-WhenFileSent w bs zero = (omega arith, refl)
send_file_body-WhenFileSent w bs (suc m) =
    ended (sendfile_loop 0 bs (suc m) w.file_answers)
      (sendfile_loop-WhenFileEnded w.file_answers 0 bs (suc m))
  where
    copied :
        (b : Bool)
        → WhenFileSent (suc m) bs (if b then copy_loop bs (suc m) w.chunks else some (false, []))
    copied true = copy_loop-WhenFileSent w.chunks bs (suc m)
    copied false = nothing-WhenFileSent (suc m) bs

    ended :
        (o : Option FileSend)
        → WhenFileEnded (suc m) bs o
        → WhenFileSent (suc m) bs (after_sendfile w bs (suc m) o)
    ended none e = tt
    ended (some falls_back) e = copied w.lseek_works
    ended (some (file_ended s)) e = e
