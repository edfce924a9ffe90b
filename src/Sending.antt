-- ===== src/Sending.antt =====
-- `send_all` of src/utils.c, over the answers of `send`.
use cinder_http.Prelude.{
  ℕ, zero, suc, ◌≤◌, ◌≡◌, ◌≢◌, refl, ap, subst, ◌∙◌, Bool, true, false, List, [], ◌∷◌, ◌++◌, Option,
  none, some, arith, length, take, drop, append_assoc, take-append-drop, length-drop,
}
use cinder_http.Text.{Bytes}

-- `send` takes so many bytes, or fails.
pub data Send : Type 0 where
  sent : ℕ → Send
  send_interrupted send_failed : Send

-- Whether `send_all` answers a length, and what has gone out.
abbrev pub Sent : Type 0
Sent = Bool × Bytes

abbrev pub add_sent : Bytes → Option Sent → Option Sent
add_sent out none = none
add_sent out (some (done, later)) = some (done, out ++ later)

-- The loop, with the bytes that are left: `none` while it waits for another answer.
unfoldable pub send_all : Bytes → List Send → Option Sent
send_all [] answers = some (true, [])
send_all (b ∷ bs) [] = none
send_all (b ∷ bs) (send_interrupted ∷ answers) = send_all (b ∷ bs) answers
send_all (b ∷ bs) (send_failed ∷ answers) = some (false, [])
send_all (b ∷ bs) (sent zero ∷ answers) = some (false, [])
send_all (b ∷ bs) (sent (suc n) ∷ answers) =
    add_sent (take (suc n) (b ∷ bs)) (send_all (drop (suc n) (b ∷ bs)) answers)

-- All of the buffer, or on an error a beginning of it.
abbrev pub IsSentOf : Bytes → Sent → Type 0
IsSentOf buffer (true, out) = out ≡ buffer
IsSentOf buffer (false, out) = (rest : Bytes) × (out ++ rest ≡ buffer)

abbrev pub WhenSent : Bytes → Option Sent → Type 0
WhenSent buffer none = Unit {0}
WhenSent buffer (some s) = IsSentOf buffer s

pub add_sent-WhenSent :
    (n : ℕ) (buffer : Bytes) (o : Option Sent)
    → WhenSent (drop n buffer) o
    → WhenSent buffer (add_sent (take n buffer) o)
add_sent-WhenSent n buffer none w = tt
add_sent-WhenSent n buffer (some (true, out)) w =
    ap (λ t. take n buffer ++ t) w ∙ take-append-drop n buffer
add_sent-WhenSent n buffer (some (false, out)) (rest, e) = (
  rest,
  append_assoc (take n buffer) out rest
      ∙ ap (λ t. take n buffer ++ t) e
      ∙ take-append-drop n buffer,
)

pub send_all-WhenSent :
    (answers : List Send) (buffer : Bytes) → WhenSent buffer (send_all buffer answers)
unfolding send_all
send_all-WhenSent answers [] = refl
send_all-WhenSent [] (b ∷ bs) = tt
send_all-WhenSent (send_interrupted ∷ answers) (b ∷ bs) = send_all-WhenSent answers (b ∷ bs)
send_all-WhenSent (send_failed ∷ answers) (b ∷ bs) = (b ∷ bs, refl)
send_all-WhenSent (sent zero ∷ answers) (b ∷ bs) = (b ∷ bs, refl)
send_all-WhenSent (sent (suc n) ∷ answers) (b ∷ bs) =
    add_sent-WhenSent (suc n) (b ∷ bs) (send_all (drop (suc n) (b ∷ bs)) answers)
      (send_all-WhenSent answers (drop (suc n) (b ∷ bs)))

-- When `send_all` succeeds, exactly the buffer has gone out, in order; when it fails, a beginning of
-- it. Partial sends and interruptions lose and repeat nothing.
pub send_all-IsSentOf :
    (answers : List Send) (buffer : Bytes) (s : Sent)
    → send_all buffer answers ≡ some s
    → IsSentOf buffer s
send_all-IsSentOf answers buffer s h = subst (WhenSent buffer) h (send_all-WhenSent answers buffer)

abbrev pub NotInterrupted : List Send → Type 0
NotInterrupted [] = Unit
NotInterrupted (a ∷ later) = (a ≢ send_interrupted) × NotInterrupted later

-- The loop ends: as many answers as there are bytes are enough, if none is an interruption.
pub send_all-ends :
    (answers : List Send) (buffer : Bytes)
    → NotInterrupted answers
    → length buffer ≤ length answers
    → (s : Sent) × (send_all buffer answers ≡ some s)
unfolding send_all
send_all-ends answers [] ni le = ((true, []), refl)
send_all-ends [] (b ∷ bs) ni le = absurd (omega arith)
send_all-ends (send_interrupted ∷ answers) (b ∷ bs) ni le = absurd (ni.0 refl)
send_all-ends (send_failed ∷ answers) (b ∷ bs) ni le = ((false, []), refl)
send_all-ends (sent zero ∷ answers) (b ∷ bs) ni le = ((false, []), refl)
send_all-ends (sent (suc n) ∷ answers) (b ∷ bs) ni le =
    let ((done, out), e) =
      send_all-ends answers (drop (suc n) (b ∷ bs)) ni.1
        (omega (arith, length-drop (suc n) (b ∷ bs))) in
    ((done, take (suc n) (b ∷ bs) ++ out), ap (add_sent (take (suc n) (b ∷ bs))) e)
