-- ===== src/Prelude/Results.antt =====
-- A value or the reason why there is none: a C status code with its out-parameter.
use mathlib.Core.Path.{◌≡◌, refl}
use mathlib.Core.Bool.{Bool, true, false}
use mathlib.Core.Option.{Option, none, some}

pub data Result {ℓ} (E A : Type ℓ) : Type ℓ where
  ok : A → Result E A
  err : E → Result E A

-- `if (!test) return reason;`
abbrev pub require : {E : Type 0} → Bool → E → Result E (Unit {0})
require false reason = err reason
require true _ = ok tt

-- `if (p == NULL) return reason;`
abbrev pub or_fail {ℓ} : {E A : Type ℓ} → Option A → E → Result E A
or_fail none reason = err reason
or_fail (some found) _ = ok found

infixl 5 ◌>>=◌
abbrev pub ◌>>=◌ {ℓ} : {E A B : Type ℓ} → Result E A → (A → Result E B) → Result E B
err reason >>= _ = err reason
ok result >>= next = next result

infixl 5 ◌>>◌
abbrev pub ◌>>◌ {ℓ} : {E B : Type ℓ} → Result E (Unit {ℓ}) → Result E B → Result E B
check >> next = check >>= λ done. next

pub >>=-eq-ok {ℓ} :
    {E A B : Type ℓ} (first : Result E A) (next : A → Result E B) {result : B}
    → (first >>= next) ≡ ok result
    → (found : A) × (first ≡ ok found) × (next found ≡ ok result)
>>=-eq-ok (err reason) next both = cc
>>=-eq-ok (ok found) next both = (found, refl, both)

pub or_fail-eq-ok :
    {E A B : Type 0} (o : Option A) (e : E) (f : A → Result E B) {b : B}
    → (or_fail o e >>= f) ≡ ok b
    → (a : A) × (o ≡ some a) × (f a ≡ ok b)
or_fail-eq-ok (some a) e f h = (a, refl, h)
or_fail-eq-ok none e f h = cc

pub require-eq-ok :
    {E B : Type 0} (t : Bool) (e : E) (k : Result E B) {b : B}
    → (require t e >> k) ≡ ok b
    → (t ≡ true) × (k ≡ ok b)
require-eq-ok true e k h = (refl, h)
require-eq-ok false e k h = cc
