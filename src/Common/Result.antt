-- ===== src/Common/Result.antt =====
-- Fallible code: Go's (value, error) pair. `stuck` is no Go value: a loop of the model ran out of
-- the fuel that it is given.
use mathlib.Core.Path.{◌≡◌, refl, ap}
use mathlib.Core.Bool.{Bool, true, false}

pub data Result {ℓ κ} (E : Type ℓ) (A : Type κ) : Type (ℓ ⊔ κ) where
  ok : A → Result E A
  err : E → Result E A
  stuck : Result E A

infixl 5 ◌>>=◌ ◌>>◌
abbrev pub ◌>>=◌ {ℓ κ λ'} :
    {E : Type ℓ} {A : Type κ} {B : Type λ'} → Result E A → (A → Result E B) → Result E B
ok a >>= f = f a
err e >>= f = err e
stuck >>= f = stuck

abbrev pub ◌>>◌ {ℓ κ} : {E : Type ℓ} {B : Type κ} → Result E (Unit {0}) → Result E B → Result E B
m >> k = m >>= λ _. k

-- `if bad { return err }`
abbrev pub fail_if {ℓ} : {E : Type ℓ} → Bool → E → Result E (Unit {0})
fail_if true e = err e
fail_if false e = ok tt

-- Where a bind succeeds, both of its parts do.
pub >>=-eq-ok {ℓ κ λ'} :
    {E : Type ℓ} {A : Type κ} {B : Type λ'} (first : Result E A) (then_run : A → Result E B)
    {result : B}
    → (first >>= then_run) ≡ ok result
    → (value : A) × (first ≡ ok value) × (then_run value ≡ ok result)
>>=-eq-ok (ok value) then_run ended = (value, refl, ended)
>>=-eq-ok (err failure) then_run ended = cc
>>=-eq-ok stuck then_run ended = cc

pub fail_if-eq-ok {ℓ} :
    {E : Type ℓ} (b : Bool) (e : E) {u : Unit {0}} → fail_if b e ≡ ok u → b ≡ false
fail_if-eq-ok true e h = cc
fail_if-eq-ok false e h = refl

abbrev value_or {ℓ κ} : {E : Type ℓ} {A : Type κ} → A → Result E A → A
value_or d (ok a) = a
value_or d (err e) = d
value_or d stuck = d

pub ok-injective {ℓ κ} :
    {E : Type ℓ} {A : Type κ} {a b : A} → ◌≡◌ {A = Result E A} (ok a) (ok b) → a ≡ b
ok-injective {a} h = ap (value_or a) h
