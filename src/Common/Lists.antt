-- ===== src/Common/Lists.antt =====
-- Lists measured and indexed by native numbers, under the library's names.
use Prim.Native.Nat.{ℕ, zero, suc, ◌+◌, ◌≤◌, ◌<◌}
use mathlib.Core.Path.{◌≡◌, refl, ap, subst}
use mathlib.Core.Logic.{◌≢◌, ◌⊎◌, inl, inr}
use mathlib.Core.List.{List, [], ◌∷◌, ◌++◌, map}
use mathlib.Core.Option.{Option, none, some}
use native.Mathlib.Omega.{arith}

module _ {ℓ} {A : Type ℓ} where
  abbrev pub length : List A → ℕ
  length [] = 0
  length (x ∷ xs) = suc (length xs)

  abbrev pub get_elem? : List A → ℕ → Option A
  get_elem? [] i = none
  get_elem? (x ∷ xs) zero = some x
  get_elem? (x ∷ xs) (suc i) = get_elem? xs i

  abbrev pub get_or : List A → ℕ → A → A
  get_or [] i d = d
  get_or (x ∷ xs) zero d = x
  get_or (x ∷ xs) (suc i) d = get_or xs i d

  abbrev pub take : ℕ → List A → List A
  take zero xs = []
  take (suc n) [] = []
  take (suc n) (x ∷ xs) = x ∷ take n xs

  abbrev pub drop : ℕ → List A → List A
  drop zero xs = xs
  drop (suc n) [] = []
  drop (suc n) (x ∷ xs) = drop n xs

  -- A change at one index; out of range it changes nothing.
  abbrev pub modify : List A → ℕ → (A → A) → List A
  modify [] i f = []
  modify (x ∷ xs) zero f = f x ∷ xs
  modify (x ∷ xs) (suc i) f = x ∷ modify xs i f

  -- The sum of a measure over the elements.
  abbrev pub total : (A → ℕ) → List A → ℕ
  total f [] = 0
  total f (x ∷ xs) = f x + total f xs

  -- The predicate holds of every element.
  abbrev pub All {κ} : (A → Type κ) → List A → Type κ
  All P [] = Unit {κ}
  All P (x ∷ xs) = P x × All P xs

module _ {ℓ} {A : Type ℓ} where
  pub length-take : (n : ℕ) (xs : List A) → n ≤ length xs → length (take n xs) ≡ n
  length-take zero xs h = refl
  length-take (suc n) [] h = absurd (omega arith)
  length-take (suc n) (x ∷ xs) h = ap suc (length-take n xs (omega arith))

  pub length-drop : (n : ℕ) (xs : List A) → n ≤ length xs → length (drop n xs) + n ≡ length xs
  length-drop zero xs h = omega arith
  length-drop (suc n) [] h = absurd (omega arith)
  length-drop (suc n) (x ∷ xs) h = omega (arith, length-drop n xs (omega arith))

  pub length-append : (xs ys : List A) → length (xs ++ ys) ≡ length xs + length ys
  length-append [] ys = omega arith
  length-append (x ∷ xs) ys = omega (arith, length-append xs ys)

  pub total-append : (f : A → ℕ) (xs ys : List A) → total f (xs ++ ys) ≡ total f xs + total f ys
  total-append f [] ys = omega arith
  total-append f (x ∷ xs) ys = omega (arith, total-append f xs ys)

  pub total-modify :
      (f : A → ℕ) (xs : List A) (i : ℕ) (g : A → A) (d : ℕ)
      → ((x : A) → f (g x) ≡ f x + d)
      → i < length xs
      → total f (modify xs i g) ≡ total f xs + d
  total-modify f [] i g d h lt = absurd (omega arith)
  total-modify f (x ∷ xs) zero g d h lt = omega (arith, h x)
  total-modify f (x ∷ xs) (suc i) g d h lt = omega (arith, total-modify f xs i g d h (omega arith))

  pub length-modify : (xs : List A) (i : ℕ) (f : A → A) → length (modify xs i f) ≡ length xs
  length-modify [] i f = refl
  length-modify (x ∷ xs) zero f = refl
  length-modify (x ∷ xs) (suc i) f = ap suc (length-modify xs i f)

  pub get_or-modify_self :
      (xs : List A) (i : ℕ) (f : A → A) (d : A)
      → i < length xs
      → get_or (modify xs i f) i d ≡ f (get_or xs i d)
  get_or-modify_self [] i f d h = absurd (omega arith)
  get_or-modify_self (x ∷ xs) zero f d h = refl
  get_or-modify_self (x ∷ xs) (suc i) f d h = get_or-modify_self xs i f d (omega arith)

  pub get_or-modify_ne :
      (xs : List A) (i j : ℕ) (f : A → A) (d : A)
      → i ≢ j
      → get_or (modify xs i f) j d ≡ get_or xs j d
  get_or-modify_ne [] i j f d h = refl
  get_or-modify_ne (x ∷ xs) zero zero f d h = absurd (h refl)
  get_or-modify_ne (x ∷ xs) zero (suc j) f d h = refl
  get_or-modify_ne (x ∷ xs) (suc i) zero f d h = refl
  get_or-modify_ne (x ∷ xs) (suc i) (suc j) f d h = get_or-modify_ne xs i j f d (λ e. h (ap suc e))

  pub List-cases : (xs : List A) → (xs ≡ []) ⊎ ((x : A) × (rest : List A) × (xs ≡ x ∷ rest))
  List-cases [] = inl refl
  List-cases (x ∷ xs) = inr (x, xs, refl)

  pub get_elem?-some : (xs : List A) (i : ℕ) → i < length xs → (a : A) × (get_elem? xs i ≡ some a)
  get_elem?-some [] i h = absurd (omega arith)
  get_elem?-some (x ∷ xs) zero h = (x, refl)
  get_elem?-some (x ∷ xs) (suc i) h = get_elem?-some xs i (omega arith)

  pub get_elem?-append_left :
      (xs ys : List A) (i : ℕ) {a : A} → get_elem? xs i ≡ some a → get_elem? (xs ++ ys) i ≡ some a
  get_elem?-append_left [] ys i h = cc
  get_elem?-append_left (x ∷ xs) ys zero h = h
  get_elem?-append_left (x ∷ xs) ys (suc i) h = get_elem?-append_left xs ys i h

  pub get_elem?-append_length :
      (xs ys : List A) (a : A) → get_elem? (xs ++ (a ∷ ys)) (length xs) ≡ some a
  get_elem?-append_length [] ys a = refl
  get_elem?-append_length (x ∷ xs) ys a = get_elem?-append_length xs ys a

  pub lt-length_of_get_elem? :
      (xs : List A) (i : ℕ) {a : A} → get_elem? xs i ≡ some a → i < length xs
  lt-length_of_get_elem? [] i h = cc
  lt-length_of_get_elem? (x ∷ xs) zero h = omega arith
  lt-length_of_get_elem? (x ∷ xs) (suc i) h = omega (arith, lt-length_of_get_elem? xs i h)

  pub All-map {κ κ'} :
      {P : A → Type κ} {Q : A → Type κ'} (xs : List A) → ((a : A) → P a → Q a) → All P xs → All Q xs
  All-map [] f h = tt
  All-map (x ∷ xs) f h = (f x h.0, All-map xs f h.1)

  pub All-get_elem? {κ} :
      (P : A → Type κ) (xs : List A) (i : ℕ) {a : A} → All P xs → get_elem? xs i ≡ some a → P a
  All-get_elem? P [] i h e = cc
  All-get_elem? P (x ∷ xs) zero {a} h e = let e' : x ≡ a = cc in subst P e' h.0
  All-get_elem? P (x ∷ xs) (suc i) h e = All-get_elem? P xs i h.1 e

  pub All-append {κ} : (P : A → Type κ) (xs ys : List A) → All P xs → All P ys → All P (xs ++ ys)
  All-append P [] ys hx hy = hy
  All-append P (x ∷ xs) ys hx hy = (hx.0, All-append P xs ys hx.1 hy)

pub length-map {ℓ κ} :
    {A : Type ℓ} {B : Type κ} (f : A → B) (xs : List A) → length (map f xs) ≡ length xs
length-map f [] = refl
length-map f (x ∷ xs) = ap suc (length-map f xs)

pub total-map {ℓ κ} :
    {A : Type ℓ} {B : Type κ} (f : B → ℕ) (g : A → B) (xs : List A)
    → total f (map g xs) ≡ total (λ x. f (g x)) xs
total-map f g [] = refl
total-map f g (x ∷ xs) = ap (λ n. f (g x) + n) (total-map f g xs)
