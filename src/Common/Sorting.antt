-- ===== src/Common/Sorting.antt =====
-- Go's sort.Slice on a strict order: no element of the result goes before an earlier one.
use Prim.Native.Nat.{ℕ, zero, suc, ◌<◌, ◌≤◌}
use mathlib.Core.Path.{◌≡◌, refl, subst}
use mathlib.Core.Option.{some}
use mathlib.Core.Logic.{inl, inr, ◌⊎◌}
use mathlib.Core.Bool.{Bool, true, false}
use mathlib.Core.List.{List, [], ◌∷◌, map}
use native.Mathlib.Omega.{arith}
use bubblepprof.Common.Tests.{Bool-cases, if◌then◌else◌}
use bubblepprof.Common.Lists.{length, All, All-map, All-get_elem?, get_elem?, total, take}

module _ {ℓ} {A : Type ℓ} (before : A → A → Bool) where
  unfoldable pub insert_by : A → List A → List A
  insert_by x [] = x ∷ []
  insert_by x (y ∷ ys) = if before x y then x ∷ y ∷ ys else y ∷ insert_by x ys

  unfoldable pub sort_by : List A → List A
  unfolding insert_by
  sort_by [] = []
  sort_by (x ∷ xs) = insert_by x (sort_by xs)

  abbrev pub IsOrdered : List A → Type 0
  IsOrdered [] = Unit {0}
  IsOrdered (x ∷ xs) = All (λ y. before y x ≡ false) xs × IsOrdered xs

module _ {ℓ} {A : Type ℓ} (before : A → A → Bool) where
  length-insert_by : (x : A) (xs : List A) → length (insert_by before x xs) ≡ suc (length xs)
  unfolding insert_by
  length-insert_by x [] = refl
  length-insert_by x (y ∷ ys) = ground (arith, length-insert_by x ys)

  pub length-sort_by : (xs : List A) → length (sort_by before xs) ≡ length xs
  unfolding sort_by
  length-sort_by [] = refl
  length-sort_by (x ∷ xs) = omega (arith, length-insert_by x (sort_by before xs), length-sort_by xs)

  -- A sum over the elements does not depend on their order.
  total-insert_by :
      (f : A → ℕ) (x : A) (xs : List A) → total f (insert_by before x xs) ≡ total f (x ∷ xs)
  unfolding insert_by
  total-insert_by f x [] = refl
  total-insert_by f x (y ∷ ys) = ground (arith, total-insert_by f x ys)

  pub total-sort_by : (f : A → ℕ) (xs : List A) → total f (sort_by before xs) ≡ total f xs
  unfolding sort_by
  total-sort_by f [] = refl
  total-sort_by f (x ∷ xs) =
      omega (arith, total-insert_by f x (sort_by before xs), total-sort_by f xs)

  All-insert_by {κ} :
      (P : A → Type κ) (x : A) (xs : List A) → P x → All P xs → All P (insert_by before x xs)
  unfolding insert_by
  All-insert_by P x [] p h = (p, tt)
  All-insert_by P x (y ∷ ys) p h = elim (Bool-cases (before x y)) [
    | inl e ↦ rw e (p, h)
    | inr e ↦ rw e (h.0, All-insert_by P x ys p h.1)
  ]

  pub All-sort_by {κ} : (P : A → Type κ) (xs : List A) → All P xs → All P (sort_by before xs)
  unfolding sort_by
  All-sort_by P [] h = tt
  All-sort_by P (x ∷ xs) h = All-insert_by P x (sort_by before xs) h.0 (All-sort_by P xs h.1)

-- A strict weak order.
pub record IsStrict {ℓ} {A : Type ℓ} (before : A → A → Bool) : Type ℓ where
  pub asym : (a b : A) → before a b ≡ true → before b a ≡ false
  pub trans_not : (a b c : A) → before b a ≡ false → before c b ≡ false → before c a ≡ false

module _ {ℓ} {A : Type ℓ} (before : A → A → Bool) (strict : IsStrict before) where
  insert_by-IsOrdered :
      (x : A) (xs : List A) → IsOrdered before xs → IsOrdered before (insert_by before x xs)
  unfolding insert_by
  insert_by-IsOrdered x [] h = (tt, tt)
  insert_by-IsOrdered x (y ∷ ys) h = elim (Bool-cases (before x y)) [
    | inl e ↦ rw e (
      (strict.asym x y e, All-map ys (λ z p. strict.trans_not x y z (strict.asym x y e) p) h.0),
      h,
    )
    | inr e ↦
        rw e
          (All-insert_by before (λ z. before z y ≡ false) x ys e h.0, insert_by-IsOrdered x ys h.1)
  ]

  pub sort_by-IsOrdered : (xs : List A) → IsOrdered before (sort_by before xs)
  unfolding sort_by
  sort_by-IsOrdered [] = tt
  sort_by-IsOrdered (x ∷ xs) = insert_by-IsOrdered x (sort_by before xs) (sort_by-IsOrdered xs)

module _ {ℓ} {A : Type ℓ} (before : A → A → Bool) where
  -- In an ordered list a later element does not go before an earlier one.
  pub IsOrdered-get_elem? :
      (xs : List A) (i j : ℕ) {a b : A}
      → IsOrdered before xs
      → i < j
      → get_elem? xs i ≡ some a
      → get_elem? xs j ≡ some b
      → before b a ≡ false
  IsOrdered-get_elem? [] i j h lt p q = cc
  IsOrdered-get_elem? (x ∷ xs) zero zero h lt p q = absurd (omega arith)
  IsOrdered-get_elem? (x ∷ xs) zero (suc j) {a} {b} h lt p q =
      let same : x ≡ a = ground arith in
      subst (λ y. before b y ≡ false) same (All-get_elem? (λ y. before y x ≡ false) xs j h.0 q)
  IsOrdered-get_elem? (x ∷ xs) (suc i) zero h lt p q = absurd (omega arith)
  IsOrdered-get_elem? (x ∷ xs) (suc i) (suc j) h lt p q =
      IsOrdered-get_elem? xs i j h.1 (omega arith) p q

-- Every element is related to all later ones.
abbrev pub IsSorted {ℓ κ} : {A : Type ℓ} → (A → A → Type κ) → List A → Type κ
IsSorted R [] = Unit {_}
IsSorted R (x ∷ xs) = All (R x) xs × IsSorted R xs

pub IsOrdered-IsSorted {ℓ κ} :
    {A : Type ℓ} (before : A → A → Bool) (R : A → A → Type κ)
    → ((a b : A) → before b a ≡ false → R a b)
    → (xs : List A) → IsOrdered before xs
    → IsSorted R xs
IsOrdered-IsSorted before R follows [] h = tt
IsOrdered-IsSorted before R follows (x ∷ xs) h =
    (All-map xs (follows x) h.0, IsOrdered-IsSorted before R follows xs h.1)

pub All-over_map {ℓ ℓ' κ} :
    {A : Type ℓ} {B : Type ℓ'} (P : B → Type κ) (f : A → B) (xs : List A)
    → All (λ x. P (f x)) xs
    → All P (map f xs)
All-over_map P f [] h = tt
All-over_map P f (x ∷ xs) h = (h.0, All-over_map P f xs h.1)

pub IsSorted-map {ℓ ℓ' κ} :
    {A : Type ℓ} {B : Type ℓ'} (R : B → B → Type κ) (f : A → B) (xs : List A)
    → IsSorted (λ a b. R (f a) (f b)) xs
    → IsSorted R (map f xs)
IsSorted-map R f [] h = tt
IsSorted-map R f (x ∷ xs) h = (All-over_map (R (f x)) f xs h.0, IsSorted-map R f xs h.1)

-- What is shown of a list under a limit, where 0 is no limit.
abbrev pub IsCut {ℓ} : {A : Type ℓ} → ℕ → List A → List A → Type ℓ
IsCut n full shown =
    (((n ≡ 0) ⊎ (length full ≤ n)) × (shown ≡ full))
    ⊎ ((0 < n) × (n < length full) × (shown ≡ take n full))
