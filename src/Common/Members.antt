-- ===== src/Common/Members.antt =====
-- Finite sets of numbers as lists: Go's map[K]struct{} with its members in the order of insertion.
use Prim.Native.Nat.{ℕ, zero, suc, ◌+◌, ◌≤◌, ◌<◌}
use mathlib.Core.Path.{◌≡◌, refl}
use mathlib.Core.Logic.{◌↔◌, ◌⊎◌}
use mathlib.Core.Bool.{Bool, true, false, ◌||◌}
use mathlib.Core.List.{List, [], ◌∷◌, ◌++◌}
use native.Mathlib.Omega.{arith}
use bubblepprof.Common.Tests.{◌==◌, if◌then◌else◌}
use bubblepprof.Common.Lists.{length}

unfoldable pub elem : ℕ → List ℕ → Bool
elem a [] = false
elem a (x ∷ xs) = a == x || elem a xs

-- A map key occurs once.
abbrev pub IsDistinct : List ℕ → Type 0
IsDistinct [] = Unit {0}
IsDistinct (x ∷ xs) = (elem x xs ≡ false) × IsDistinct xs

-- `set[a] = struct{}{}`
unfoldable pub insert : ℕ → List ℕ → List ℕ
unfolding elem
insert a xs = if elem a xs then xs else a ∷ xs

pub elem-nil : (a : ℕ) → elem a [] ≡ false
unfolding elem
elem-nil a = refl

pub elem-cons : (a x : ℕ) (xs : List ℕ) → elem a (x ∷ xs) ≡ (a == x || elem a xs)
unfolding elem
elem-cons a x xs = refl

pub elem-cons_iff :
    (a x : ℕ) (xs : List ℕ) → (elem a (x ∷ xs) ≡ true) ↔ ((a ≡ x) ⊎ (elem a xs ≡ true))
unfolding elem
elem-cons_iff a x xs = ground arith

pub elem-append : (a : ℕ) (xs ys : List ℕ) → elem a (xs ++ ys) ≡ (elem a xs || elem a ys)
unfolding elem
elem-append a [] ys = refl
elem-append a (x ∷ xs) ys = ground (arith, elem-append a xs ys)

pub elem-insert : (a x : ℕ) (xs : List ℕ) → elem a (insert x xs) ≡ (a == x || elem a xs)
unfolding insert
elem-insert a x xs = ground arith

pub insert-IsDistinct : (a : ℕ) (xs : List ℕ) → IsDistinct xs → IsDistinct (insert a xs)
unfolding insert
insert-IsDistinct a xs h = ground arith

-- How many numbers below `n` are outside the set.
unfoldable pub outside : ℕ → List ℕ → ℕ
outside zero xs = 0
outside (suc n) xs = if elem n xs then outside n xs else suc (outside n xs)

outside-cons_above : (n a : ℕ) (xs : List ℕ) → n ≤ a → outside n (a ∷ xs) ≡ outside n xs
unfolding outside elem
outside-cons_above zero a xs h = refl
outside-cons_above (suc n) a xs h = ground (arith, outside-cons_above n a xs)

-- A new member lowers the count by one.
pub outside-cons :
    (n a : ℕ) (xs : List ℕ) → a < n → elem a xs ≡ false → suc (outside n (a ∷ xs)) ≡ outside n xs
unfolding outside elem
outside-cons zero a xs h e = absurd (omega arith)
outside-cons (suc n) a xs h e = ground (arith, outside-cons n a xs, outside-cons_above n a xs)

pub outside-nil : (n : ℕ) → outside n [] ≡ n
unfolding outside elem
outside-nil zero = refl
outside-nil (suc n) = omega (arith, outside-nil n)

pub outside_subset :
    (n : ℕ) (xs ys : List ℕ)
    → ((a : ℕ) → elem a xs ≡ true → elem a ys ≡ true)
    → outside n ys ≤ outside n xs
unfolding outside
outside_subset zero xs ys h = omega arith
outside_subset (suc n) xs ys h = ground (arith, outside_subset n xs ys h, h n)

-- A set of numbers below `n` has as many members as `outside` says.
pub length_outside :
    (n : ℕ) (xs : List ℕ)
    → IsDistinct xs
    → ((a : ℕ) → elem a xs ≡ true → a < n)
    → length xs + outside n xs ≡ n
unfolding elem
length_outside n [] d h = omega (arith, outside-nil n)
length_outside n (x ∷ xs) d h = omega (
  arith,
  length_outside n xs d.1 (λ a m. h a (ground arith)),
  outside-cons n x xs (h x (ground arith)) d.0,
)

pub IsDistinct-append :
    (a : ℕ) (xs : List ℕ) → elem a xs ≡ false → IsDistinct xs → IsDistinct (xs ++ a ∷ [])
unfolding elem
IsDistinct-append a [] e d = (refl, tt)
IsDistinct-append a (x ∷ xs) e d =
    (ground (arith, elem-append x xs (a ∷ [])), IsDistinct-append a xs (ground arith) d.1)
