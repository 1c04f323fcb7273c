-- ===== src/Common/SortedSets.antt =====
-- Sorting a set of numbers keeps its members.
use Prim.Native.Nat.{ℕ}
use mathlib.Core.Path.{◌≡◌, refl}
use mathlib.Core.Logic.{inl, inr}
use mathlib.Core.Bool.{Bool, false, ◌||◌}
use mathlib.Core.List.{List, [], ◌∷◌}
use native.Mathlib.Omega.{arith}
use bubblepprof.Common.Tests.{◌==◌, Bool-cases}
use bubblepprof.Common.Members.{elem, IsDistinct}
use bubblepprof.Common.Sorting.{insert_by, sort_by}

module _ (before : ℕ → ℕ → Bool) where
  elem-insert_by : (a x : ℕ) (xs : List ℕ) → elem a (insert_by before x xs) ≡ (a == x || elem a xs)
  unfolding insert_by elem
  elem-insert_by a x [] = refl
  elem-insert_by a x (y ∷ ys) = ground (arith, elem-insert_by a x ys)

  pub elem-sort_by : (a : ℕ) (xs : List ℕ) → elem a (sort_by before xs) ≡ elem a xs
  unfolding sort_by elem
  elem-sort_by a [] = refl
  elem-sort_by a (x ∷ xs) =
      ground (arith, elem-insert_by a x (sort_by before xs), elem-sort_by a xs)

  insert_by-IsDistinct :
      (x : ℕ) (xs : List ℕ) → elem x xs ≡ false → IsDistinct xs → IsDistinct (insert_by before x xs)
  unfolding insert_by elem
  insert_by-IsDistinct x [] e d = (refl, tt)
  insert_by-IsDistinct x (y ∷ ys) e d = elim (Bool-cases (before x y)) [
    | inl first ↦ rw first (e, d)
    | inr later ↦
        rw later
          (ground (arith, elem-insert_by y x ys), insert_by-IsDistinct x ys (ground arith) d.1)
  ]

  pub sort_by-IsDistinct : (xs : List ℕ) → IsDistinct xs → IsDistinct (sort_by before xs)
  unfolding sort_by
  sort_by-IsDistinct [] d = tt
  sort_by-IsDistinct (x ∷ xs) d =
      insert_by-IsDistinct x (sort_by before xs) (ground (arith, elem-sort_by x xs))
        (sort_by-IsDistinct xs d.1)
