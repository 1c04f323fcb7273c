-- ===== src/Session/Splits.antt =====
-- Counts and byte totals of sets of objects against the two parts of a set.
use bubblepprof.Common.{
  ℕ, zero, suc, ◌+◌, ◌<◌, ◌≡◌, refl, true, false, ◌&&◌, ◌||◌, List, [], ◌∷◌, arith, length, elem,
  IsDistinct, outside, length_outside,
}
use bubblepprof.Graph.{Graph, Object}
use bubblepprof.Usage.Totals.{bytes_in}

-- Two sets are the disjoint parts of a third.
pub record IsSplit (whole left right : List ℕ) : Type 0 where
  pub covered : (a : ℕ) → elem a whole ≡ (elem a left || elem a right)
  pub apart : (a : ℕ) → (elem a left && elem a right) ≡ false

outside-split :
    (n : ℕ) (whole left right : List ℕ)
    → IsSplit whole left right
    → outside n whole + n ≡ outside n left + outside n right
unfolding outside
outside-split zero whole left right h = refl
outside-split (suc n) whole left right h =
    ground (arith, outside-split n whole left right h, h.covered n, h.apart n)

pub bytes_in-split :
    (os : List Object) (i : ℕ) (whole left right : List ℕ)
    → IsSplit whole left right
    → bytes_in os i whole ≡ bytes_in os i left + bytes_in os i right
bytes_in-split [] i whole left right h = refl
bytes_in-split (o ∷ os) i whole left right h =
    ground (arith, bytes_in-split os (i + 1) whole left right h, h.covered i, h.apart i)

-- A set of objects of the graph: no id twice, and each in range.
abbrev pub IsObjectSet : Graph → List ℕ → Type 0
IsObjectSet g ids = IsDistinct ids × ((a : ℕ) → elem a ids ≡ true → a < length g.objects)

pub length-split :
    (g : Graph) (whole left right : List ℕ)
    → IsObjectSet g whole
    → IsObjectSet g left
    → IsObjectSet g right
    → IsSplit whole left right
    → length whole ≡ length left + length right
length-split g whole left right w l r h =
    let n = length g.objects in
    omega (
      arith,
      outside-split n whole left right h,
      length_outside n whole w.0 w.1,
      length_outside n left l.0 l.1,
      length_outside n right r.0 r.1,
    )

-- The same members, in any order.
abbrev pub SameMembers : List ℕ → List ℕ → Type 0
SameMembers xs ys = (a : ℕ) → elem a xs ≡ elem a ys

outside-same : (n : ℕ) (xs ys : List ℕ) → SameMembers xs ys → outside n xs ≡ outside n ys
unfolding outside
outside-same zero xs ys h = refl
outside-same (suc n) xs ys h = ground (arith, outside-same n xs ys h, h n)

pub bytes_in-same :
    (os : List Object) (i : ℕ) (xs ys : List ℕ)
    → SameMembers xs ys
    → bytes_in os i xs ≡ bytes_in os i ys
bytes_in-same [] i xs ys h = refl
bytes_in-same (o ∷ os) i xs ys h = ground (arith, bytes_in-same os (i + 1) xs ys h, h i)

pub length-same :
    (g : Graph) (xs ys : List ℕ)
    → IsObjectSet g xs
    → IsObjectSet g ys
    → SameMembers xs ys
    → length xs ≡ length ys
length-same g xs ys p q h =
    let n = length g.objects in
    omega (arith, outside-same n xs ys h, length_outside n xs p.0 p.1, length_outside n ys q.0 q.1)
