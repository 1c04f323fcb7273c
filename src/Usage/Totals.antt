-- ===== src/Usage/Totals.antt =====
-- Object sets (internal/memusage/compute.go) against a count over the objects of the graph.
use bubblepprof.Common.{
  ℕ, zero, suc, ◌+◌, ◌≤◌, ◌<◌, ◌≡◌, refl, ap, ◌∙◌, ◌↔◌, inl, inr, true, false, Bool, Bool-cases,
  List, [], ◌∷◌, Option, some, none, arith, length, get_elem?, elem, elem-nil, elem-cons,
  IsDistinct, ltb, ◌==◌, ◌||◌, if◌then◌else◌, max_uint64,
}
use bubblepprof.Graph.{Graph, Object}
use bubblepprof.Graph.Build.Laws.{sum_sizes}
use bubblepprof.Usage.Sets.{object_set_bytes, common, intersect_count_bytes}

-- The sizes of the objects, numbered from `i`, whose number is in the set.
abbrev pub bytes_in : List Object → ℕ → List ℕ → ℕ
bytes_in [] i ids = 0
bytes_in (o ∷ os) i ids = (if elem i ids then o.size else 0) + bytes_in os (i + 1) ids

pub bytes_in-le : (os : List Object) (i : ℕ) (ids : List ℕ) → bytes_in os i ids ≤ sum_sizes os
bytes_in-le [] i ids = omega arith
bytes_in-le (o ∷ os) i ids = ground (arith, bytes_in-le os (i + 1) ids)

pub bytes_in_mono :
    (os : List Object) (i : ℕ) (xs ys : List ℕ)
    → ((a : ℕ) → elem a xs ≡ true → elem a ys ≡ true)
    → bytes_in os i xs ≤ bytes_in os i ys
bytes_in_mono [] i xs ys h = omega arith
bytes_in_mono (o ∷ os) i xs ys h = ground (arith, h i, bytes_in_mono os (i + 1) xs ys h)

pub bytes_in-nil : (os : List Object) (i : ℕ) → bytes_in os i [] ≡ 0
bytes_in-nil [] i = refl
bytes_in-nil (o ∷ os) i = ground (arith, elem-nil i, bytes_in-nil os (i + 1))

abbrev pub size_of : Option Object → ℕ
size_of none = 0
size_of (some o) = o.size

bytes_in-cons_below :
    (os : List Object) (i x : ℕ) (ids : List ℕ)
    → x < i
    → bytes_in os i (x ∷ ids) ≡ bytes_in os i ids
bytes_in-cons_below [] i x ids h = refl
bytes_in-cons_below (o ∷ os) i x ids h =
    ground (arith, elem-cons i x ids, bytes_in-cons_below os (i + 1) x ids (omega arith))

bytes_in-cons :
    (os : List Object) (i k : ℕ) (ids : List ℕ)
    → elem (i + k) ids ≡ false
    → bytes_in os i ((i + k) ∷ ids) ≡ size_of (get_elem? os k) + bytes_in os i ids
bytes_in-cons [] i k ids h = omega arith
bytes_in-cons (o ∷ os) i zero ids h =
    ground
      (arith, elem-cons i (i + 0) ids, bytes_in-cons_below os (i + 1) (i + 0) ids (omega arith))
bytes_in-cons (o ∷ os) i (suc k) ids h =
    let e : i + suc k ≡ i + 1 + k = omega arith in
    let ih = bytes_in-cons os (i + 1) k ids (rw e at h) in
    rw e (ground (arith, elem-cons i (i + 1 + k) ids, ih))

-- A new member adds its size.
pub bytes_in-cons_new :
    (g : Graph) (x : ℕ) (ids : List ℕ)
    → elem x ids ≡ false
    → bytes_in g.objects 0 (x ∷ ids) ≡ size_of (get_elem? g.objects x) + bytes_in g.objects 0 ids
bytes_in-cons_new g x ids h =
    let e : 0 + x ≡ x = omega arith in
    let none_yet : elem (0 + x) ids ≡ false = rw e h in
    rw e at (bytes_in-cons g.objects 0 x ids none_yet)

-- ObjectSetBytes does not wrap where the graph's total fits, and adds each size once.
pub object_set_bytes_exact :
    (g : Graph) (ids : List ℕ)
    → sum_sizes g.objects ≤ max_uint64
    → IsDistinct ids
    → object_set_bytes (some g) ids ≡ bytes_in g.objects 0 ids
unfolding object_set_bytes
object_set_bytes_exact g [] fits d = omega (arith, bytes_in-nil g.objects 0)
object_set_bytes_exact g (x ∷ ids) fits d = ground (
  arith,
  object_set_bytes_exact g ids fits d.1,
  bytes_in-cons_new g x ids d.0,
  bytes_in-le g.objects 0 (x ∷ ids),
)

pub elem-common :
    (a b : List ℕ) (x : ℕ) → (elem x (common a b) ≡ true) ↔ ((elem x a ≡ true) × (elem x b ≡ true))
unfolding common elem
elem-common [] b x = ground arith
elem-common (y ∷ a) b x = ground (arith, elem-common a b x)

pub common-IsDistinct : (a b : List ℕ) → IsDistinct a → IsDistinct (common a b)
unfolding common
common-IsDistinct [] b d = tt
common-IsDistinct (y ∷ a) b d = elim (Bool-cases (elem y b)) [
  | inl e ↦ rw e (ground (arith, elem-common a b y), common-IsDistinct a b d.1)
  | inr e ↦ rw e (common-IsDistinct a b d.1)
]

-- `n` objects, of `bytes` bytes in all, are the objects that satisfy `P`.
pub record Counts (g : Graph) (P : ℕ → Type 0) (n bytes : ℕ) : Type 0 where
  pub ids : List ℕ
  pub distinct : IsDistinct ids
  pub exact : (a : ℕ) → (elem a ids ≡ true) ↔ P a
  pub count : n ≡ length ids
  pub total : bytes ≡ bytes_in g.objects 0 ids

common_empty : (a b : List ℕ) → (length a == 0 || length b == 0) ≡ true → common a b ≡ []
unfolding common
common_empty [] b h = refl
common_empty (x ∷ a) [] h = rw (elem-nil x) (common_empty a [] (ground arith))
common_empty (x ∷ a) (y ∷ b) h = absurd (ground arith)

-- The early return for an empty set agrees with the loop.
empty_or_loop :
    (g : Graph) (empty : Bool) (c : List ℕ)
    → (empty ≡ true → c ≡ [])
    → ◌≡◌ {A = ℕ × ℕ}
        (if empty then (0, 0) else (length c, object_set_bytes (some g) c))
        (length c, object_set_bytes (some g) c)
unfolding object_set_bytes
empty_or_loop g true c h = rw (h refl)
empty_or_loop g false c h = refl

value_swapped :
    (g : Graph) (a b : List ℕ)
    → ltb (length b) (length a) ≡ true
    → intersect_count_bytes (some g) a b
      ≡ (length (common b a), object_set_bytes (some g) (common b a))
unfolding intersect_count_bytes
value_swapped g a b e = rw e (
    empty_or_loop g (length a == 0 || length b == 0) (common b a)
      (λ z. common_empty b a (ground arith)))

value_straight :
    (g : Graph) (a b : List ℕ)
    → ltb (length b) (length a) ≡ false
    → intersect_count_bytes (some g) a b
      ≡ (length (common a b), object_set_bytes (some g) (common a b))
unfolding intersect_count_bytes
value_straight g a b e =
    rw e (empty_or_loop g (length a == 0 || length b == 0) (common a b) (common_empty a b))

-- For a graph whose sizes sum up within uint64, IntersectCountBytes counts the common members of
-- two sets, with the exact sum of their sizes, whichever set is smaller or empty.
pub intersect_count_bytes_exact :
    (g : Graph) (a b : List ℕ)
    → sum_sizes g.objects ≤ max_uint64
    → IsDistinct a
    → IsDistinct b
    → Counts g
        (λ x. (elem x a ≡ true) × (elem x b ≡ true))
        (intersect_count_bytes (some g) a b).0
        (intersect_count_bytes (some g) a b).1
intersect_count_bytes_exact g a b fits da db = elim (Bool-cases (ltb (length b) (length a))) [
  | inl e ↦ record {
    ids = common b a;
    distinct = common-IsDistinct b a db;
    exact = λ x. ground (arith, elem-common b a x);
    count = ap (λ p. p.0) (value_swapped g a b e);
    total =
        ap (λ p. p.1) (value_swapped g a b e)
        ∙ object_set_bytes_exact g (common b a) fits (common-IsDistinct b a db);
  }
  | inr e ↦ record {
    ids = common a b;
    distinct = common-IsDistinct a b da;
    exact = elem-common a b;
    count = ap (λ p. p.0) (value_straight g a b e);
    total =
        ap (λ p. p.1) (value_straight g a b e)
        ∙ object_set_bytes_exact g (common a b) fits (common-IsDistinct a b da);
  }
]
