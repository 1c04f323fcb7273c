-- ===== src/Graph/Find.antt =====
-- (*Graph).FindObjectContaining (graph.go): what the binary search over the ranges finds.
use bubblepprof.Common.{
  ℕ, zero, suc, ◌+◌, ◌-◌, ◌≤◌, ◌<◌, ◌≡◌, ◌≢◌, refl, ◌⊎◌, inl, inr, true, false, Bool-cases, List,
  [], ◌∷◌, some, Option-cases, arith, length, get_elem?, get_elem?-some, lt-length_of_get_elem?,
  All, All-get_elem?, lookup, ltb, ◌==◌,
}
use bubblepprof.Graph.{Graph, ObjectRange, starts_after, range_before, find_object_containing}
use bubblepprof.Graph.Search.{search, IsBoundary, search-IsBoundary}

-- Each range starts before all that follow it.
abbrev pub IsSorted : List ObjectRange → Type 0
IsSorted [] = Unit {0}
IsSorted (r ∷ rs) = All (λ s. r.start ≤ s.start) rs × IsSorted rs

-- Each range ends before all that follow it.
abbrev pub IsDisjoint : List ObjectRange → Type 0
IsDisjoint [] = Unit {0}
IsDisjoint (r ∷ rs) = All (λ s. r.end ≤ s.start) rs × IsDisjoint rs

starts_after_mono :
    (rs : List ObjectRange) (ptr i j : ℕ)
    → IsSorted rs
    → i ≤ j
    → j < length rs
    → starts_after rs ptr i ≡ true
    → starts_after rs ptr j ≡ true
starts_after_mono [] ptr i j s h k e = cc
starts_after_mono (r ∷ rs) ptr zero zero s h k e = e
starts_after_mono (r ∷ rs) ptr zero (suc j) s h k e =
    let (x, at) = get_elem?-some rs j (omega arith) in
    let le = All-get_elem? (λ t. r.start ≤ t.start) rs j s.0 at in ground arith
starts_after_mono (r ∷ rs) ptr (suc i) zero s h k e = absurd (omega arith)
starts_after_mono (r ∷ rs) ptr (suc i) (suc j) s h k e =
    starts_after_mono rs ptr i j s.1 (omega arith) (omega arith) e

-- The search over sorted ranges returns the number of ranges that start at or before the pointer.
pub range-IsBoundary :
    (rs : List ObjectRange) (ptr : ℕ)
    → IsSorted rs
    → IsBoundary (starts_after rs ptr) (length rs) (search (length rs) (starts_after rs ptr))
range-IsBoundary rs ptr s =
    search-IsBoundary (length rs) (starts_after rs ptr)
      (λ i j h k e. starts_after_mono rs ptr i j s h k e)

-- The range before that place starts at or before the pointer.
pub range_before-le :
    (rs : List ObjectRange) (ptr : ℕ) {r : ObjectRange}
    → IsSorted rs
    → range_before rs ptr ≡ some r
    → (i : ℕ) × (get_elem? rs i ≡ some r) × (r.start ≤ ptr)
unfolding range_before
range_before-le rs ptr {r} s h =
    let k = search (length rs) (starts_after rs ptr) in
    let b = range-IsBoundary rs ptr s in
    elim (Bool-cases (k == 0)) [
      | inl e ↦ ground arith
      | inr e ↦
          let at : get_elem? rs (k - 1) ≡ some r = ground arith in
          (k - 1, at, ground (arith, b.before (k - 1) (ground arith), at))
    ]

IsDisjoint-at :
    (rs : List ObjectRange) (i j : ℕ) {r s : ObjectRange}
    → IsDisjoint rs
    → get_elem? rs i ≡ some r
    → get_elem? rs j ≡ some s
    → i < j
    → r.end ≤ s.start
IsDisjoint-at [] i j d h k lt = cc
IsDisjoint-at (t ∷ rs) i zero d h k lt = absurd (omega arith)
IsDisjoint-at (t ∷ rs) zero (suc j) {r} d h k lt =
    let e : t ≡ r = cc in let le = All-get_elem? (λ u. t.end ≤ u.start) rs j d.0 k in ground arith
IsDisjoint-at (t ∷ rs) (suc i) (suc j) d h k lt = IsDisjoint-at rs i j d.1 h k (omega arith)

starts_after_at :
    (rs : List ObjectRange) (ptr i : ℕ) {r : ObjectRange}
    → get_elem? rs i ≡ some r
    → starts_after rs ptr i ≡ ltb ptr r.start
starts_after_at rs ptr i h = ground arith

-- Among disjoint sorted ranges, the one that holds the pointer is the one before that place.
pub range_before_holds :
    (rs : List ObjectRange) (ptr j : ℕ) {r : ObjectRange}
    → IsSorted rs
    → IsDisjoint rs
    → get_elem? rs j ≡ some r
    → r.start ≤ ptr
    → ptr < r.end
    → range_before rs ptr ≡ some r
unfolding range_before
range_before_holds rs ptr j {r} s d at lo hi =
    let k = search (length rs) (starts_after rs ptr) in
    let b = range-IsBoundary rs ptr s in
    let below : j < k = below k b in
    let top : k ≤ j + 1 = top k b in
    let e : k - 1 ≡ j = omega arith in
    let nonzero : (k == 0) ≡ false = ground arith in rw (nonzero, e) at
  where
    in_range : j < length rs
    in_range = lt-length_of_get_elem? rs j at

    below : (k : ℕ) → IsBoundary (starts_after rs ptr) (length rs) k → j < k
    below k b = elim (Bool-cases (ltb j k)) [
      | inl e ↦ ground arith
      | inr e ↦
          absurd (ground (arith, b.from j (ground arith) in_range, starts_after_at rs ptr j at))
    ]

    top : (k : ℕ) → IsBoundary (starts_after rs ptr) (length rs) k → k ≤ j + 1
    top k b = elim (Bool-cases (ltb (j + 1) k)) [
      | inr e ↦ ground arith
      | inl e ↦
          let (x, at') = get_elem?-some rs (j + 1) (ground (arith, b.within)) in
          let le = IsDisjoint-at rs j (j + 1) d at at' (omega arith) in
          ground (arith, b.before (j + 1), starts_after_at rs ptr (j + 1) at')
    ]

-- A pointer resolves to the object at its address, or to one whose range holds it.
pub find_object_containing-eq-some :
    (g : Graph) (ptr id : ℕ)
    → IsSorted g.ranges
    → find_object_containing (some g) ptr ≡ some id
    → (lookup ptr g.by_addr ≡ some id)
      ⊎ ((i : ℕ) × (r : ObjectRange) × (get_elem? g.ranges i ≡ some r)
          × (r.id ≡ id)
          × (r.start ≤ ptr)
          × (ptr < r.end))
unfolding find_object_containing
find_object_containing-eq-some g ptr id s h = elim (Option-cases (lookup ptr g.by_addr)) [
  | inr (x, e) ↦ inl (ground arith)
  | inl e ↦ elim (Option-cases (range_before g.ranges ptr)) [
    | inl e' ↦ ground arith
    | inr (r, e') ↦
        let (i, at, le) = range_before-le g.ranges ptr s e' in
        inr (i, r, at, ground arith, le, ground arith)
  ]
]

-- A nonzero pointer that lies in a range of disjoint ranges resolves, to the object at its address
-- or else to the object of that range.
pub find_object_containing_holds :
    (g : Graph) (ptr j : ℕ) {r : ObjectRange}
    → IsSorted g.ranges
    → IsDisjoint g.ranges
    → get_elem? g.ranges j ≡ some r
    → r.start ≤ ptr
    → ptr < r.end
    → ptr ≢ 0
    → (id : ℕ) × (find_object_containing (some g) ptr ≡ some id)
      × ((lookup ptr g.by_addr ≡ some id) ⊎ (id ≡ r.id))
unfolding find_object_containing
find_object_containing_holds g ptr j {r} s d at lo hi nz =
    let before = range_before_holds g.ranges ptr j s d at lo hi in
    elim (Option-cases (lookup ptr g.by_addr)) [
      | inr (x, e) ↦ (x, ground arith, inl e)
      | inl e ↦ (r.id, ground arith, inr refl)
    ]
