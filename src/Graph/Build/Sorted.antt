-- ===== src/Graph/Build/Sorted.antt =====
-- The sort of the ranges and the overlap check of BuildContext (build.go).
use bubblepprof.Common.{
  ℕ, suc, ◌≤◌, ◌≡◌, ◌⊎◌, inl, inr, true, Bool-cases, List, [], ◌∷◌, ◌++◌, some, arith, get_elem?,
  All, All-map, ltb, leb, leb→le,
}
use bubblepprof.Common.Result.{ok}
use bubblepprof.Graph.{ObjectRange}
use bubblepprof.Graph.Types.{BuildWarning}
use bubblepprof.Graph.Find.{IsSorted, IsDisjoint}
use native.Mathlib.Nat.{le_trans}
use bubblepprof.Graph.Build.Objects.{insert_range, sort_ranges, overlap_loop, check_overlaps}

module _ {ℓ} (P : ObjectRange → Type ℓ) where
  All-insert_range :
      (r : ObjectRange) (rs : List ObjectRange) → P r → All P rs → All P (insert_range r rs)
  unfolding insert_range
  All-insert_range r [] p h = (p, tt)
  All-insert_range r (s ∷ rest) p h = elim (Bool-cases (leb r.start s.start)) [
    | inl e ↦ rw e (p, h)
    | inr e ↦ rw e (h.0, All-insert_range r rest p h.1)
  ]

  pub All-sort_ranges : (rs : List ObjectRange) → All P rs → All P (sort_ranges rs)
  unfolding sort_ranges
  All-sort_ranges [] h = h
  All-sort_ranges (r ∷ rest) h =
      All-insert_range r (sort_ranges rest) h.0 (All-sort_ranges rest h.1)

insert_range-IsSorted :
    (r : ObjectRange) (rs : List ObjectRange) → IsSorted rs → IsSorted (insert_range r rs)
unfolding insert_range
insert_range-IsSorted r [] h = (tt, tt)
insert_range-IsSorted r (s ∷ rest) h = elim (Bool-cases (leb r.start s.start)) [
  | inl e ↦ rw e ((leb→le _ _ e, All-map rest (λ t p. ground arith) h.0), h)
  | inr e ↦ rw e (
    All-insert_range (λ t. s.start ≤ t.start) r rest (ground arith) h.0,
    insert_range-IsSorted r rest h.1,
  )
]

pub sort_ranges-IsSorted : (rs : List ObjectRange) → IsSorted (sort_ranges rs)
unfolding sort_ranges
sort_ranges-IsSorted [] = tt
sort_ranges-IsSorted (r ∷ rest) =
    insert_range-IsSorted r (sort_ranges rest) (sort_ranges-IsSorted rest)

-- The range `r` is one of the list.
abbrev pub IsIn : ObjectRange → List ObjectRange → Type 0
IsIn r [] = ⊥
IsIn r (s ∷ rs) = (r ≡ s) ⊎ IsIn r rs

insert_range-IsIn :
    (x r : ObjectRange) (rs : List ObjectRange) → (x ≡ r) ⊎ IsIn x rs → IsIn x (insert_range r rs)
unfolding insert_range
insert_range-IsIn x r [] h = h
insert_range-IsIn x r (s ∷ rest) h = elim (Bool-cases (leb r.start s.start)) [
  | inl e ↦ rw e h
  | inr e ↦ rw e (elim h [
    | inl p ↦ inr (insert_range-IsIn x r rest (inl p))
    | inr (inl p) ↦ inl p
    | inr (inr p) ↦ inr (insert_range-IsIn x r rest (inr p))
  ])
]

-- No range is lost by the sort.
pub sort_ranges-IsIn :
    (x : ObjectRange) (rs : List ObjectRange) → IsIn x rs → IsIn x (sort_ranges rs)
unfolding sort_ranges
sort_ranges-IsIn x [] h = elim h [ ]
sort_ranges-IsIn x (r ∷ rest) (inl e) = insert_range-IsIn x r (sort_ranges rest) (inl e)
sort_ranges-IsIn x (r ∷ rest) (inr h) =
    insert_range-IsIn x r (sort_ranges rest) (inr (sort_ranges-IsIn x rest h))

pub IsIn-index :
    (x : ObjectRange) (rs : List ObjectRange) → IsIn x rs → (i : ℕ) × (get_elem? rs i ≡ some x)
IsIn-index x [] h = elim h [ ]
IsIn-index x (r ∷ rest) (inl e) = (0, rw e)
IsIn-index x (r ∷ rest) (inr h) = let (i, at) = IsIn-index x rest h in (suc i, at)

pub IsIn-append :
    (x r : ObjectRange) (rs : List ObjectRange) → IsIn x rs ⊎ (x ≡ r) → IsIn x (rs ++ r ∷ [])
IsIn-append x r [] (inl h) = absurd h
IsIn-append x r [] (inr e) = inl e
IsIn-append x r (s ∷ rs) (inl (inl e)) = inl e
IsIn-append x r (s ∷ rs) (inl (inr h)) = inr (IsIn-append x r rs (inl h))
IsIn-append x r (s ∷ rs) (inr e) = inr (IsIn-append x r rs (inr e))

-- In strict mode the check passes only over ranges that end before the next begins.
overlap_loop-IsDisjoint :
    (widest : ObjectRange) (ws : List BuildWarning) (rs : List ObjectRange)
    {ws' : List BuildWarning}
    → overlap_loop true widest ws rs ≡ ok ws'
    → IsDisjoint (widest ∷ rs) × (ws' ≡ ws)
unfolding overlap_loop
overlap_loop-IsDisjoint widest ws [] h = ((tt, tt), cc)
overlap_loop-IsDisjoint widest ws (cur ∷ rest) {ws'} h =
    elim (Bool-cases (ltb cur.start widest.end)) [
      | inl e ↦ absurd (ground arith)
      | inr e ↦ elim (Bool-cases (ltb widest.end cur.end)) [
        | inl wider ↦
            go_wider (ground arith) (ground arith)
              (overlap_loop-IsDisjoint cur ws rest (ground arith))
        | inr narrow ↦
            go_on (ground arith) (ground arith)
              (overlap_loop-IsDisjoint widest ws rest (ground arith))
      ]
    ]
  where
    go_wider :
        widest.end ≤ cur.start
        → widest.end ≤ cur.end
        → IsDisjoint (cur ∷ rest) × (ws' ≡ ws)
        → IsDisjoint (widest ∷ cur ∷ rest) × (ws' ≡ ws)
    go_wider lo wider (d, same) = (((lo, All-map rest (λ s p. le_trans (wider) p) d.0), d), same)

    go_on :
        widest.end ≤ cur.start
        → cur.end ≤ widest.end
        → IsDisjoint (widest ∷ rest) × (ws' ≡ ws)
        → IsDisjoint (widest ∷ cur ∷ rest) × (ws' ≡ ws)
    go_on lo le (d, same) = (((lo, d.0), (All-map rest (λ s p. le_trans le p) d.0, d.1)), same)

pub check_overlaps-IsDisjoint :
    (ws : List BuildWarning) (rs : List ObjectRange) {ws' : List BuildWarning}
    → check_overlaps true ws rs ≡ ok ws'
    → IsDisjoint rs × (ws' ≡ ws)
unfolding check_overlaps
check_overlaps-IsDisjoint ws [] h = (tt, cc)
check_overlaps-IsDisjoint ws (r ∷ rest) h = overlap_loop-IsDisjoint r ws rest h
