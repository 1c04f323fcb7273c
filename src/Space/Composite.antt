-- ===== src/Space/Composite.antt =====
-- internal/addrspace/composite.go: readers tried in order.
use bubblepprof.Common.{
  ℕ, ◌≡◌, refl, List, [], ◌∷◌, Option, some, none, ◌==◌, if◌then◌else◌, length, IsU64, arith, All,
  Option-cases, inl, inr, Bool-cases,
}
use bubblepprof.Space.{Reader, IsReader, checked_add, checked_add_wraps}

-- The loop over the readers. A nil reader is skipped, as is one that reads nothing.
unfoldable pub first_read : List Reader → ℕ → ℕ → Option (List ℕ)
first_read [] addr size = none
first_read (r ∷ rs) addr size =
    let rest = first_read rs addr size in elim (r addr size) [ some b ↦ some b | none ↦ rest ]

-- (Composite).ReadAtAddr
unfoldable pub read_composite : List Reader → Reader
unfolding first_read
read_composite readers addr size =
    if size == 0
    then some []
    else if addr == 0
    then none
    else elim (checked_add addr size) [ none ↦ none | some end ↦ first_read readers addr size ]

first_read-length :
    (readers : List Reader) (addr size : ℕ) (bytes : List ℕ)
    → All IsReader readers
    → IsU64 addr
    → IsU64 size
    → first_read readers addr size ≡ some bytes
    → length bytes ≡ size
unfolding first_read
first_read-length [] addr size bytes h a z e = cc
first_read-length (r ∷ rs) addr size bytes h a z e = elim (Option-cases (r addr size)) [
  | inl missed ↦ first_read-length rs addr size bytes h.1 a z (rw (missed, first_read) at e)
  | inr (b, hit) ↦
      let same : b ≡ bytes = ground (arith, hit) in
      h.0.whole addr size bytes a z (ground (arith, hit, same))
]

-- The composite of readers that keep the interface's contract keeps it too.
pub read_composite-IsReader :
    (readers : List Reader) → All IsReader readers → IsReader (read_composite readers)
unfolding read_composite
read_composite-IsReader readers h = record {
  empty = λ addr. refl;
  null = λ size pos. ground arith;
  overflowing = λ addr size a z pos over. ground (arith, checked_add_wraps addr size a z over);
  whole = λ addr size bytes a z e. elim (Bool-cases (size == 0)) [
    | inl none_asked ↦ ground arith
    | inr asked ↦ elim (Bool-cases (addr == 0)) [
      | inl bad ↦ ground arith
      | inr good ↦ elim (Option-cases (checked_add addr size)) [
        | inl over ↦ ground (arith, over)
        | inr (end, fits) ↦ first_read-length readers addr size bytes h a z (ground (arith, fits))
      ]
    ]
  ];
}
