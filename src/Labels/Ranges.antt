-- ===== src/Labels/Ranges.antt =====
-- What Read gives of the objects behind a Memory (internal/heaplabels/memory.go).
use bubblepprof.Common.{
  ℕ, zero, suc, ◌+◌, ◌-◌, ◌<◌, ◌≤◌, ◌≡◌, refl, ap, ◌∙◌, true, false, List, [], ◌∷◌, some, ◌==◌,
  length, get_elem?, take, drop, length-take, length-drop, IsU64, arith, All, All-map,
  All-get_elem?, All-sort_by, Option-cases, inl, inr, Bool-cases, sort_by, IsOrdered, IsStrict,
  sort_by-IsOrdered, IsOrdered-get_elem?, get_elem?-some,
}
use mathlib.Core.Path.{subst}
use bubblepprof.Graph.Search.{search, search-IsBoundary}
use bubblepprof.Snapshot.{Object}
use bubblepprof.Space.{IsReader, checked_add, checked_add_lem, checked_add_wraps}
use bubblepprof.Labels.Memory.{
  Range, range_precedes, object_ranges, new_memory, begins_after, last_range, read_range,
  read_memory,
}

-- A range holds the contents of an object, which end within the address space.
abbrev pub HoldsObject : List Object → Range → Type 0
HoldsObject objects r =
    (i : ℕ) × (o : Object) × (get_elem? objects i ≡ some o)
    × (r.start ≡ o.addr)
    × (r.bytes ≡ o.contents)
    × (r.end ≡ o.addr + length o.contents)

-- The dump's addresses and lengths are machine words.
abbrev pub IsMapped : Object → Type 0
IsMapped o = IsU64 o.addr × IsU64 (length o.contents)

HoldsObject-cons :
    (o : Object) (os : List Object) (r : Range) → HoldsObject os r → HoldsObject (o ∷ os) r
HoldsObject-cons o os r (i, p, found, start, bytes, end) = (suc i, p, found, start, bytes, end)

object_ranges-HoldsObject :
    (objects : List Object)
    → All IsMapped objects
    → All (HoldsObject objects) (object_ranges objects)
unfolding object_ranges
object_ranges-HoldsObject [] h = tt
object_ranges-HoldsObject (o ∷ os) h =
    let later : All (HoldsObject (o ∷ os)) (object_ranges os) =
      All-map (object_ranges os) (HoldsObject-cons o os) (object_ranges-HoldsObject os h.1) in
    elim (Bool-cases (length o.contents == 0)) [
      | inl e ↦ rw (e, object_ranges) later
      | inr e ↦ elim (Option-cases (checked_add o.addr (length o.contents))) [
        | inl over ↦ rw (e, over, object_ranges) later
        | inr (end, fits) ↦
            rw (e, fits, object_ranges)
              (
                (
                  zero,
                  o,
                  refl,
                  refl,
                  refl,
                  ground (arith, checked_add_lem o.addr (length o.contents) h.0.0 h.0.1),
                ),
                later,
              )
      ]
    ]

range_precedes-IsStrict : IsStrict range_precedes
unfolding range_precedes
range_precedes-IsStrict = record {
  asym = λ a b h. ground arith;
  trans_not = λ a b c h k. ground arith;
}

range_precedes-start : (a b : Range) → range_precedes b a ≡ false → a.start ≤ b.start
unfolding range_precedes
range_precedes-start a b h = ground arith

begins_after_mono :
    (ranges : List Range) (addr : ℕ)
    → IsOrdered range_precedes ranges
    → (i j : ℕ) → i ≤ j
    → j < length ranges
    → begins_after ranges addr i ≡ true
    → begins_after ranges addr j ≡ true
begins_after_mono ranges addr ordered i j le below h = elim (Bool-cases (i == j)) [
  | inl e ↦ let same : i ≡ j = ground arith in subst (λ k. begins_after ranges addr k ≡ true) same h
  | inr e ↦
      let (a, ea) = get_elem?-some ranges i (omega arith) in
      let (b, eb) = get_elem?-some ranges j below in
      let order =
        range_precedes-start a b
          (IsOrdered-get_elem? range_precedes ranges i j ordered (ground arith) ea eb) in
      ground (arith, ea, eb, order)
]

-- The range that Read looks at begins at or before the address.
last_range_lem :
    (ranges : List Range) (addr : ℕ) (r : Range)
    → IsOrdered range_precedes ranges
    → last_range ranges addr ≡ some r
    → (i : ℕ) × (get_elem? ranges i ≡ some r) × (r.start ≤ addr)
unfolding last_range
last_range_lem ranges addr r ordered h =
    let idx = search (length ranges) (begins_after ranges addr) in
    let bound =
      search-IsBoundary (length ranges) (begins_after ranges addr)
        (begins_after_mono ranges addr ordered) in
    elim (Bool-cases (idx == 0)) [
      | inl e ↦ absurd (ground (arith, e))
      | inr e ↦
          let found : get_elem? ranges (idx - 1) ≡ some r = ground (arith, e) in
          (idx - 1, found, ground (arith, found, bound.before (idx - 1) (ground arith)))
    ]

-- A read that succeeds gives bytes of one object, from the address asked for and as many as asked
-- for: it never crosses into another object.
pub read_memory_sound :
    (objects : List Object) (addr size : ℕ) (bytes : List ℕ)
    → All IsMapped objects
    → IsU64 addr
    → IsU64 size
    → 0 < size
    → read_memory (new_memory objects) addr size ≡ some bytes
    → (i : ℕ) × (o : Object) × (get_elem? objects i ≡ some o)
      × (o.addr ≤ addr)
      × (addr + size ≤ o.addr + length o.contents)
      × (bytes ≡ take size (drop (addr - o.addr) o.contents))
unfolding read_memory new_memory read_range
read_memory_sound objects addr size bytes mapped a z pos h =
    let ranges = sort_by range_precedes (object_ranges objects) in
    let ordered =
      sort_by-IsOrdered range_precedes range_precedes-IsStrict (object_ranges objects) in
    let holding =
      All-sort_by range_precedes (HoldsObject objects) (object_ranges objects)
        (object_ranges-HoldsObject objects mapped) in
    elim (Option-cases (checked_add addr size)) [
      | inl over ↦ absurd (ground (arith, over))
      | inr (end, fits) ↦ elim (Option-cases (last_range ranges addr)) [
        | inl nowhere ↦ absurd (ground (arith, fits, nowhere))
        | inr (r, last) ↦
            let (k, found, begins) = last_range_lem ranges addr r ordered last in
            let (i, o, at_i, start, contents, ends) =
              All-get_elem? (HoldsObject objects) ranges k holding found in
            let sum = checked_add_lem addr size a z in
            let inside : addr + size ≤ r.end = ground (arith, fits, last, sum) in
            let value : bytes ≡ take size (drop (addr - r.start) r.bytes) =
              ground (arith, fits, last) in
            (
              i,
              o,
              at_i,
              omega (arith, start),
              omega (arith, ends),
              value
                  ∙ ap (λ (n : ℕ). take size (drop (addr - n) r.bytes)) start
                  ∙ ap (λ (bs : List ℕ). take size (drop (addr - o.addr) bs)) contents,
            )
      ]
    ]

-- The memory of a dump keeps the contract of an address-space reader.
pub new_memory-IsReader :
    (objects : List Object) → All IsMapped objects → IsReader (read_memory (new_memory objects))
new_memory-IsReader objects mapped = record {
  empty = λ addr. unfold read_memory new_memory in refl;
  null = λ size pos. unfold read_memory new_memory in ground arith;
  overflowing = λ addr size a z pos over.
      unfold read_memory new_memory in ground (arith, checked_add_wraps addr size a z over);
  whole = λ addr size bytes a z h. elim (Bool-cases (size == 0)) [
    | inl none_asked ↦ unfold read_memory new_memory in ground arith
    | inr asked ↦
        let (i, o, at_i, begins, ends, value) =
          read_memory_sound objects addr size bytes mapped a z (ground arith) h in
        let rest = length-drop (addr - o.addr) o.contents (omega arith) in
        ap length value ∙ length-take size (drop (addr - o.addr) o.contents) (omega arith)
  ];
}
