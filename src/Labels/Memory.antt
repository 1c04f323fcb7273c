-- ===== src/Labels/Memory.antt =====
-- internal/heaplabels/memory.go: the contents of the dump's objects as an address space.
use bubblepprof.Common.{
  ℕ, ◌-◌, Bool, false, List, [], ◌∷◌, Option, some, none, ltb, ◌==◌, if◌then◌else◌, length,
  get_elem?, take, drop, sort_by,
}
use bubblepprof.Graph.Search.{search}
use bubblepprof.Snapshot.{Object}
use bubblepprof.Space.{Reader, checked_add}

-- The kind of a range only names it, and is left out.
pub record Range : Type 0 where
  pub start : ℕ
  pub end : ℕ
  pub bytes : List ℕ

-- Memory, in its two modes. NewMemoryFromReader of a nil reader is an eager memory with no ranges.
pub data Memory : Type 0 where
  eager : List Range → Memory
  lazy : Reader → Memory

-- The order of the ranges.
unfoldable pub range_precedes : Range → Range → Bool
range_precedes a b = if a.start == b.start then ltb a.end b.end else ltb a.start b.start

-- The loop of NewMemory.
unfoldable pub object_ranges : List Object → List Range
object_ranges [] = []
object_ranges (o ∷ os) =
    if length o.contents == 0
    then object_ranges os
    else elim (checked_add o.addr (length o.contents)) [
      | none ↦ object_ranges os
      | some end ↦ record { start = o.addr; end = end; bytes = o.contents } ∷ object_ranges os
    ]

-- NewMemory
unfoldable pub new_memory : List Object → Memory
unfolding object_ranges range_precedes
new_memory objects = eager (sort_by range_precedes (object_ranges objects))

-- `m.ranges[i].Start > addr`
abbrev pub begins_after : List Range → ℕ → ℕ → Bool
begins_after ranges addr i = elim (get_elem? ranges i) [ none ↦ false | some r ↦ ltb addr r.start ]

-- The last range that begins at or before the address.
unfoldable pub last_range : List Range → ℕ → Option Range
last_range ranges addr =
    let idx = search (length ranges) (begins_after ranges addr) in
    if idx == 0 then none else get_elem? ranges (idx - 1)

-- The bytes of a range that hold the whole read.
unfoldable pub read_range : Range → ℕ → ℕ → ℕ → Option (List ℕ)
read_range r addr size end =
    if ltb r.end end then none else some (take size (drop (addr - r.start) r.bytes))

-- (*Memory).Read
unfoldable pub read_memory : Memory → Reader
unfolding last_range read_range
read_memory (lazy r) addr size = if size == 0 then some [] else r addr size
read_memory (eager ranges) addr size =
    if size == 0 then some [] else if addr == 0 then none else elim (checked_add addr size) [
      | none ↦ none
      | some end ↦ elim (last_range ranges addr) [
        | none ↦ none
        | some r ↦ read_range r addr size end
      ]
    ]
