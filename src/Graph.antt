-- ===== src/Graph.antt =====
-- internal/snapshotgraph/graph.go: the resolved object graph, and how a pointer value is resolved.
-- An ObjectID is the object's index in `objects`. A nil *Graph is `none`.
pub mod Search
pub mod Reach
pub mod Offer
pub mod Find
pub mod Correct
pub mod Types
pub mod Build
use bubblepprof.Common.{
  ℕ, ◌-◌, Bool, List, ◌∷◌, Option, none, some, Text, ltb, ◌==◌, if◌then◌else◌, length, get_elem?,
  lookup,
}
use Search.{search}

pub record Object : Type 0 where
  pub id : ℕ
  pub addr : ℕ
  pub size : ℕ
  pub children : List ℕ

pub record ObjectRange : Type 0 where
  pub start : ℕ
  pub end : ℕ
  pub id : ℕ

pub record Reference : Type 0 where
  pub target : ℕ
  pub pointer : ℕ
  pub offset : ℕ
  pub offset_known : Bool

pub record FrameInfo : Type 0 where
  pub sp : ℕ
  pub depth : ℕ
  pub entry_pc : ℕ
  pub current_pc : ℕ
  pub continue_pc : ℕ

pub record Graph : Type 0 where
  pub objects : List Object
  pub by_addr : List (ℕ × ℕ)
  pub references : List (List Reference)
  pub ranges : List ObjectRange

pub record RootRef : Type 0 where
  pub object_id : ℕ
  pub ptr : ℕ
  pub slot_addr : ℕ
  pub kind : Text
  pub detail : Text
  pub frame : Option FrameInfo

-- (*Graph).validID
abbrev pub valid_id : Graph → ℕ → Bool
valid_id g id = ltb id (length g.objects)

-- `g.ranges[i].Start > ptr`
abbrev pub starts_after : List ObjectRange → ℕ → ℕ → Bool
starts_after ranges ptr i = elim (get_elem? ranges i) [
  | none ↦ Bool.false
  | some r ↦ ltb ptr r.start
]

-- The range before the first one that starts after the pointer.
unfoldable pub range_before : List ObjectRange → ℕ → Option ObjectRange
range_before ranges ptr =
    let idx = search (length ranges) (starts_after ranges ptr) in
    if idx == 0 then none else get_elem? ranges (idx - 1)

-- (*Graph).FindObjectContaining
unfoldable pub find_object_containing : Option Graph → ℕ → Option ℕ
unfolding range_before
find_object_containing none ptr = none
find_object_containing (some g) ptr = if ptr == 0 then none else elim (lookup ptr g.by_addr) [
  | some id ↦ some id
  | none ↦ elim (range_before g.ranges ptr) [
    | none ↦ none
    | some r ↦ if ltb ptr r.end then some r.id else none
  ]
]
