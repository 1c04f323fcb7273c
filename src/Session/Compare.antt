-- ===== src/Session/Compare.antt =====
-- Compare and Shared (internal/memusage/multibubble.go).
use bubblepprof.Common.{
  ℕ, List, Option, some, none, Bool, ltb, ◌==◌, ◌&&◌, if◌then◌else◌, length, get_elem?, take, map,
  sort_by, ℤ, is_negative, pos_part,
}
use bubblepprof.Common.Result.{Result, ok, err, ◌>>=◌, ◌>>◌, fail_if}
use bubblepprof.Graph.{Graph}
use bubblepprof.Graph.Types.{Analysis}
use bubblepprof.Graph.Reach.{children}
use bubblepprof.Usage.Request.{Labels, Request}
use bubblepprof.Usage.Sets.{size_at, common}
use bubblepprof.Session.State.{
  Session, SessionError, Measure, panic, bad_limit, ready, selected, walk, measure,
}
use bubblepprof.Session.Sets.{intersection, difference, union}

pub record Comparison : Type 0 where
  pub a : Labels
  pub b : Labels
  pub a_goroutines : ℕ
  pub b_goroutines : ℕ
  pub overlapping_goroutines : List ℕ
  pub a_only : Measure
  pub b_only : Measure
  pub shared : Measure
  pub union : Measure

-- The part of `compare` behind the walks: the four measures.
pub record Parts : Type 0 where
  pub a_only : Measure
  pub b_only : Measure
  pub shared : Measure
  pub union : Measure

unfoldable pub measure_parts : Option Graph → List ℕ → List ℕ → Result SessionError Parts
measure_parts g left right = do
  a_only ← measure g (difference left right)
  b_only ← measure g (difference right left)
  shared ← measure g (intersection left right)
  union ← measure g (union left right)
  ok (record { a_only = a_only; b_only = b_only; shared = shared; union = union })

-- `compare`: the comparison and the shared set.
unfoldable pub compare_sets :
    Session → Analysis → Request → Request → Result SessionError (Comparison × List ℕ)
unfolding measure_parts
compare_sets s analysis x y = do
  chosen_a ← selected s x analysis
  chosen_b ← selected s y analysis
  left ← walk analysis.graph chosen_a.roots
  right ← walk analysis.graph chosen_b.roots
  parts ← measure_parts analysis.graph left right
  ok (
    record {
      a = x.labels;
      b = y.labels;
      a_goroutines = length chosen_a.gids;
      b_goroutines = length chosen_b.gids;
      overlapping_goroutines = sort_by ltb (common chosen_a.gids chosen_b.gids);
      a_only = parts.a_only;
      b_only = parts.b_only;
      shared = parts.shared;
      union = parts.union;
    },
    intersection left right,
  )

-- Compare
unfoldable pub compare_requests : Session → Request → Request → Result SessionError Comparison
unfolding compare_sets
compare_requests s x y = do analysis ← ready s; (out, _) ← compare_sets s analysis x y; ok out

-- `address` is printed in base 16.
pub record SharedObject : Type 0 where
  pub id : ℕ
  pub address : ℕ
  pub size : ℕ
  pub outgoing_references : ℕ

pub record SharedResult : Type 0 where
  pub comparison : Comparison
  pub objects : List SharedObject
  pub truncated : Bool

-- `objects[id].Addr`; the ids of a set are in range.
unfoldable pub addr_at : Graph → ℕ → ℕ
addr_at g id = elim (get_elem? g.objects id) [ none ↦ 0 | some o ↦ o.addr ]

-- The comparison of the sort: by descending size, then by address, then by id.
unfoldable pub larger_first : Graph → ℕ → ℕ → Bool
larger_first g i j =
    if size_at g i == size_at g j
    then (if addr_at g i == addr_at g j then ltb i j else ltb (addr_at g i) (addr_at g j))
    else ltb (size_at g j) (size_at g i)

unfoldable pub shared_object : Graph → ℕ → SharedObject
shared_object g id = record {
  id = id;
  address = addr_at g id;
  size = size_at g id;
  outgoing_references = length (children g id);
}

-- `limit > 0 && len(ids) > limit`
abbrev pub is_cut {ℓ} : {A : Type ℓ} → ℤ → List A → Bool
is_cut limit ids = ltb 0 (pos_part limit) && ltb (pos_part limit) (length ids)

-- `ids[:limit]` under that test.
abbrev pub cut_to {ℓ} : {A : Type ℓ} → ℤ → List A → List A
cut_to limit ids = if is_cut limit ids then take (pos_part limit) ids else ids

-- `s.analysis.Graph.Objects` of a nil graph.
abbrev pub non_nil : Option Graph → Result SessionError Graph
non_nil none = err panic
non_nil (some g) = ok g

-- Shared
unfoldable pub shared_objects : Session → Request → Request → ℤ → Result SessionError SharedResult
unfolding compare_sets larger_first shared_object
shared_objects s x y limit = do
  fail_if (is_negative limit) bad_limit
  analysis ← ready s
  (comparison, set) ← compare_sets s analysis x y
  g ← non_nil analysis.graph
  let ids = sort_by (larger_first g) set
  ok (record {
    comparison = comparison;
    objects = map (shared_object g) (cut_to limit ids);
    truncated = is_cut limit ids;
  })
