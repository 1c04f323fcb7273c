-- ===== src/Usage/Sets.antt =====
-- Object sets in internal/memusage/compute.go: their byte totals and intersections.
use bubblepprof.Common.{
  ℕ, List, [], ◌∷◌, ◌++◌, Option, some, none, ltb, ◌==◌, ◌||◌, if◌then◌else◌, length, get_elem?,
  elem, add_u64,
}
use bubblepprof.Graph.{Graph, RootRef}
use bubblepprof.Graph.Types.{GoroutineReachability}
use bubblepprof.Graph.Reach.{reachable_from}

-- `g.Objects[id].Size`, and 0 for an id that is out of range, which the loops skip.
unfoldable pub size_at : Graph → ℕ → ℕ
size_at g id = elim (get_elem? g.objects id) [ none ↦ 0 | some o ↦ o.size ]

-- ObjectSetBytes
unfoldable pub object_set_bytes : Option Graph → List ℕ → ℕ
unfolding size_at
object_set_bytes none ids = 0
object_set_bytes (some g) [] = 0
object_set_bytes (some g) (id ∷ ids) = add_u64 (size_at g id) (object_set_bytes (some g) ids)

-- The members of `a` that are in `b`: the rounds of the loop that count.
unfoldable pub common : List ℕ → List ℕ → List ℕ
common [] b = []
common (id ∷ a) b = if elem id b then id ∷ common a b else common a b

-- IntersectCountBytes. The loop runs over the smaller set.
unfoldable pub intersect_count_bytes : Option Graph → List ℕ → List ℕ → ℕ × ℕ
unfolding common object_set_bytes
intersect_count_bytes none a b = (0, 0)
intersect_count_bytes (some g) a b =
    let small = if ltb (length b) (length a) then common b a else common a b in
    if length a == 0 || length b == 0
    then (0, 0)
    else (length small, object_set_bytes (some g) small)

-- `roots = append(roots, gr.Roots...)` over all goroutines.
unfoldable pub all_roots : List GoroutineReachability → List RootRef
all_roots [] = []
all_roots (gr ∷ rest) = gr.roots ++ all_roots rest

-- reachableFromGoroutines
unfoldable pub reachable_from_goroutines : Option Graph → List GoroutineReachability → List ℕ
unfolding all_roots
reachable_from_goroutines none grs = []
reachable_from_goroutines (some g) grs =
    if length grs == 0
    then []
    else if length (all_roots grs) == 0
    then []
    else reachable_from (some g) (all_roots grs)
