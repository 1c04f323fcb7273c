-- ===== src/Graph/Build/Laws.antt =====
-- What Build (build.go) promises of the graph and of its counters.
use bubblepprof.Common.{
  ℕ, suc, ◌+◌, ◌^◌, ◌≤◌, ◌<◌, ◌≡◌, refl, sym, ap, ◌∙◌, ◌↔◌, true, List, [], ◌∷◌, some, arith,
  length, lt-length_of_get_elem?, get_elem?, elem, IsDistinct, max_uint64,
}
use bubblepprof.Common.Result.{ok}
use bubblepprof.Snapshot
use mathlib.Core.Path.{subst}
use bubblepprof.Graph.{Graph, Object, find_object_containing}
use bubblepprof.Graph.Types.{Options, Analysis}
use bubblepprof.Graph.Build.{bare_graph, full_graph, total_bytes, assemble, build}
use bubblepprof.Graph.Build.Edged.{edge_table_at, edge_table_counts, count_pointers}
use bubblepprof.Graph.Build.Stamps.{PointsTo}
use bubblepprof.Graph.Build.Loaded.{bare_objects}
use bubblepprof.Graph.Build.Resolve.{
  build-eq-ok, built_graph, graph-eq, find-bare, find_sound_bare, with_children-children,
  bare_objects-eq, length-with_children,
}

-- Below 2 ^ 32 objects, the children of the object at index `i` of a graph that Build made are the
-- objects to which the nonzero pointers of the dump's object at `i` resolve, each once.
pub edges_exact :
    (snap : Snapshot.HeapSnapshot) (opts : Options) (a : Analysis) (g : Graph) (i : ℕ)
    (src : Snapshot.Object) (o : Object)
    → build (some snap) opts ≡ ok a
    → a.graph ≡ some g
    → length snap.objects < 2 ^ 32
    → get_elem? snap.objects i ≡ some src
    → get_elem? g.objects i ≡ some o
    → IsDistinct o.children
      × ((t : ℕ) → (elem t o.children ≡ true) ↔ PointsTo g src.pointer_addrs t)
unfolding full_graph
edges_exact snap opts a g i src o h is_graph few at at' =
    let b = build-eq-ok snap opts a h in
    let e : g ≡ built_graph snap opts a b = ground (arith, graph-eq snap opts a b) in
    let valid =
      λ (ptr t : ℕ) (found : find_object_containing (some (bare_graph b.st)) ptr ≡ some t).
        (let (x, place, _) = find_sound_bare snap opts a b ptr t found in
          lt-length_of_get_elem? b.st.objects t place) in
    let (cs, found, list) = edge_table_at opts (bare_graph b.st) snap.objects i valid few at in
    let same =
      with_children-children b.st.objects _ i found
        (subst (λ x. get_elem? x.objects i ≡ some o) e at') in
    rw (same, e)
      (
        list.distinct,
        λ t. (
          λ m.
              (let (p, member, nz, hit) = (list.exact t).0 m in
                (p, member, nz, find-bare snap opts a b p ∙ hit)),
          λ (p, member, nz, hit).
              (list.exact t).1 (p, member, nz, sym (find-bare snap opts a b p) ∙ hit),
        ),
      )

-- The pointer counters of a successful Build: every pointer slot of the dump is counted once, as
-- zero, as resolved or as unresolved; the unresolved values add up; and the graph has one object
-- for each object of the dump.
pub build_accounts :
    (snap : Snapshot.HeapSnapshot) (opts : Options) (a : Analysis)
    → build (some snap) opts ≡ ok a
    → (a.stats.raw_object_pointers ≡ count_pointers snap.objects)
      × (a.stats.raw_object_pointers
          ≡ a.stats.zero_object_pointers + a.stats.resolved_object_pointers
            + a.stats.unresolved_object_pointers)
      × (a.stats.unresolved_pointers
          ≡ a.stats.unresolved_object_pointers + a.stats.unresolved_goroutine_roots
            + a.stats.unresolved_global_roots + a.stats.unresolved_finalizer_roots)
      × (a.stats.objects ≡ length snap.objects)
unfolding assemble full_graph
build_accounts snap opts a h =
    let b = build-eq-ok snap opts a h in
    let (balanced, raw) = edge_table_counts opts (bare_graph b.st) snap.objects in
    rw b.result (
      raw,
      balanced,
      refl,
      length-with_children b.st.objects _
          ∙ ap length (bare_objects-eq snap opts a b)
          ∙ numbered 0 snap.objects,
    )
  where
    numbered : (i : ℕ) (srcs : List Snapshot.Object) → length (bare_objects i srcs) ≡ length srcs
    numbered i [] = refl
    numbered i (x ∷ rest) = ap suc (numbered (i + 1) rest)

-- The sum of the sizes.
abbrev pub sum_sizes : List Object → ℕ
sum_sizes [] = 0
sum_sizes (o ∷ os) = o.size + sum_sizes os

total_bytes-sum :
    (bytes : ℕ) (os : List Object) (total : ℕ)
    → bytes ≤ max_uint64
    → total_bytes bytes os ≡ some total
    → (total ≡ bytes + sum_sizes os) × (total ≤ max_uint64)
unfolding total_bytes
total_bytes-sum bytes [] total h e = ground arith
total_bytes-sum bytes (o ∷ os) total h e = ground (arith, total_bytes-sum (bytes + o.size) os total)

-- ObjectBytes of a successful Build is the exact sum of the sizes of the graph's objects, and it
-- fits uint64.
pub object_bytes_exact :
    (snap : Snapshot.HeapSnapshot) (opts : Options) (a : Analysis) (g : Graph)
    → build (some snap) opts ≡ ok a
    → a.graph ≡ some g
    → (a.stats.object_bytes ≡ sum_sizes g.objects) × (a.stats.object_bytes ≤ max_uint64)
unfolding assemble
object_bytes_exact snap opts a g h is_graph =
    let b = build-eq-ok snap opts a h in
    let e : g ≡ built_graph snap opts a b = ground (arith, graph-eq snap opts a b) in
    let (total, fits) =
      total_bytes-sum 0 (built_graph snap opts a b).objects b.bytes (omega arith) b.total in
    rw (b.result, e) (omega arith, fits)
