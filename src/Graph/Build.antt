-- ===== src/Graph/Build.antt =====
-- Build of internal/snapshotgraph/build.go: from the model of a dump to the resolved graph, its
-- roots and counters. The context is context.Background(), which is never cancelled.
pub mod Objects
pub mod Edges
pub mod Roots
pub mod Loaded
pub mod Sorted
pub mod Strict
pub mod Stamps
pub mod Edged
pub mod Laws
pub mod Resolve
use bubblepprof.Common.{
  ℕ, ◌+◌, ◌-◌, false, List, [], ◌∷◌, ◌++◌, Option, some, none, map, ltb, if◌then◌else◌, length,
  text, max_uint64,
}
use bubblepprof.Common.Result.{Result, ok, err, ◌>>=◌, ◌>>◌, fail_if}
use bubblepprof.Snapshot
use bubblepprof.Graph.{Graph, Object}
use bubblepprof.Graph.Types.{
  Options, Analysis, Stats, BuildError, BuildWarning, parse, nil_snapshot, total_bytes_overflow,
}
use Objects.{Loading, load_objects, sort_ranges, check_overlaps}
use Edges.{EdgeTable, edge_table, with_children, count_edges}
use Roots.{scan_goroutines, global_roots, segments_roots, finalizer_roots}

-- The sum of the object sizes, or none where it overflows uint64.
unfoldable pub total_bytes : ℕ → List Object → Option ℕ
total_bytes bytes [] = some bytes
total_bytes bytes (o ∷ os) =
    let rest = total_bytes (bytes + o.size) os in
    if ltb (max_uint64 - bytes) o.size then none else rest

abbrev pub loading_start : Snapshot.HeapSnapshot → Loading
loading_start snap = record {
  objects = [];
  by_addr = [];
  ranges = [];
  warnings = map parse snap.warnings;
  zero_addr_warned = false;
  zero_sized_warned = false;
}

-- The graph before its edges are there.
abbrev pub bare_graph : Loading → Graph
bare_graph st = record {
  objects = st.objects;
  by_addr = st.by_addr;
  references = [];
  ranges = sort_ranges st.ranges;
}

-- The graph with the edges, and with the references if they are kept.
unfoldable pub full_graph : Options → Graph → List Snapshot.Object → Graph
unfolding edge_table with_children
full_graph opts g srcs =
    let t = edge_table opts g srcs in
    record g { objects = with_children g.objects t.children; references = t.refs }

-- Everything behind the object loops: the edges, the roots and the counters. `bytes` is the total.
unfoldable pub assemble : Options → Graph → Snapshot.HeapSnapshot → List BuildWarning → ℕ → Analysis
unfolding full_graph edge_table count_edges
assemble opts g snap warnings bytes =
    let t = edge_table opts g snap.objects in
    let full = full_graph opts g snap.objects in
    let gs =
      scan_goroutines opts full
        (record { goroutines = []; unresolved = 0; system = 0; root_pointers = 0 })
        snap.goroutines in
    let globals =
      global_roots full (record { roots = []; seen = []; unresolved = 0 }) snap.globals in
    let globals = segments_roots full globals snap.segments (text "data") snap.params.ptr_size in
    let globals = segments_roots full globals snap.bss (text "bss") snap.params.ptr_size in
    let fins =
      finalizer_roots full (record { roots = globals.roots; unresolved = 0 }) snap.finalizers
        (text "finalizer") in
    let fins = finalizer_roots full fins snap.queued_finalizers (text "queued_finalizer") in
    record {
      graph = some full;
      goroutines = gs.goroutines;
      globals = record { roots = fins.roots; reachable = [] };
      warnings = warnings;
      stats = record {
        objects = length full.objects;
        object_bytes = bytes;
        edges = count_edges full.objects;
        raw_object_pointers = t.raw;
        zero_object_pointers = t.zeros;
        resolved_object_pointers = t.resolved;
        unresolved_pointers = t.unresolved + gs.unresolved + globals.unresolved + fins.unresolved;
        unresolved_object_pointers = t.unresolved;
        unresolved_goroutine_roots = gs.unresolved;
        unresolved_global_roots = globals.unresolved;
        unresolved_finalizer_roots = fins.unresolved;
        goroutines = length gs.goroutines;
        system_goroutines = gs.system;
        goroutine_root_pointers = gs.root_pointers;
        global_roots = length fins.roots;
        goroutine_reachable_objects = 0;
        global_reachable_objects = 0;
        unreachable_objects = 0;
        shared_by_goroutines_objects = 0;
      };
    }

-- The last check and the result.
unfoldable pub finish :
    Options
    → Graph
    → Snapshot.HeapSnapshot
    → List BuildWarning
    → Option ℕ
    → Result BuildError Analysis
unfolding assemble
finish opts g snap warnings none = err total_bytes_overflow
finish opts g snap warnings (some bytes) = ok (assemble opts g snap warnings bytes)

-- Build. The overflow check of the byte total stands last in the source; nothing before it fails.
unfoldable pub build : Option Snapshot.HeapSnapshot → Options → Result BuildError Analysis
unfolding finish
build none opts = err nil_snapshot
build (some snap) opts = do
  st ← load_objects opts (loading_start snap) snap.objects
  warnings ← check_overlaps opts.strict st.warnings (sort_ranges st.ranges)
  finish opts (bare_graph st) snap warnings
      (total_bytes 0 (full_graph opts (bare_graph st) snap.objects).objects)
