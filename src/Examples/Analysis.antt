-- ===== src/Examples/Analysis.antt =====
-- Build (internal/snapshotgraph) on that dump, and the searches on its graph.
use bubblepprof.Common.{
  ℕ, ◌+◌, ◌≤◌, ◌<◌, ◌≡◌, refl, true, false, [], ◌∷◌, some, none, length, arith, elem, get_elem?,
  ◌↔◌, ◌⊎◌, text, lookup, assign, IsDistinct, max_uint64,
}
use bubblepprof.Common.Result.{ok}
use bubblepprof.Examples.Dump.{snapshot}
use bubblepprof.Graph.{Graph, Object, RootRef, find_object_containing}
use bubblepprof.Graph.Build.{build, total_bytes}
use bubblepprof.Graph.Build.Edged.{count_pointers}
use bubblepprof.Graph.Build.Edges.{scan_objects, scan_object, scan_pointers, scan_pointer}
use bubblepprof.Graph.Build.Laws.{edges_exact, build_accounts, object_bytes_exact, sum_sizes}
use bubblepprof.Graph.Build.Objects.{load_objects, load_object, check_overlaps, sort_ranges}
use bubblepprof.Graph.Build.Roots.{scan_goroutines, global_roots, segments_roots, finalizer_roots}
use bubblepprof.Graph.Build.Resolve.{resolve_sound, resolve_complete}
use bubblepprof.Graph.Build.Stamps.{PointsTo}
use bubblepprof.Graph.Correct.{Reachable, reachable_from_correct, search_from_ends}
use bubblepprof.Graph.Reach.{reachable_from, search_from}
use bubblepprof.Graph.Search.{search}
use bubblepprof.Graph.Types.{Analysis, Options}
use bubblepprof.Snapshot

abbrev pub graph_options : Options
graph_options = record { strict = true; keep_provenance = false }

-- The cycle of the first two objects, and the third.
abbrev pub graph : Graph
graph = record {
  objects =
      record { id = 0; addr = 16; size = 16; children = 1 ∷ [] }
      ∷ record { id = 1; addr = 64; size = 8; children = 0 ∷ [] }
      ∷ record { id = 2; addr = 96; size = 8; children = [] }
      ∷ [];
  by_addr = (16, 0) ∷ (64, 1) ∷ (96, 2) ∷ [];
  references = [];
  ranges =
      record { start = 16; end = 32; id = 0 }
      ∷ record { start = 64; end = 72; id = 1 }
      ∷ record { start = 96; end = 104; id = 2 }
      ∷ [];
}

abbrev pub stack_root : RootRef
stack_root = record {
  object_id = 0;
  ptr = 24;
  slot_addr = 100;
  kind = text "stack";
  detail = [];
  frame = none;
}

abbrev pub global_root : RootRef
global_root = record {
  object_id = 1;
  ptr = 64;
  slot_addr = 0;
  kind = text "otherroot";
  detail = [];
  frame = none;
}

abbrev pub analysis : Analysis
analysis = record {
  graph = some graph;
  goroutines =
      record {
        goroutine_id = 7;
        is_system = false;
        is_background = false;
        roots = stack_root ∷ [];
        reachable = [];
      }
      ∷ [];
  globals = record { roots = global_root ∷ []; reachable = [] };
  warnings = [];
  stats = record {
    objects = 3;
    object_bytes = 32;
    edges = 2;
    raw_object_pointers = 2;
    zero_object_pointers = 0;
    resolved_object_pointers = 2;
    unresolved_pointers = 0;
    unresolved_object_pointers = 0;
    unresolved_goroutine_roots = 0;
    unresolved_global_roots = 0;
    unresolved_finalizer_roots = 0;
    goroutines = 1;
    system_goroutines = 0;
    goroutine_root_pointers = 1;
    global_roots = 1;
    goroutine_reachable_objects = 0;
    global_reachable_objects = 0;
    unreachable_objects = 0;
    shared_by_goroutines_objects = 0;
  };
}

build_dump : build (some snapshot) graph_options ≡ ok analysis
unfolding build load_objects load_object lookup assign check_overlaps sort_ranges total_bytes
    scan_objects scan_object scan_pointers scan_pointer find_object_containing search
    scan_goroutines global_roots segments_roots finalizer_roots
build_dump = refl

interior : find_object_containing (some graph) 18 ≡ some 0
unfolding find_object_containing search lookup
interior = refl

abbrev second_object : Snapshot.Object
second_object = record {
  addr = 64;
  size = 8;
  contents = [];
  fields = record { kind = 1; offset = 0 } ∷ [];
  pointer_addrs = 18 ∷ [];
  pointer_offsets = 0 ∷ [];
}

reachable_from_correct_example :
    (elem 0 (reachable_from (some graph) (global_root ∷ [])) ≡ true) ↔ Reachable graph (1 ∷ []) 0
reachable_from_correct_example = reachable_from_correct graph (global_root ∷ []) 0

search_from_ends_example : (search_from graph (1 ∷ [])).pending ≡ []
search_from_ends_example = search_from_ends graph (1 ∷ [])

resolve_sound_example :
    (o : Object) × (get_elem? graph.objects 0 ≡ some o)
    × ((o.addr ≡ 18) ⊎ ((o.addr ≤ 18) × (18 < o.addr + o.size)))
resolve_sound_example =
    resolve_sound snapshot graph_options analysis graph 18 0 build_dump refl interior

resolve_complete_example :
    (id : ℕ) × (find_object_containing (some graph) 66 ≡ some id)
    × ((id ≡ 1) ⊎ ((o : Object) × (get_elem? graph.objects id ≡ some o) × (o.addr ≡ 66)))
resolve_complete_example =
    resolve_complete snapshot graph_options analysis graph 1 66 second_object build_dump refl refl
      refl (omega arith) (omega arith) (omega arith) (omega arith) (omega arith) (omega arith)

edges_exact_example :
    IsDistinct (0 ∷ []) × ((t : ℕ) → (elem t (0 ∷ []) ≡ true) ↔ PointsTo graph (18 ∷ []) t)
edges_exact_example =
    edges_exact snapshot graph_options analysis graph 1 second_object
      (record { id = 1; addr = 64; size = 8; children = 0 ∷ [] }) build_dump refl (omega arith) refl
      refl

build_accounts_example :
    (analysis.stats.raw_object_pointers ≡ count_pointers snapshot.objects)
    × (analysis.stats.raw_object_pointers
        ≡ analysis.stats.zero_object_pointers + analysis.stats.resolved_object_pointers
          + analysis.stats.unresolved_object_pointers)
    × (analysis.stats.unresolved_pointers
        ≡ analysis.stats.unresolved_object_pointers + analysis.stats.unresolved_goroutine_roots
          + analysis.stats.unresolved_global_roots + analysis.stats.unresolved_finalizer_roots)
    × (analysis.stats.objects ≡ length snapshot.objects)
build_accounts_example = build_accounts snapshot graph_options analysis build_dump

object_bytes_exact_example :
    (analysis.stats.object_bytes ≡ sum_sizes graph.objects)
    × (analysis.stats.object_bytes ≤ max_uint64)
object_bytes_exact_example =
    object_bytes_exact snapshot graph_options analysis graph build_dump refl
