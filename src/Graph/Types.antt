-- ===== src/Graph/Types.antt =====
-- The result types of internal/snapshotgraph/graph.go, and the messages of build.go.
use bubblepprof.Common.{ℕ, Bool, List, Option}
use bubblepprof.Snapshot.{ParseWarning}
use bubblepprof.Graph.{Graph, RootRef}

-- `reachable` is nil until ComputeReachability fills it.
pub record GoroutineReachability : Type 0 where
  pub goroutine_id : ℕ
  pub is_system : Bool
  pub is_background : Bool
  pub roots : List RootRef
  pub reachable : List ℕ

pub record GlobalReachability : Type 0 where
  pub roots : List RootRef
  pub reachable : List ℕ

pub record Stats : Type 0 where
  pub objects : ℕ
  pub object_bytes : ℕ
  pub edges : ℕ
  pub raw_object_pointers : ℕ
  pub zero_object_pointers : ℕ
  pub resolved_object_pointers : ℕ
  pub unresolved_pointers : ℕ
  pub unresolved_object_pointers : ℕ
  pub unresolved_goroutine_roots : ℕ
  pub unresolved_global_roots : ℕ
  pub unresolved_finalizer_roots : ℕ
  pub goroutines : ℕ
  pub system_goroutines : ℕ
  pub goroutine_root_pointers : ℕ
  pub global_roots : ℕ
  pub goroutine_reachable_objects : ℕ
  pub global_reachable_objects : ℕ
  pub unreachable_objects : ℕ
  pub shared_by_goroutines_objects : ℕ

-- The messages that Build appends, with the values that they print.
pub data BuildWarning : Type 0 where
  parse : ParseWarning → BuildWarning
  zero_address : BuildWarning
  duplicate_address : ℕ → ℕ → BuildWarning
  zero_sized : ℕ → BuildWarning
  size_overflow : ℕ → ℕ → BuildWarning
  overlapping_ranges : ℕ → ℕ → ℕ → ℕ → BuildWarning

pub data BuildError : Type 0 where
  nil_snapshot : BuildError
  too_many_objects : ℕ → BuildError
  strict_duplicate : ℕ → BuildError
  strict_overflow : ℕ → ℕ → BuildError
  strict_overlap : ℕ → BuildError
  total_bytes_overflow : BuildError

pub record Options : Type 0 where
  pub strict : Bool
  pub keep_provenance : Bool

-- `graph` is nil in an Analysis that Build did not make.
pub record Analysis : Type 0 where
  pub graph : Option Graph
  pub goroutines : List GoroutineReachability
  pub globals : GlobalReachability
  pub warnings : List BuildWarning
  pub stats : Stats
