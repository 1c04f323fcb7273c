-- ===== src/Session/Exclusive.antt =====
-- Exclusive (internal/memusage/multibubble.go) and `inspect` (objects.go).
use bubblepprof.Common.{ℕ, List, [], ◌∷◌, ◌++◌, Option, if◌then◌else◌, length, elem}
use bubblepprof.Common.Result.{Result, ok, ◌>>=◌}
use bubblepprof.Graph.{Graph, RootRef}
use bubblepprof.Graph.Types.{Analysis, GoroutineReachability}
use bubblepprof.Usage.Request.{Labels, Request}
use bubblepprof.Session.State.{
  Session, SessionError, Measure, runs_system, ready, selected, walk, measure,
}
use bubblepprof.Session.Sets.{intersection, difference, union}

-- The roots of the goroutines that are not selected, of system goroutines and of others.
pub record OtherRoots : Type 0 where
  pub system : List RootRef
  pub other : List RootRef

unfoldable pub add_other_roots : List ℕ → OtherRoots → GoroutineReachability → OtherRoots
add_other_roots gids r gr =
    if elem gr.goroutine_id gids
    then r
    else if runs_system gr
    then record r { system = r.system ++ gr.roots }
    else record r { other = r.other ++ gr.roots }

unfoldable pub other_roots : List ℕ → OtherRoots → List GoroutineReachability → OtherRoots
unfolding add_other_roots
other_roots gids r [] = r
other_roots gids r (gr ∷ rest) = other_roots gids (add_other_roots gids r gr) rest

abbrev pub no_roots : OtherRoots
no_roots = record { system = []; other = [] }

pub record Inspection : Type 0 where
  pub selected : List ℕ
  pub global : List ℕ
  pub system : List ℕ
  pub other : List ℕ
  pub outside : List ℕ
  pub gids : List ℕ

-- `inspect`
unfoldable pub inspect : Session → Analysis → Request → Result SessionError Inspection
unfolding other_roots
inspect s analysis req = do
  chosen ← selected s req analysis
  mine ← walk analysis.graph chosen.roots
  global ← walk analysis.graph analysis.globals.roots
  let rest = other_roots chosen.gids no_roots analysis.goroutines
  system ← walk analysis.graph rest.system
  other ← walk analysis.graph rest.other
  ok (record {
    selected = mine;
    global = global;
    system = system;
    other = other;
    outside = union global (union system other);
    gids = chosen.gids;
  })

pub record ExclusiveResult : Type 0 where
  pub labels : Labels
  pub goroutines : ℕ
  pub reachable : Measure
  pub exclusive : Measure
  pub shared : Measure
  pub global_overlap : Measure
  pub system_overlap : Measure
  pub other_goroutine_overlap : Measure

-- The measures of Exclusive, over the sets of an inspection.
unfoldable pub measure_exclusive :
    Option Graph → Request → Inspection → Result SessionError ExclusiveResult
measure_exclusive g req sets = do
  reachable ← measure g sets.selected
  exclusive ← measure g (difference sets.selected sets.outside)
  shared ← measure g (intersection sets.selected sets.outside)
  global_overlap ← measure g (intersection sets.selected sets.global)
  system_overlap ← measure g (intersection sets.selected sets.system)
  other_overlap ← measure g (intersection sets.selected sets.other)
  ok (record {
    labels = req.labels;
    goroutines = length sets.gids;
    reachable = reachable;
    exclusive = exclusive;
    shared = shared;
    global_overlap = global_overlap;
    system_overlap = system_overlap;
    other_goroutine_overlap = other_overlap;
  })

-- Exclusive. Its walks are those of `inspect`, which the source writes out a second time.
unfoldable pub exclusive_of : Session → Request → Result SessionError ExclusiveResult
unfolding inspect measure_exclusive
exclusive_of s req = do
  analysis ← ready s
  sets ← inspect s analysis req
  measure_exclusive analysis.graph req sets
