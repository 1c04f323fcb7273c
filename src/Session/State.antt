-- ===== src/Session/State.antt =====
-- The session of internal/memusage/snapshot.go, with the checks, the selection and the walk that
-- the queries of multibubble.go share.
use bubblepprof.Common.{
  ℕ, ◌+◌, ◌-◌, Bool, List, [], ◌∷◌, ◌++◌, Option, some, none, ltb, ◌&&◌, ◌||◌, not, if◌then◌else◌,
  get_elem?, insert, max_uint64, Text,
}
use bubblepprof.Common.Result.{Result, ok, err}
use bubblepprof.Graph.{Graph, RootRef}
use bubblepprof.Graph.Types.{Analysis, GoroutineReachability}
use bubblepprof.Graph.Reach.{root_ids, search_from}
use bubblepprof.Usage.Request.{Labels, Request, Options, validate_request, labels_match}
use bubblepprof.Usage.Compute.{
  Diagnostics, ComputeError, validation, unsupported_runtime, InvariantReach,
  eligible_failure_error, labels_of,
}

-- Snapshot: `analysis` is nil once the session is closed. The metadata and the allocation samples
-- are left out.
pub record Session : Type 0 where
  pub analysis : Option Analysis
  pub labels : List (ℕ × Labels)
  pub index : List (Text × List (Text × List ℕ))
  pub diag : Diagnostics
  pub opts : Options
  pub cache : InvariantReach

-- `panic` is a nil graph that is read, or an id out of range.
pub data SessionError : Type 0 where
  computing : ComputeError → SessionError
  closed bytes_overflow panic bad_limit bad_options : SessionError

pub record Measure : Type 0 where
  pub objects : ℕ
  pub bytes : ℕ

-- `g.IsSystem || g.IsBackground`
abbrev pub runs_system : GoroutineReachability → Bool
runs_system gr = gr.is_system || gr.is_background

-- The goroutines that selection passes over.
abbrev pub is_excluded : Options → GoroutineReachability → Bool
is_excluded opts gr = not opts.include_system_goroutines && runs_system gr

-- The sets `known` and `eligible`.
unfoldable pub known_eligible :
    Options → List GoroutineReachability → List ℕ × List ℕ → List ℕ × List ℕ
known_eligible opts [] sets = sets
known_eligible opts (gr ∷ rest) (known, eligible) = known_eligible opts rest (
  insert gr.goroutine_id known,
  if opts.include_system_goroutines || not (runs_system gr)
      then insert gr.goroutine_id eligible
      else eligible,
)

-- `ready`, with the analysis that its callers go on to read.
unfoldable pub ready : Session → Result SessionError Analysis
unfolding known_eligible
ready s = elim s.analysis [
  | none ↦ err closed
  | some a ↦
      if s.diag.unsupported_runtime
      then err (computing (unsupported_runtime s.diag.go_version s.diag.goarch))
      else let (known, eligible) = known_eligible s.opts a.goroutines ([], []) in
        (elim (eligible_failure_error s.diag known eligible) [
          | some e ↦ err (computing e)
          | none ↦ ok a
        ])
]

-- What `selected` collects: the roots, and the ids of the goroutines.
pub record Choice : Type 0 where
  pub roots : List RootRef
  pub gids : List ℕ

module _ (s : Session) (req : Request) where
  -- Whether the loop body reaches its last lines.
  unfoldable pub chooses : GoroutineReachability → Bool
  unfolding labels_of
  chooses gr =
      not (is_excluded s.opts gr) && labels_match (labels_of s.labels gr.goroutine_id) req.labels

  unfoldable pub choose_one : Choice → GoroutineReachability → Choice
  unfolding chooses
  choose_one c gr =
      if chooses gr
      then record { roots = c.roots ++ gr.roots; gids = insert gr.goroutine_id c.gids }
      else c

  unfoldable pub choose : Choice → List GoroutineReachability → Choice
  unfolding choose_one
  choose c [] = c
  choose c (gr ∷ rest) = choose (choose_one c gr) rest

  -- `selected`
  unfoldable pub selected : Analysis → Result SessionError Choice
  unfolding choose
  selected a = elim (validate_request (some req) s.opts) [
    | some e ↦ err (computing (validation e))
    | none ↦ ok (choose (record { roots = []; gids = [] }) a.goroutines)
  ]

-- `walk`: the same search as ReachableFrom, which reads a nil graph only for a root.
unfoldable pub walk : Option Graph → List RootRef → Result SessionError (List ℕ)
walk none [] = ok []
walk none (r ∷ rs) = err panic
walk (some g) roots = ok (search_from g (root_ids roots)).reachable

-- The loop of `measure`.
unfoldable pub measure_from : Graph → Measure → List ℕ → Result SessionError Measure
measure_from g m [] = ok m
measure_from g m (id ∷ ids) = elim (get_elem? g.objects id) [
  | none ↦ err panic
  | some o ↦
      let rest =
        measure_from g (record { objects = m.objects + 1; bytes = m.bytes + o.size }) ids in
      if ltb (max_uint64 - m.bytes) o.size then err bytes_overflow else rest
]

abbrev pub no_measure : Measure
no_measure = record { objects = 0; bytes = 0 }

-- `measure`
unfoldable pub measure : Option Graph → List ℕ → Result SessionError Measure
unfolding measure_from
measure none [] = ok no_measure
measure none (id ∷ ids) = err panic
measure (some g) ids = measure_from g no_measure ids

-- Close, which leaves a session that answers no query.
unfoldable pub close : Session → Session
close s = record s {
  analysis = none;
  labels = [];
  index = [];
  cache = record { global = none; system = none };
}
