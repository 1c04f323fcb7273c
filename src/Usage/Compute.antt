-- ===== src/Usage/Compute.antt =====
-- internal/memusage/compute.go: the pure core of /debug/memusage.
use bubblepprof.Common.{
  ℕ, ◌+◌, Bool, true, false, List, [], ◌∷◌, ◌++◌, Option, some, none, ltb, ◌==◌, ◌&&◌, ◌||◌, not,
  if◌then◌else◌, length, elem, insert, lookup, Text,
}
use bubblepprof.Common.Result.{Result, ok, err, ◌>>=◌, ◌>>◌}
use bubblepprof.Graph.{Graph}
use bubblepprof.Graph.Types.{Analysis, GoroutineReachability}
use bubblepprof.Graph.Reach.{reachable_from}
use bubblepprof.Usage.Request.{
  Labels, Request, Options, ValidationError, validate_request, labels_match,
}
use bubblepprof.Usage.Sets.{object_set_bytes, intersect_count_bytes, reachable_from_goroutines}

-- Warnings of the label decoder are opaque texts. A nil GID set is `none`.
pub record Diagnostics : Type 0 where
  pub go_version : Text
  pub goarch : Text
  pub unsupported_runtime : Bool
  pub string_missing_count : ℕ
  pub failed_goroutines : ℕ
  pub string_missing_gids : Option (List ℕ)
  pub failed_gids : Option (List ℕ)
  pub warnings : List Text

pub data ComputeError : Type 0 where
  validation : ValidationError → ComputeError
  nil_analysis nil_graph : ComputeError
  unsupported_runtime : Text → Text → ComputeError
  string_missing : Text → Text → List Text → ComputeError
  label_recovery_failed : Text → Text → ℕ → List Text → ComputeError

pub record Response : Type 0 where
  pub labels : Labels
  pub matched_goroutines : ℕ
  pub reachable_objects : ℕ
  pub reachable_bytes : ℕ
  pub global_overlap_objects : ℕ
  pub global_overlap_bytes : ℕ
  pub system_overlap_objects : ℕ
  pub system_overlap_bytes : ℕ

-- A nil map has no members.
abbrev pub members : Option (List ℕ) → List ℕ
members none = []
members (some ids) = ids

-- countsAsEligible
unfoldable pub counts_as_eligible : List ℕ → List ℕ → ℕ → Bool
counts_as_eligible known eligible gid = elem gid eligible || not (elem gid known)

module _ (known eligible : List ℕ) where
  -- The loop over FailedGIDs: (stringMissing, failed).
  unfoldable pub count_failed : List ℕ → List ℕ → ℕ × ℕ
  unfolding counts_as_eligible
  count_failed missing [] = (0, 0)
  count_failed missing (gid ∷ rest) =
      let (s, f) = count_failed missing rest in
      if counts_as_eligible known eligible gid
      then (if elem gid missing then s + 1 else s, f + 1)
      else (s, f)

  -- The loop over StringMissingGIDs, for those that are not in FailedGIDs.
  unfoldable pub count_missing : List ℕ → List ℕ → ℕ
  unfolding counts_as_eligible
  count_missing failed [] = 0
  count_missing failed (gid ∷ rest) =
      if elem gid failed
      then count_missing failed rest
      else if counts_as_eligible known eligible gid
      then count_missing failed rest + 1
      else count_missing failed rest

-- `d.FailedGIDs == nil && d.StringMissingGIDs == nil`
abbrev pub no_gids : Diagnostics → Bool
no_gids d = elim d.failed_gids [
  | some _ ↦ false
  | none ↦ elim d.string_missing_gids [ none ↦ true | some _ ↦ false ]
]

-- (Diagnostics).eligibleFailures: (stringMissing, failed)
unfoldable pub eligible_failures : Diagnostics → List ℕ → List ℕ → ℕ × ℕ
unfolding count_failed count_missing
eligible_failures d known eligible =
    let (s, f) =
      count_failed known eligible (members d.string_missing_gids) (members d.failed_gids) in
    let extra =
      count_missing known eligible (members d.failed_gids) (members d.string_missing_gids) in
    if no_gids d then (d.string_missing_count, d.failed_goroutines) else (s + extra, f + extra)

-- eligibleFailureError
unfoldable pub eligible_failure_error : Diagnostics → List ℕ → List ℕ → Option ComputeError
unfolding eligible_failures
eligible_failure_error d known eligible =
    let (missing, failed) = eligible_failures d known eligible in
    if ltb 0 missing
    then some (string_missing d.go_version d.goarch d.warnings)
    else if ltb 0 failed
    then some (label_recovery_failed d.go_version d.goarch failed d.warnings)
    else none

-- What the loop over the goroutines collects.
pub record Selection : Type 0 where
  pub matched : List GoroutineReachability
  pub system : List GoroutineReachability
  pub known : List ℕ
  pub eligible : List ℕ

-- `labelsByGID[id]`; a missing key gives an empty map.
unfoldable pub labels_of : List (ℕ × Labels) → ℕ → Labels
labels_of by_gid id = elim (lookup id by_gid) [ none ↦ [] | some ls ↦ ls ]

-- `candidates != nil` and the goroutine is not in it.
abbrev pub is_excluded : Option (List ℕ) → ℕ → Bool
is_excluded none id = false
is_excluded (some ids) id = not (elem id ids)

module _ (want : Labels) (by_gid : List (ℕ × Labels)) (opts : Options)
    (candidates : Option (List ℕ)) where
  -- Whether the loop body reaches its last line.
  unfoldable pub is_matched : GoroutineReachability → Bool
  unfolding labels_of
  is_matched gr =
      not ((gr.is_system || gr.is_background) && not opts.include_system_goroutines)
      && (not (is_excluded candidates gr.goroutine_id)
          && labels_match (labels_of by_gid gr.goroutine_id) want)

  unfoldable pub select_goroutine : Selection → GoroutineReachability → Selection
  unfolding labels_of
  select_goroutine s gr =
      let is_system = gr.is_system || gr.is_background in
      let s = record s { known = insert gr.goroutine_id s.known } in
      let s = if is_system then record s { system = s.system ++ gr ∷ [] } else s in
      if is_system && not opts.include_system_goroutines
      then s
      else let s = record s { eligible = insert gr.goroutine_id s.eligible } in
        (if is_excluded candidates gr.goroutine_id
          then s
          else if labels_match (labels_of by_gid gr.goroutine_id) want
          then record s { matched = s.matched ++ gr ∷ [] }
          else s)

  unfoldable pub select_goroutines : Selection → List GoroutineReachability → Selection
  unfolding select_goroutine
  select_goroutines s [] = s
  select_goroutines s (gr ∷ rest) = select_goroutines (select_goroutine s gr) rest

abbrev pub no_selection : Selection
no_selection = record { matched = []; system = []; known = []; eligible = [] }

-- invariantReach: reach sets that do not depend on the request; nil until they are computed.
pub record InvariantReach : Type 0 where
  pub global : Option (List ℕ)
  pub system : Option (List ℕ)

-- A nil cache, or a cache field that is nil, computes the set; a cache that is there keeps it.
unfoldable pub cached : Option (Option (List ℕ)) → List ℕ → List ℕ
cached none fresh = fresh
cached (some none) fresh = fresh
cached (some (some kept)) fresh = kept

abbrev pub cache_global : Option InvariantReach → Option (Option (List ℕ))
cache_global none = none
cache_global (some c) = some c.global

abbrev pub cache_system : Option InvariantReach → Option (Option (List ℕ))
cache_system none = none
cache_system (some c) = some c.system

abbrev pub store_global : Option InvariantReach → List ℕ → Option InvariantReach
store_global none ids = none
store_global (some c) ids = some (record c { global = some ids })

abbrev pub store_system : Option InvariantReach → List ℕ → Option InvariantReach
store_system none ids = none
store_system (some c) ids = some (record c { system = some ids })

-- The traversals, skipped when nothing is matched: (globalReach, systemReach, the cache).
unfoldable pub overlap_sets :
    Graph
    → Analysis
    → Options
    → List GoroutineReachability
    → Bool
    → Option InvariantReach
    → List ℕ × List ℕ × Option InvariantReach
unfolding cached
overlap_sets g analysis opts system_goroutines empty_union cache =
    let globals = cached (cache_global cache) (reachable_from (some g) analysis.globals.roots) in
    let cache' = store_global cache globals in
    let systems =
      cached (cache_system cache') (reachable_from_goroutines (some g) system_goroutines) in
    if empty_union
    then ([], [], cache)
    else if not opts.include_system_goroutines && ltb 0 (length system_goroutines)
    then (globals, systems, store_system cache' systems)
    else (globals, [], cache')

-- The response, from the sets.
unfoldable pub respond : Graph → Labels → ℕ → List ℕ → List ℕ → List ℕ → Response
respond g labels matched union globals systems =
    let (global_count, global_bytes) = intersect_count_bytes (some g) union globals in
    let (system_count, system_bytes) = intersect_count_bytes (some g) union systems in
    record {
      labels = labels;
      matched_goroutines = matched;
      reachable_objects = length union;
      reachable_bytes = object_set_bytes (some g) union;
      global_overlap_objects = global_count;
      global_overlap_bytes = global_bytes;
      system_overlap_objects = system_count;
      system_overlap_bytes = system_bytes;
    }

-- The checks before the loop: the analysis and its graph.
unfoldable pub checked_graph :
    Request → Option Analysis → Diagnostics → Options → Result ComputeError (Analysis × Graph)
checked_graph req analysis diag opts = elim (validate_request (some req) opts) [
  | some e ↦ err (validation e)
  | none ↦ elim analysis [
    | none ↦ err nil_analysis
    | some a ↦ elim a.graph [
      | none ↦ err nil_graph
      | some g ↦
          if diag.unsupported_runtime
          then err (unsupported_runtime diag.go_version diag.goarch)
          else ok (a, g)
    ]
  ]
]

abbrev pub fail_with : Option ComputeError → Result ComputeError (Unit {0})
fail_with none = ok tt
fail_with (some e) = err e

-- Everything behind the failure check: the traversals and the response, with the cache left.
unfoldable pub answer :
    Request
    → Options
    → Option InvariantReach
    → Analysis
    → Graph
    → Selection
    → Response × Option InvariantReach
unfolding overlap_sets respond reachable_from_goroutines
answer req opts cache a g s =
    let union = reachable_from_goroutines (some g) s.matched in
    let (globals, systems, cache') = overlap_sets g a opts s.system (length union == 0) cache in
    (respond g req.labels (length s.matched) union globals systems, cache')

-- computeFromAnalysis: the response, with the cache as it is left.
unfoldable pub compute_with :
    Request
    → Option Analysis
    → List (ℕ × Labels)
    → Diagnostics
    → Options
    → Option InvariantReach
    → Option (List ℕ)
    → Result ComputeError (Response × Option InvariantReach)
unfolding checked_graph select_goroutines eligible_failure_error answer
compute_with req analysis by_gid diag opts cache candidates = do
  (a, g) ← checked_graph req analysis diag opts
  let s = select_goroutines req.labels by_gid opts candidates no_selection a.goroutines
  fail_with (eligible_failure_error diag s.known s.eligible)
  ok (answer req opts cache a g s)

-- ComputeFromAnalysis
unfoldable pub compute_from_analysis :
    Request
    → Option Analysis
    → List (ℕ × Labels)
    → Diagnostics
    → Options
    → Result ComputeError Response
unfolding compute_with
compute_from_analysis req analysis by_gid diag opts = do
  (resp, _) ← compute_with req analysis by_gid diag opts none none
  ok resp
