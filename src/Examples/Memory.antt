-- ===== src/Examples/Memory.antt =====
-- The computation of internal/memusage on the analysis of that dump.
use bubblepprof.Common.{
  ℕ, ◌≤◌, ◌≡◌, ◌≢◌, ◌↔◌, refl, true, false, List, [], ◌∷◌, Option, some, none, length, arith, elem,
  inl, inr, text, text_eq, lookup, All,
}
use bubblepprof.Common.Result.{ok}
use bubblepprof.Examples.Analysis.{graph, analysis}
use bubblepprof.Graph.Correct.{Reachable}
use bubblepprof.Graph.Reach.{
  reachable_from, root_ids, offer, offer_all, children, drain, search_from,
}
use bubblepprof.Usage.Cache.{IsCacheOf, compute_with_cache}
use bubblepprof.Usage.Compute.{
  Diagnostics, InvariantReach, Response, compute_with, compute_from_analysis,
  eligible_failure_error, members,
}
use bubblepprof.Usage.Failures.{IsIgnored, eligible_failure_error_iff}
use bubblepprof.Usage.Overlap.{keep, is_system_goroutine, held}
use bubblepprof.Usage.Request.{
  Labels, Request, Options, validate_request, labels_match, label_value, effective_max_labels,
  effective_max_label_key_bytes, effective_max_label_value_bytes,
}
use bubblepprof.Usage.Response.{response_exact, matching, HeldBySystem}
use bubblepprof.Usage.Sets.{intersect_count_bytes, object_set_bytes}
use bubblepprof.Usage.Totals.{Counts, intersect_count_bytes_exact}
use bubblepprof.Usage.Validation.{IsAllowed, validate_request_iff, labels_match_iff}

abbrev pub job : Labels
job = (text "job", text "a") ∷ []

abbrev pub request : Request
request = record { labels = job }

abbrev pub options : Options
options = record {
  include_system_goroutines = false;
  max_labels = 0;
  max_label_key_bytes = 0;
  max_label_value_bytes = 0;
}

abbrev pub by_gid : List (ℕ × Labels)
by_gid = (7, job) ∷ []

abbrev pub diagnostics : Diagnostics
diagnostics = record {
  go_version = [];
  goarch = [];
  unsupported_runtime = false;
  string_missing_count = 0;
  failed_goroutines = 1;
  string_missing_gids = none;
  failed_gids = none;
  warnings = [];
}

-- Goroutine 9 failed, and is known and not eligible.
abbrev ignored_failure : Diagnostics
ignored_failure = record diagnostics { failed_gids = some (9 ∷ []) }

abbrev pub healthy : Diagnostics
healthy = record diagnostics { failed_goroutines = 0 }

abbrev response : Response
response = record {
  labels = job;
  matched_goroutines = 1;
  reachable_objects = 2;
  reachable_bytes = 24;
  global_overlap_objects = 2;
  global_overlap_bytes = 24;
  system_overlap_objects = 0;
  system_overlap_bytes = 0;
}

computed : compute_from_analysis request (some analysis) by_gid healthy options ≡ ok response
unfolding compute_from_analysis validate_request labels_match object_set_bytes intersect_count_bytes
    lookup text_eq reachable_from search_from drain offer_all offer elem children
computed = refl

response_exact_example :
    (response.matched_goroutines ≡ length (matching request analysis by_gid options))
    × Counts graph
        (Reachable graph (held (matching request analysis by_gid options)))
        response.reachable_objects
        response.reachable_bytes
    × Counts graph
        (λ x.
          Reachable graph (held (matching request analysis by_gid options)) x
          × Reachable graph (root_ids analysis.globals.roots) x)
        response.global_overlap_objects
        response.global_overlap_bytes
    × Counts graph
        (λ x.
          Reachable graph (held (matching request analysis by_gid options)) x
          × HeldBySystem graph options (keep is_system_goroutine analysis.goroutines) x)
        response.system_overlap_objects
        response.system_overlap_bytes
response_exact_example =
    response_exact request analysis by_gid healthy options response graph computed refl
      (omega arith)

abbrev warm : Option InvariantReach
warm =
    some
      (record { global = some (reachable_from (some graph) analysis.globals.roots); system = none })

computed_warm :
    compute_with request (some analysis) by_gid healthy options warm none ≡ ok (response, warm)
unfolding compute_with validate_request labels_match object_set_bytes intersect_count_bytes lookup
    text_eq reachable_from search_from drain offer_all offer elem children
computed_warm = refl

compute_with_cache_example :
    ((c : Option InvariantReach) × (compute_with request
          (some analysis)
          by_gid
          healthy
          options
          none
          none
        ≡ ok (response, c)))
    × IsCacheOf graph analysis warm
compute_with_cache_example =
    compute_with_cache request analysis by_gid healthy options warm none graph response warm refl
      (inr refl, inl refl) computed_warm

eligible_failure_error_iff_example :
    (eligible_failure_error ignored_failure (7 ∷ 9 ∷ []) (7 ∷ []) ≡ none) ↔ (
      All (IsIgnored (7 ∷ 9 ∷ []) (7 ∷ [])) (members ignored_failure.failed_gids)
      × All (IsIgnored (7 ∷ 9 ∷ []) (7 ∷ [])) (members ignored_failure.string_missing_gids))
eligible_failure_error_iff_example =
    eligible_failure_error_iff ignored_failure (7 ∷ 9 ∷ []) (7 ∷ []) refl

validate_request_iff_example : (validate_request (some request) options ≡ none) ↔ (
    (length request.labels ≢ 0)
    × (length request.labels ≤ effective_max_labels options)
    × All
        (IsAllowed
          (effective_max_label_key_bytes options)
          (effective_max_label_value_bytes options))
        request.labels)
validate_request_iff_example = validate_request_iff request options

labels_match_iff_example :
    (labels_match ((text "zone", text "b") ∷ job) job ≡ true)
    ↔ All (λ kv. label_value kv.0 ((text "zone", text "b") ∷ job) ≡ some kv.1) job
labels_match_iff_example = labels_match_iff ((text "zone", text "b") ∷ job) job

intersect_count_bytes_exact_example :
    Counts graph
      (λ x. (elem x (0 ∷ 1 ∷ []) ≡ true) × (elem x (1 ∷ 2 ∷ []) ≡ true))
      (intersect_count_bytes (some graph) (0 ∷ 1 ∷ []) (1 ∷ 2 ∷ [])).0
      (intersect_count_bytes (some graph) (0 ∷ 1 ∷ []) (1 ∷ 2 ∷ [])).1
unfolding elem
intersect_count_bytes_exact_example =
    intersect_count_bytes_exact graph (0 ∷ 1 ∷ []) (1 ∷ 2 ∷ []) (omega arith) (refl, (refl, tt))
      (refl, (refl, tt))
