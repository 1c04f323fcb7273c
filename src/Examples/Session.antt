-- ===== src/Examples/Session.antt =====
-- Queries of a session (internal/memusage/multibubble.go) on two groups of goroutines.
use bubblepprof.Common.{
  ◌<◌, ◌↔◌, IsSorted, IsCut, ℕ, ◌+◌, ◌≡◌, refl, inl, value_at, true, false, List, [], ◌∷◌, some,
  none, length, arith, elem, text, text_eq, text_ltb, All, total, map, lookup, assign, update_at,
  pos, sort_by, insert_by, insert,
}
use bubblepprof.Common.Result.{ok}
use bubblepprof.Examples.Analysis.{graph, analysis, stack_root}
use bubblepprof.Examples.Memory.{options, healthy}
use bubblepprof.Graph.{RootRef}
use bubblepprof.Graph.Types.{Analysis, GoroutineReachability}
use bubblepprof.Graph.Reach.{reachable_from, offer, offer_all, children, drain, search_from}
use bubblepprof.Usage.Request.{Request, validate_request, labels_match, label_value}
use bubblepprof.Usage.Sets.{size_at, object_set_bytes, intersect_count_bytes}
use bubblepprof.Usage.Cache.{IsCacheOf}
use bubblepprof.Usage.Compute.{
  Response, eligible_failure_error, compute_from_analysis, compute_with, InvariantReach,
}
use bubblepprof.Session.State.{is_excluded, Session, Measure, measure, ready, walk, selected}
use bubblepprof.Session.Query.{
  new_session, query, goroutine_ids, ids_at, candidates_from, next_candidates, index_goroutines,
  index_goroutine, add_entries, add_entry, sort_index, sort_values,
}
use bubblepprof.Session.Answered.{query_answers, query_keeps, response_of, as_answer}
use bubblepprof.Session.Sets.{difference, intersection, union}
use bubblepprof.Session.Measured.{measure-same}
use bubblepprof.Session.Compare.{
  SharedObject, Comparison, SharedResult, compare_requests, shared_objects, shared_object,
  larger_first, addr_at,
}
use bubblepprof.Session.Compared.{AreParts, HeldFor, compare_requests_exact}
use bubblepprof.Session.Listed.{Describes, Leads, compare_requests_total, shared_objects_listed}
use bubblepprof.Session.SetOf.{IsSetOf}
use bubblepprof.Session.Exclusive.{ExclusiveResult, exclusive_of}
use bubblepprof.Session.Owned.{CountsOwned, exclusive_of_exact}
use bubblepprof.Session.Top.{GroupResult, TopOptions, TopResult, top_groups, row_before}
use bubblepprof.Session.Rows.{IsRow}
use bubblepprof.Session.Covered.{CoversGroups}
use bubblepprof.Session.RowOrder.{IsMetric, RowLeads}
use bubblepprof.Session.Grouped.{in_group, in_ungrouped}
use bubblepprof.Usage.Overlap.{keep}
use bubblepprof.Session.Ranked.{top_groups_exact}
use bubblepprof.Session.Accounted.{top_groups_accounts}

abbrev far_root : RootRef
far_root = record stack_root { object_id = 2; ptr = 96 }

abbrev worker : GoroutineReachability
worker = record {
  goroutine_id = 7;
  is_system = false;
  is_background = false;
  roots = stack_root ∷ [];
  reachable = [];
}

-- Goroutine 8 holds all objects, and the system goroutine 9 the third.
abbrev pub two_groups : Analysis
two_groups = record analysis {
  goroutines =
      worker
      ∷ record worker { goroutine_id = 8; roots = far_root ∷ stack_root ∷ [] }
      ∷ record worker { goroutine_id = 9; is_system = true; roots = far_root ∷ [] }
      ∷ [];
}

abbrev first : Request
first = record { labels = (text "job", text "a") ∷ [] }

abbrev second : Request
second = record { labels = (text "job", text "b") ∷ [] }

abbrev pub session : Session
session = record {
  analysis = some two_groups;
  labels = (7, first.labels) ∷ (8, second.labels) ∷ [];
  index = [];
  diag = healthy;
  opts = options;
  cache = record { global = none; system = none };
}

abbrev both_objects : Measure
both_objects = record { objects = 2; bytes = 24 }

abbrev far_object : Measure
far_object = record { objects = 1; bytes = 8 }

abbrev nothing : Measure
nothing = record { objects = 0; bytes = 0 }

abbrev comparison : Comparison
comparison = record {
  a = first.labels;
  b = second.labels;
  a_goroutines = 1;
  b_goroutines = 1;
  overlapping_goroutines = [];
  a_only = nothing;
  b_only = far_object;
  shared = both_objects;
  union = record { objects = 3; bytes = 32 };
}

compared : compare_requests session first second ≡ ok comparison
unfolding compare_requests ready eligible_failure_error selected validate_request walk measure
    difference search_from drain offer_all labels_match lookup text_eq offer elem children
    intersection insert union insert_by sort_by
compared = refl

measure-same_example : measure (some graph) (0 ∷ 2 ∷ []) ≡ measure (some graph) (2 ∷ 0 ∷ [])
unfolding elem
measure-same_example =
    measure-same graph (0 ∷ 2 ∷ []) (2 ∷ 0 ∷ []) ((refl, (refl, tt)), λ a h. ground arith)
      ((refl, (refl, tt)), λ a h. ground arith) (λ a. ground arith)

compare_requests_exact_example :
    AreParts graph
      (HeldFor session first two_groups graph)
      (HeldFor session second two_groups graph)
      comparison.a_only
      comparison.b_only
      comparison.shared
      comparison.union
compare_requests_exact_example =
    compare_requests_exact session first second two_groups graph comparison refl refl compared

session-ready : ready session ≡ ok two_groups
unfolding ready eligible_failure_error insert
session-ready = refl

first_valid : validate_request (some first) options ≡ none
unfolding validate_request
first_valid = refl

second_valid : validate_request (some second) options ≡ none
unfolding validate_request
second_valid = refl

compare_requests_total_example :
    (out : Comparison) × (compare_requests session first second ≡ ok out)
compare_requests_total_example =
    compare_requests_total session first second two_groups graph session-ready refl first_valid
      second_valid (omega arith)

abbrev shared_first : SharedResult
shared_first = record {
  comparison = comparison;
  objects = record { id = 0; address = 16; size = 16; outgoing_references = 1 } ∷ [];
  truncated = true;
}

listed : shared_objects session first second (pos 1) ≡ ok shared_first
unfolding shared_objects larger_first shared_object size_at addr_at ready eligible_failure_error
    selected validate_request walk measure difference search_from drain offer_all labels_match
    lookup text_eq offer elem children intersection insert union insert_by sort_by
listed = refl

shared_objects_listed_example :
    (n : ℕ) × (full : List SharedObject) × (compare_requests session first second
      ≡ ok shared_first.comparison)
    × (pos 1 ≡ pos n)
    × IsSetOf graph
        (λ i. HeldFor session first two_groups graph i × HeldFor session second two_groups graph i)
        (map (λ o. o.id) full)
    × All (Describes graph) full
    × IsSorted Leads full
    × IsCut n full shared_first.objects
    × ((shared_first.truncated ≡ true) ↔ ((0 < n) × (n < length full)))
shared_objects_listed_example =
    shared_objects_listed session first second (pos 1) two_groups graph shared_first refl refl
      listed

abbrev owned : ExclusiveResult
owned = record {
  labels = second.labels;
  goroutines = 1;
  reachable = record { objects = 3; bytes = 32 };
  exclusive = nothing;
  shared = record { objects = 3; bytes = 32 };
  global_overlap = both_objects;
  system_overlap = far_object;
  other_goroutine_overlap = both_objects;
}

owned_value : exclusive_of session second ≡ ok owned
unfolding exclusive_of ready eligible_failure_error selected validate_request walk measure
    difference search_from drain offer_all labels_match lookup text_eq offer elem children
    intersection insert union insert_by sort_by
owned_value = refl

exclusive_of_exact_example : CountsOwned session second two_groups graph owned
exclusive_of_exact_example =
    exclusive_of_exact session second two_groups graph owned refl refl owned_value

abbrev top_options : TopOptions
top_options = record { by = text "job"; sort = []; limit = pos 0 }

abbrev row_a : GroupResult
row_a = record {
  value = text "a";
  goroutines = 1;
  reachable = both_objects;
  exclusive = nothing;
  shared = both_objects;
  bubbles_only = nothing;
  other_roots_only = nothing;
  both = both_objects;
  bubble_overlap = both_objects;
  other_root_overlap = both_objects;
  global_overlap = both_objects;
  system_overlap = nothing;
  ungrouped_overlap = nothing;
}

abbrev row_b : GroupResult
row_b = record {
  value = text "b";
  goroutines = 1;
  reachable = record { objects = 3; bytes = 32 };
  exclusive = nothing;
  shared = record { objects = 3; bytes = 32 };
  bubbles_only = nothing;
  other_roots_only = far_object;
  both = both_objects;
  bubble_overlap = both_objects;
  other_root_overlap = record { objects = 3; bytes = 32 };
  global_overlap = both_objects;
  system_overlap = far_object;
  ungrouped_overlap = nothing;
}

abbrev top_two : TopResult
top_two = record {
  by = text "job";
  groups = row_b ∷ row_a ∷ [];
  total_groups = 2;
  ungrouped_goroutines = 0;
  excluded_system_goroutines = 1;
}

topped : top_groups session top_options ≡ ok top_two
unfolding top_groups row_before text_ltb label_value assign update_at ready eligible_failure_error
    selected validate_request walk measure difference search_from drain offer_all labels_match
    lookup text_eq offer elem children intersection insert union insert_by sort_by
topped = refl

top_groups_exact_example :
    (rows : List GroupResult) × (m : GroupResult → ℕ) × (n : ℕ) × CoversGroups session
      top_options.by two_groups rows
    × All (IsRow session top_options.by two_groups graph) rows
    × IsMetric top_options.sort m
    × IsSorted (RowLeads m) rows
    × (top_options.limit ≡ pos n)
    × IsCut n rows top_two.groups
    × (top_two.total_groups ≡ length rows)
top_groups_exact_example =
    top_groups_exact session top_options two_groups graph top_two refl refl topped

top_groups_accounts_example :
    All
      (λ r.
        r.goroutines
        ≡ length (keep (in_group session top_options.by r.value) two_groups.goroutines))
      top_two.groups
    × (top_two.ungrouped_goroutines
        ≡ length (keep (in_ungrouped session top_options.by) two_groups.goroutines))
    × (top_two.excluded_system_goroutines
        ≡ length (keep (is_excluded session.opts) two_groups.goroutines))
    × (total (λ r. r.goroutines) top_two.groups
          + top_two.ungrouped_goroutines
          + top_two.excluded_system_goroutines
        ≡ length two_groups.goroutines)
top_groups_accounts_example =
    top_groups_accounts session top_options two_groups graph top_two refl refl refl topped

abbrev indexed : Session
indexed = new_session two_groups session.labels healthy options

indexed_ids : goroutine_ids indexed (text "job") (text "b") ≡ 8 ∷ []
unfolding goroutine_ids ids_at new_session index_goroutines index_goroutine add_entries add_entry
    sort_index sort_values value_at update_at text_eq sort_by insert_by lookup
indexed_ids = refl

indexed_candidates : candidates_from true [] indexed.index second.labels ≡ some (8 ∷ [])
unfolding candidates_from next_candidates ids_at new_session index_goroutines index_goroutine
    add_entries add_entry sort_index sort_values value_at update_at text_eq sort_by insert_by insert
    lookup
indexed_candidates = refl

abbrev no_cache : InvariantReach
no_cache = record { global = none; system = none }

query_answers_example :
    response_of (query (record indexed { cache = no_cache }) second)
    ≡ as_answer (compute_from_analysis second (some two_groups) session.labels healthy options)
query_answers_example =
    query_answers two_groups session.labels healthy options no_cache second graph refl
      (inl refl, inl refl)

-- Both traversals of the cache are filled.
abbrev filled : InvariantReach
filled = record { global = some (0 ∷ 1 ∷ []); system = some (2 ∷ []) }

abbrev second_response : Response
second_response = record {
  labels = second.labels;
  matched_goroutines = 1;
  reachable_objects = 3;
  reachable_bytes = 32;
  global_overlap_objects = 2;
  global_overlap_bytes = 24;
  system_overlap_objects = 1;
  system_overlap_bytes = 8;
}

queried_second : query indexed second ≡ ok (second_response, record indexed { cache = filled })
unfolding query new_session compute_with candidates_from next_candidates ids_at index_goroutines
    index_goroutine add_entries add_entry sort_index sort_values value_at update_at validate_request
    labels_match object_set_bytes intersect_count_bytes lookup text_eq reachable_from search_from
    drain offer_all offer elem children sort_by insert_by insert
queried_second = refl

query_keeps_example :
    (record indexed { cache = filled } ≡ record indexed { cache = filled })
    × IsCacheOf graph two_groups (some filled)
unfolding new_session
query_keeps_example =
    query_keeps indexed second two_groups graph second_response (record indexed { cache = filled })
      refl refl (inl refl, inl refl) queried_second
