-- ===== src/Session/Answered.antt =====
-- Query (internal/memusage/snapshot.go) against ComputeFromAnalysis (compute.go).
use bubblepprof.Common.{
  ℕ, ◌≡◌, refl, sym, ap, ◌∙◌, true, false, List, [], ◌∷◌, Option, some, none, arith, All, All-map,
  Bool-cases, inl, inr,
}
use bubblepprof.Common.Result.{Result, ok, err, stuck, ◌>>=◌}
use bubblepprof.Graph.{Graph}
use bubblepprof.Graph.Types.{Analysis, GoroutineReachability}
use bubblepprof.Usage.Request.{Labels, Request, Options, labels_match}
use bubblepprof.Usage.Validation.{labels_match_iff}
use bubblepprof.Usage.Compute
use bubblepprof.Usage.Compute.{
  Diagnostics, InvariantReach, Response, Selection, ComputeError, no_selection, select_goroutine,
  select_goroutines, compute_with, compute_from_analysis, labels_of, checked_graph, fail_with,
  answer, eligible_failure_error,
}
use bubblepprof.Usage.Success.{checked_graph-eq-ok}
use bubblepprof.Usage.Overlap.{keep, is_system_goroutine, select_goroutines-system}
use bubblepprof.Usage.Cache.{IsCacheOf, answer-cache, compute_with_cache}
use bubblepprof.Session.State.{Session, SessionError, computing, is_excluded}
use bubblepprof.Session.Query.{
  Index, index_goroutines, sort_index, new_session, candidates_from, cache_after, queried, query,
}
use bubblepprof.Session.Indexed.{
  IsListed, index_goroutines-IsListed, ids_at-sort_index, candidates_from_keeps,
}

-- The candidates of a request on a new session.
abbrev candidates_for : Analysis → List (ℕ × Labels) → Options → Request → Option (List ℕ)
candidates_for a labels opts req =
    candidates_from true [] (sort_index (index_goroutines labels opts [] a.goroutines)) req.labels

-- A goroutine that would be matched is a candidate.
abbrev IsKept :
    Labels → List (ℕ × Labels) → Options → Option (List ℕ) → GoroutineReachability → Type 0
IsKept want labels opts candidates gr =
    is_excluded opts gr ≡ false
    → labels_match (labels_of labels gr.goroutine_id) want ≡ true
    → Compute.is_excluded candidates gr.goroutine_id ≡ false

module _ (want : Labels) (labels : List (ℕ × Labels)) (opts : Options) where
  select_goroutine_kept :
      (candidates : Option (List ℕ)) (s : Selection) (gr : GoroutineReachability)
      → IsKept want labels opts candidates gr
      → select_goroutine want labels opts candidates s gr
        ≡ select_goroutine want labels opts none s gr
  unfolding select_goroutine
  select_goroutine_kept candidates s gr kept = elim (Bool-cases (is_excluded opts gr)) [
    | inl e ↦ ground arith
    | inr e ↦ elim (Bool-cases (labels_match (labels_of labels gr.goroutine_id) want)) [
      | inl m ↦ ground (arith, kept e m)
      | inr m ↦ ground (arith, m)
    ]
  ]

  select_goroutines_kept :
      (candidates : Option (List ℕ)) (s : Selection) (grs : List GoroutineReachability)
      → All (IsKept want labels opts candidates) grs
      → select_goroutines want labels opts candidates s grs
        ≡ select_goroutines want labels opts none s grs
  unfolding select_goroutines
  select_goroutines_kept candidates s [] kept = refl
  select_goroutines_kept candidates s (gr ∷ rest) kept =
      select_goroutines_kept candidates (select_goroutine want labels opts candidates s gr) rest
        kept.1
      ∙ ap (λ (t : Selection). select_goroutines want labels opts none t rest)
          (select_goroutine_kept candidates s gr kept.0)

  listed_stays :
      (idx : Index) (gr : GoroutineReachability)
      → IsListed labels opts idx gr
      → IsKept want labels opts (candidates_from true [] (sort_index idx) want) gr
  listed_stays idx gr listed eligible matched =
      let carried = (labels_match_iff (labels_of labels gr.goroutine_id) want).0 matched in
      let everywhere =
        All-map want
          (λ kv e. ids_at-sort_index kv.0 kv.1 idx gr.goroutine_id ∙ listed eligible kv.0 kv.1 e)
          carried in
      let stays =
        candidates_from_keeps true [] (sort_index idx) want gr.goroutine_id refl everywhere in
      ground arith

-- The responses of Query and of ComputeFromAnalysis, under the errors of a session.
unfoldable pub response_of : Result SessionError (Response × Session) → Result SessionError Response
response_of (ok (resp, s)) = ok resp
response_of (err e) = err e
response_of stuck = stuck

unfoldable pub as_answer : Result ComputeError Response → Result SessionError Response
as_answer (ok resp) = ok resp
as_answer (err e) = err (computing e)
as_answer stuck = stuck

abbrev without_cache :
    Result ComputeError (Response × Option InvariantReach) → Result ComputeError Response
without_cache r = r >>= λ (resp, _). ok resp

module _ (req : Request) (a : Analysis) (labels : List (ℕ × Labels)) (diag : Diagnostics)
    (opts : Options) (g : Graph) where
  same_answer :
      (cache : Option InvariantReach) (s : Selection) (failure : Option ComputeError)
      → s.system ≡ keep is_system_goroutine a.goroutines
      → IsCacheOf g a cache
      → without_cache (fail_with failure >>= λ _. ok (answer req opts cache a g s))
        ≡ without_cache (fail_with failure >>= λ _. ok (answer req opts none a g s))
  same_answer cache s none e h = ap ok (answer-cache req opts cache a g s e h).0
  same_answer cache s (some failure) e h = refl

  goroutines_stay :
      All (IsKept req.labels labels opts (candidates_for a labels opts req)) a.goroutines
  goroutines_stay =
      All-map a.goroutines
        (λ gr listed.
          listed_stays req.labels labels opts (index_goroutines labels opts [] a.goroutines) gr
            listed)
        (index_goroutines-IsListed labels opts [] a.goroutines)

  -- Neither the candidates nor the cache change the outcome.
  compute_with_candidates :
      (cache : Option InvariantReach)
      → a.graph ≡ some g
      → IsCacheOf g a cache
      → without_cache
          (compute_with req (some a) labels diag opts cache (candidates_for a labels opts req))
        ≡ without_cache (compute_with req (some a) labels diag opts none none)
  unfolding compute_with
  compute_with_candidates cache graph h = parts (checked_graph req (some a) diag opts) refl
    where
      parts :
          (c : Result ComputeError (Analysis × Graph))
          → checked_graph req (some a) diag opts ≡ c
          → without_cache
              (compute_with req (some a) labels diag opts cache (candidates_for a labels opts req))
            ≡ without_cache (compute_with req (some a) labels diag opts none none)
      parts (err e) c = rw c refl
      parts stuck c = rw c refl
      parts (ok (a', g')) c =
          let (equal, graph', _) = checked_graph-eq-ok req a diag opts c in
          let same : g' ≡ g = ground arith in
          let checked : checked_graph req (some a) diag opts ≡ ok (a, g) =
            rw c (rw (equal, same) refl) in
          rw
            (
              checked,
              select_goroutines_kept req.labels labels opts (candidates_for a labels opts req)
                  no_selection a.goroutines goroutines_stay,
            )
            (same_answer cache
              (select_goroutines req.labels labels opts none no_selection a.goroutines) _
              (select_goroutines-system req.labels labels opts none no_selection a.goroutines) h)

response_of-queried :
    (s : Session) (r : Result ComputeError (Response × Option InvariantReach))
    → response_of (queried s r) ≡ as_answer (without_cache r)
unfolding response_of as_answer
response_of-queried s (ok r) = refl
response_of-queried s (err e) = refl
response_of-queried s stuck = refl

-- On a session over a graph whose cache holds what the traversals would give, Query, which looks
-- only at the goroutines that the label index names, gives the response or the error that
-- ComputeFromAnalysis gives on the same analysis.
pub query_answers :
    (a : Analysis) (labels : List (ℕ × Labels)) (diag : Diagnostics) (opts : Options)
    (c : InvariantReach) (req : Request) (g : Graph)
    → a.graph ≡ some g
    → IsCacheOf g a (some c)
    → response_of (query (record (new_session a labels diag opts) { cache = c }) req)
      ≡ as_answer (compute_from_analysis req (some a) labels diag opts)
unfolding query new_session compute_from_analysis
query_answers a labels diag opts c req g graph h =
    response_of-queried (record (new_session a labels diag opts) { cache = c }) _
    ∙ ap as_answer (compute_with_candidates req a labels diag opts g (some c) graph h)

queried-eq-ok :
    (s : Session) (r : Result ComputeError (Response × Option InvariantReach)) {resp : Response}
    {s' : Session}
    → queried s r ≡ ok (resp, s')
    → (c : Option InvariantReach) × (r ≡ ok (resp, c)) × (cache_after s c ≡ s')
queried-eq-ok s (ok (resp, c)) h = (c, cc, cc)
queried-eq-ok s (err e) h = cc
queried-eq-ok s stuck h = cc

-- A query on a session that is not closed.
query_open :
    (s : Session) (req : Request) (a : Analysis)
    → s.analysis ≡ some a
    → query s req
      ≡ queried s (
          compute_with req
            (some a)
            s.labels
            s.diag
            s.opts
            (some s.cache)
            (candidates_from true [] s.index req.labels))
unfolding query
query_open s req a opened = rw opened refl

-- A query that succeeds leaves the session as it was but for its cache, which again holds what the
-- traversals would give.
pub query_keeps :
    (s : Session) (req : Request) (a : Analysis) (g : Graph) (resp : Response) (s' : Session)
    → s.analysis ≡ some a
    → a.graph ≡ some g
    → IsCacheOf g a (some s.cache)
    → query s req ≡ ok (resp, s')
    → (s' ≡ record s { cache = s'.cache }) × IsCacheOf g a (some s'.cache)
query_keeps s req a g resp s' opened graph h e =
    let (c, computed, left) =
      queried-eq-ok s
        (compute_with req (some a) s.labels s.diag s.opts (some s.cache)
          (candidates_from true [] s.index req.labels))
        (sym (query_open s req a opened) ∙ e) in
    let (_, kept) =
      compute_with_cache req a s.labels s.diag s.opts (some s.cache) _ g resp c graph h computed in
    kept_after c kept left
  where
    kept_after :
        (c : Option InvariantReach)
        → IsCacheOf g a c
        → cache_after s c ≡ s'
        → (s' ≡ record s { cache = s'.cache }) × IsCacheOf g a (some s'.cache)
    kept_after none kept left = rw (sym left) (refl, h)
    kept_after (some c) kept left = rw (sym left) (refl, kept)
