-- ===== src/Usage/Response.antt =====
-- The response of ComputeFromAnalysis (internal/memusage/compute.go) against walks of the graph.
use bubblepprof.Common.{
  ℕ, ◌≤◌, ◌≡◌, refl, sym, ap, ◌∙◌, ◌↔◌, ◌⊎◌, inl, inr, true, false, Bool-cases, List, [], Option,
  some, none, arith, length, elem, elem-nil, IsDistinct, ◌==◌, max_uint64,
}
use bubblepprof.Common.Result.{ok}
use bubblepprof.Graph.{Graph}
use mathlib.Core.Path.{subst}
use bubblepprof.Graph.Types.{Analysis, GoroutineReachability}
use bubblepprof.Graph.Reach.{reachable_from, root_ids}
use bubblepprof.Graph.Correct.{
  Reachable-nil, Reachable, reachable_from_correct, reachable_from-IsDistinct,
}
use bubblepprof.Graph.Build.Laws.{sum_sizes}
use bubblepprof.Usage.Request.{Labels, Request, Options}
use bubblepprof.Usage.Sets.{all_roots, reachable_from_goroutines}
use bubblepprof.Usage.Totals.{Counts, object_set_bytes_exact, intersect_count_bytes_exact}
use bubblepprof.Usage.Overlap.{
  keep, length-zero, is_system_goroutine, held, select_goroutines-matched, select_goroutines-system,
  elem-reachable_from_goroutines, reachable_from_goroutines-IsDistinct,
}
use bubblepprof.Usage.Success.{selected, compute_with-eq-ok, compute_from_analysis-eq-ok}
use bubblepprof.Usage.Compute.{
  Diagnostics, Response, Selection, InvariantReach, is_matched, no_selection, overlap_sets, respond,
  answer, compute_from_analysis,
}

Counts-iff :
    (g : Graph) {P Q : ℕ → Type 0} {n bytes : ℕ}
    → ((x : ℕ) → P x ↔ Q x)
    → Counts g P n bytes
    → Counts g Q n bytes
Counts-iff g f c = record {
  ids = c.ids;
  distinct = c.distinct;
  exact = λ x. (λ m. (f x).0 ((c.exact x).0 m), λ q. (c.exact x).1 ((f x).1 q));
  count = c.count;
  total = c.total;
}

-- Held by a system goroutine, where those are not matched like others.
abbrev pub HeldBySystem : Graph → Options → List GoroutineReachability → ℕ → Type 0
HeldBySystem g opts systems x =
    (opts.include_system_goroutines ≡ false) × Reachable g (held systems) x

module _ (g : Graph) (a : Analysis) (opts : Options) (systems : List GoroutineReachability)
    (union : List ℕ) where
  -- The sets that the union is intersected with, when there is no cache.
  abbrev sets : List ℕ × List ℕ × Option InvariantReach
  sets = overlap_sets g a opts systems (length union == 0) none

  -- Intersecting with the skipped set changes nothing, since the union is empty then.
  abbrev Agrees : List ℕ → (ℕ → Type 0) → Type 0
  Agrees set P =
      IsDistinct set
      × ((x : ℕ) → ((elem x union ≡ true) × (elem x set ≡ true)) ↔ ((elem x union ≡ true) × P x))

  empty_agrees : (P : ℕ → Type 0) → (length union == 0) ≡ true → Agrees [] P
  empty_agrees P e = (
    tt,
    λ x. (λ (m, n). cc (elem-nil x), λ (m, p). cc (elem-nil x, ap (elem x) (length-zero union e))),
  )

  skipped : (length union == 0) ≡ true → (sets.0 ≡ []) × (sets.1 ≡ [])
  unfolding overlap_sets
  skipped e = ground arith

  globals_value : (length union == 0) ≡ false → sets.0 ≡ reachable_from (some g) a.globals.roots
  unfolding overlap_sets
  globals_value e = ground arith

  pub globals_agree : Agrees sets.0 (Reachable g (root_ids a.globals.roots))
  globals_agree = elim (Bool-cases (length union == 0)) [
    | inl e ↦ rw (skipped e).0 (empty_agrees (Reachable g (root_ids a.globals.roots)) e)
    | inr e ↦
        let exact = reachable_from_correct g a.globals.roots in
        rw (globals_value e) (
          reachable_from-IsDistinct g a.globals.roots,
          λ x. (λ (m, n). (m, (exact x).0 n), λ (m, p). (m, (exact x).1 p)),
        )
  ]

  systems_value :
      (length union == 0) ≡ false
      → opts.include_system_goroutines ≡ false
      → (length systems == 0) ≡ false
      → sets.1 ≡ reachable_from_goroutines (some g) systems
  unfolding overlap_sets
  systems_value e i n = ground arith

  systems_none :
      (opts.include_system_goroutines ≡ true) ⊎ ((length systems == 0) ≡ true) → sets.1 ≡ []
  unfolding overlap_sets
  systems_none c = ground arith

  none_agrees : (P : ℕ → Type 0) → ((x : ℕ) → ¬ P x) → Agrees [] P
  none_agrees P h = (tt, λ x. (λ (m, n). cc (elem-nil x), λ (m, p). absurd (h x p)))

  pub systems_agree : Agrees sets.1 (HeldBySystem g opts systems)
  unfolding all_roots
  systems_agree = elim (Bool-cases (length union == 0)) [
    | inl e ↦ rw (skipped e).1 (empty_agrees (HeldBySystem g opts systems) e)
    | inr e ↦ elim (Bool-cases opts.include_system_goroutines) [
      | inl i ↦ rw (systems_none (inl i)) (none_agrees (HeldBySystem g opts systems) (λ x p. cc))
      | inr i ↦ elim (Bool-cases (length systems == 0)) [
        | inl z ↦ rw (systems_none (inr z)) (
            none_agrees (HeldBySystem g opts systems)
              (λ x p. Reachable-nil (rw (length-zero systems z) at p.1)))
        | inr n ↦
            let exact = elem-reachable_from_goroutines g systems in
            rw (systems_value e i n) (
              reachable_from_goroutines-IsDistinct g systems,
              λ x. (λ (m, k). (m, (i, (exact x).0 k)), λ (m, p). (m, (exact x).1 p.1)),
            )
      ]
    ]
  ]

  -- The response over the three sets.
  pub respond_exact :
      (labels : Labels) (matched : ℕ) (P : ℕ → Type 0)
      → sum_sizes g.objects ≤ max_uint64
      → IsDistinct union
      → ((x : ℕ) → (elem x union ≡ true) ↔ P x)
      → (resp : Response) → resp ≡ respond g labels matched union sets.0 sets.1
      → (resp.matched_goroutines ≡ matched)
        × Counts g P resp.reachable_objects resp.reachable_bytes
        × Counts g
            (λ x. P x × Reachable g (root_ids a.globals.roots) x)
            resp.global_overlap_objects
            resp.global_overlap_bytes
        × Counts g
            (λ x. P x × HeldBySystem g opts systems x)
            resp.system_overlap_objects
            resp.system_overlap_bytes
  unfolding respond
  respond_exact labels matched P fits distinct exact resp e =
      let (dg, ag) = globals_agree in
      let (ds, as') = systems_agree in
      let into = λ (x : ℕ) (Q : Type 0).
        (let f : ((elem x union ≡ true) × Q) ↔ (P x × Q) =
            (λ (m, q). ((exact x).0 m, q), λ (p, q). ((exact x).1 p, q)) in
          f) in
      rw e (
        refl,
        record {
          ids = union;
          distinct = distinct;
          exact = exact;
          count = refl;
          total = object_set_bytes_exact g union fits distinct;
        },
        Counts-iff g (λ x. (λ q. (into x _).0 ((ag x).0 q), λ q. (ag x).1 ((into x _).1 q)))
            (intersect_count_bytes_exact g union sets.0 fits distinct dg),
        Counts-iff g (λ x. (λ q. (into x _).0 ((as' x).0 q), λ q. (as' x).1 ((into x _).1 q)))
            (intersect_count_bytes_exact g union sets.1 fits distinct ds),
      )

answer_value :
    (req : Request) (opts : Options) (a : Analysis) (g : Graph) (s : Selection)
    (matched systems : List GoroutineReachability)
    → s.matched ≡ matched
    → s.system ≡ systems
    → (answer req opts none a g s).0
      ≡ respond g req.labels
          (length matched)
          (reachable_from_goroutines (some g) matched)
          (sets g a opts systems (reachable_from_goroutines (some g) matched)).0
          (sets g a opts systems (reachable_from_goroutines (some g) matched)).1
unfolding answer
answer_value req opts a g s matched systems m e = rw (m, e)

-- The goroutines that the request matches.
abbrev pub matching : Request → Analysis → List (ℕ × Labels) → Options → List GoroutineReachability
matching req a by_gid opts = keep (is_matched req.labels by_gid opts none) a.goroutines

-- A successful response counts exactly these objects, each once, with the exact sum of their sizes,
-- for a graph whose sizes sum up within uint64: the goroutines matched; the objects reachable from
-- the roots of those goroutines; of these, the objects reachable from the global roots too; and, of
-- these, the objects held by system or background goroutines too, unless such goroutines are
-- matched like others, when there are none.
pub response_exact :
    (req : Request) (a : Analysis) (by_gid : List (ℕ × Labels)) (diag : Diagnostics)
    (opts : Options) (resp : Response) (g : Graph)
    → compute_from_analysis req (some a) by_gid diag opts ≡ ok resp
    → a.graph ≡ some g
    → sum_sizes g.objects ≤ max_uint64
    → (resp.matched_goroutines ≡ length (matching req a by_gid opts))
      × Counts g
          (Reachable g (held (matching req a by_gid opts)))
          resp.reachable_objects
          resp.reachable_bytes
      × Counts g
          (λ x.
            Reachable g (held (matching req a by_gid opts)) x
            × Reachable g (root_ids a.globals.roots) x)
          resp.global_overlap_objects
          resp.global_overlap_bytes
      × Counts g
          (λ x.
            Reachable g (held (matching req a by_gid opts)) x
            × HeldBySystem g opts (keep is_system_goroutine a.goroutines) x)
          resp.system_overlap_objects
          resp.system_overlap_bytes
response_exact req a by_gid diag opts resp g h graph fits =
    let (c, e) = compute_from_analysis-eq-ok req a by_gid diag opts resp h in
    let (g', graph', _, _, value, _) =
      compute_with-eq-ok req a by_gid diag opts none none (resp, c) e in
    let same : g' ≡ g = ground arith in
    let value' =
      subst (λ x. answer req opts none a x (selected req a by_gid diag opts none none) ≡ (resp, c))
        same value in
    respond_exact g a opts (keep is_system_goroutine a.goroutines)
      (reachable_from_goroutines (some g) (matching req a by_gid opts)) req.labels
      (length (matching req a by_gid opts)) (Reachable g (held (matching req a by_gid opts))) fits
      (reachable_from_goroutines-IsDistinct g (matching req a by_gid opts))
      (elem-reachable_from_goroutines g (matching req a by_gid opts)) resp
      (sym (ap (λ r. r.0) value')
        ∙ answer_value req opts a g (selected req a by_gid diag opts none none)
            (matching req a by_gid opts) (keep is_system_goroutine a.goroutines)
            (select_goroutines-matched req.labels by_gid opts none no_selection a.goroutines)
            (select_goroutines-system req.labels by_gid opts none no_selection a.goroutines))
