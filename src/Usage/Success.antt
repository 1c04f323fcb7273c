-- ===== src/Usage/Success.antt =====
-- What a successful computation (internal/memusage/compute.go) went through: its checks passed, and
-- its value is the answer on the goroutines selected.
use bubblepprof.Common.{ℕ, ◌≡◌, refl, sym, List, Option, some, none, arith}
use bubblepprof.Common.Result.{Result, ok, err, stuck, ◌>>=◌}
use bubblepprof.Graph.{Graph}
use mathlib.Core.Path.{subst}
use bubblepprof.Graph.Types.{Analysis}
use bubblepprof.Usage.Request.{Labels, Request, Options, validate_request}
use bubblepprof.Usage.Compute.{
  Diagnostics, ComputeError, Response, Selection, InvariantReach, select_goroutines, no_selection,
  checked_graph, eligible_failure_error, fail_with, answer, compute_with, compute_from_analysis,
}

pub checked_graph-eq-ok :
    (req : Request) (a : Analysis) (diag : Diagnostics) (opts : Options) {a' : Analysis} {g : Graph}
    → checked_graph req (some a) diag opts ≡ ok (a', g)
    → (a ≡ a') × (a.graph ≡ some g) × (validate_request (some req) opts ≡ none)
unfolding checked_graph
checked_graph-eq-ok req a diag opts h = ground arith

fail_with-eq-ok {ℓ} :
    {B : Type ℓ} (failure : Option ComputeError) (b : B) {r : B}
    → ◌>>=◌ (fail_with failure) (λ _. ok b) ≡ ok r
    → (failure ≡ none) × (b ≡ r)
fail_with-eq-ok none b h = (refl, cc)
fail_with-eq-ok (some e) b h = cc

module _ (req : Request) (a : Analysis) (by_gid : List (ℕ × Labels)) (diag : Diagnostics)
    (opts : Options) (cache : Option InvariantReach) (candidates : Option (List ℕ)) where
  -- What the loop over the goroutines collects.
  abbrev pub selected : Selection
  selected = select_goroutines req.labels by_gid opts candidates no_selection a.goroutines

  -- A computation succeeds on a valid request, over a graph, with no failure that counts.
  pub compute_with-eq-ok :
      (r : Response × Option InvariantReach)
      → compute_with req (some a) by_gid diag opts cache candidates ≡ ok r
      → (g : Graph) × (a.graph ≡ some g)
        × (validate_request (some req) opts ≡ none)
        × (eligible_failure_error diag selected.known selected.eligible ≡ none)
        × (answer req opts cache a g selected ≡ r)
        × (checked_graph req (some a) diag opts ≡ ok (a, g))
  unfolding compute_with
  compute_with-eq-ok r h = parts (checked_graph req (some a) diag opts) refl h
    where
      parts :
          (c : Result ComputeError (Analysis × Graph))
          → checked_graph req (some a) diag opts ≡ c
          → ◌≡◌ {A = Result ComputeError (Response × Option InvariantReach)}
              (c >>= λ (a', g).
                fail_with (
                  eligible_failure_error diag
                    (select_goroutines req.labels by_gid opts candidates no_selection
                      a'.goroutines).known
                    (select_goroutines req.labels by_gid opts candidates no_selection
                      a'.goroutines).eligible)
                >>= λ _. ok (
                    answer req opts cache a' g (
                      select_goroutines req.labels by_gid opts candidates no_selection
                        a'.goroutines)))
              (ok r)
          → (g : Graph) × (a.graph ≡ some g)
            × (validate_request (some req) opts ≡ none)
            × (eligible_failure_error diag selected.known selected.eligible ≡ none)
            × (answer req opts cache a g selected ≡ r)
            × (checked_graph req (some a) diag opts ≡ ok (a, g))
      parts (err e) c h = cc
      parts stuck c h = cc
      parts (ok (a', g)) c h =
          let (same, graph, valid) = checked_graph-eq-ok req a diag opts c in
          let (clear, result) = fail_with-eq-ok _ _ h in
          (
            g,
            graph,
            valid,
            rw same clear,
            rw same result,
            subst (λ x. checked_graph req (some a) diag opts ≡ ok (x, g)) (sym same) c,
          )

first-ok :
    (r : Result ComputeError (Response × Option InvariantReach)) {resp : Response}
    → (r >>= λ (p, _). ok p) ≡ ok resp
    → (c : Option InvariantReach) × (r ≡ ok (resp, c))
first-ok (ok (p, c)) h = (c, cc)
first-ok (err e) h = cc
first-ok stuck h = cc

pub compute_from_analysis-eq-ok :
    (req : Request) (a : Analysis) (by_gid : List (ℕ × Labels)) (diag : Diagnostics)
    (opts : Options) (resp : Response)
    → compute_from_analysis req (some a) by_gid diag opts ≡ ok resp
    → (c : Option InvariantReach) × (compute_with req (some a) by_gid diag opts none none
        ≡ ok (resp, c))
unfolding compute_from_analysis
compute_from_analysis-eq-ok req a by_gid diag opts resp h =
    first-ok (compute_with req (some a) by_gid diag opts none none) h
