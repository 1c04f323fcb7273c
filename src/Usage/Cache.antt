-- ===== src/Usage/Cache.antt =====
-- The cache of the reach sets that do not depend on the request (invariantReach in
-- internal/memusage/compute.go).
use bubblepprof.Common.{
  ℕ, ◌≡◌, refl, sym, ap, ◌∙◌, ◌⊎◌, Bool, List, Option, some, none, arith, length, ◌==◌,
}
use mathlib.Core.Path.{subst}
use bubblepprof.Common.Result.{ok}
use bubblepprof.Graph.{Graph}
use bubblepprof.Graph.Types.{Analysis}
use bubblepprof.Graph.Reach.{reachable_from}
use bubblepprof.Usage.Request.{Labels, Request, Options}
use bubblepprof.Usage.Sets.{reachable_from_goroutines}
use bubblepprof.Usage.Overlap.{keep, is_system_goroutine, select_goroutines-system}
use bubblepprof.Usage.Compute.{
  Diagnostics, Response, Selection, InvariantReach, overlap_sets, checked_graph,
  eligible_failure_error, answer, compute_with, no_selection,
}
use bubblepprof.Usage.Success.{selected, compute_with-eq-ok}

-- What the cache holds is what the traversals would give.
abbrev pub IsCacheOf : Graph → Analysis → Option InvariantReach → Type 0
IsCacheOf g a none = Unit {0}
IsCacheOf g a (some c) =
    ((c.global ≡ none) ⊎ (c.global ≡ some (reachable_from (some g) a.globals.roots)))
    × ((c.system ≡ none)
        ⊎ (c.system
            ≡ some (reachable_from_goroutines (some g) (keep is_system_goroutine a.goroutines))))

module _ (g : Graph) (a : Analysis) (opts : Options) where
  overlap_sets-cache :
      (empty : Bool) (cache : Option InvariantReach)
      → IsCacheOf g a cache
      → ((overlap_sets g a opts (keep is_system_goroutine a.goroutines) empty cache).0
          ≡ (overlap_sets g a opts (keep is_system_goroutine a.goroutines) empty none).0)
        × ((overlap_sets g a opts (keep is_system_goroutine a.goroutines) empty cache).1
            ≡ (overlap_sets g a opts (keep is_system_goroutine a.goroutines) empty none).1)
        × IsCacheOf g a
            (overlap_sets g a opts (keep is_system_goroutine a.goroutines) empty cache).2
  unfolding overlap_sets
  overlap_sets-cache empty none h = (refl, refl, ground arith)
  overlap_sets-cache empty (some c) h = (ground arith, ground arith, ground arith)

pub answer-cache :
    (req : Request) (opts : Options) (cache : Option InvariantReach) (a : Analysis) (g : Graph)
    (s : Selection)
    → s.system ≡ keep is_system_goroutine a.goroutines
    → IsCacheOf g a cache
    → ((answer req opts cache a g s).0 ≡ (answer req opts none a g s).0)
      × IsCacheOf g a (answer req opts cache a g s).1
unfolding answer
answer-cache req opts cache a g s e h =
    let (globals, systems, kept) =
      overlap_sets-cache g a opts (length (reachable_from_goroutines (some g) s.matched) == 0) cache
        h in
    rw e (rw (globals, systems) refl, kept)

pub compute_with_ok :
    (req : Request) (a : Analysis) (by_gid : List (ℕ × Labels)) (diag : Diagnostics)
    (opts : Options) (cache : Option InvariantReach) (candidates : Option (List ℕ)) (g : Graph)
    → checked_graph req (some a) diag opts ≡ ok (a, g)
    → eligible_failure_error diag
        (selected req a by_gid diag opts cache candidates).known
        (selected req a by_gid diag opts cache candidates).eligible
      ≡ none
    → compute_with req (some a) by_gid diag opts cache candidates
      ≡ ok (answer req opts cache a g (selected req a by_gid diag opts cache candidates))
unfolding compute_with
compute_with_ok req a by_gid diag opts cache candidates g checked clear = rw (checked, clear)

-- With a cache that holds what the traversals would give, a computation that succeeds gives the
-- response that it gives without a cache, and leaves such a cache.
pub compute_with_cache :
    (req : Request) (a : Analysis) (by_gid : List (ℕ × Labels)) (diag : Diagnostics)
    (opts : Options) (cache : Option InvariantReach) (candidates : Option (List ℕ)) (g : Graph)
    (resp : Response) (cache' : Option InvariantReach)
    → a.graph ≡ some g
    → IsCacheOf g a cache
    → compute_with req (some a) by_gid diag opts cache candidates ≡ ok (resp, cache')
    → ((c : Option InvariantReach) × (compute_with req (some a) by_gid diag opts none candidates
          ≡ ok (resp, c)))
      × IsCacheOf g a cache'
compute_with_cache req a by_gid diag opts cache candidates g resp cache' graph h e =
    let (g', graph', _, clear, value, checked) =
      compute_with-eq-ok req a by_gid diag opts cache candidates (resp, cache') e in
    let same : g ≡ g' = ground arith in
    let (equal, kept) =
      answer-cache req opts cache a g' (selected req a by_gid diag opts cache candidates)
        (select_goroutines-system req.labels by_gid opts candidates no_selection a.goroutines)
        (subst (λ x. IsCacheOf x a cache) same h) in
    (
      (
        (answer req opts none a g' (selected req a by_gid diag opts none candidates)).1,
        compute_with_ok req a by_gid diag opts none candidates g' checked clear
            ∙ ap
                (λ r. ok (
                  r,
                  (answer req opts none a g' (selected req a by_gid diag opts none candidates)).1,
                ))
                (sym equal ∙ ap (λ r. r.0) value),
      ),
      subst (λ x. IsCacheOf x a cache') (sym same)
          (subst (λ r. IsCacheOf g' a r) (ap (λ r. r.1) value) kept),
    )
