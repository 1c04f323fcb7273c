-- ===== src/Usage/Overlap.antt =====
-- What the response of ComputeFromAnalysis (internal/memusage/compute.go) counts.
use bubblepprof.Common.{
  ℕ, zero, suc, ◌≡◌, refl, sym, ap, ◌∙◌, ◌↔◌, inl, inr, true, Bool, Bool-cases, List, [], ◌∷◌, ◌++◌,
  Option, some, arith, length, elem, IsDistinct, ◌==◌, ◌||◌, if◌then◌else◌,
}
use bubblepprof.Graph.{Graph}
use bubblepprof.Graph.Types.{GoroutineReachability}
use bubblepprof.Graph.Reach.{reachable_from, root_ids, drain, no_walk, search_from, offer_all}
use bubblepprof.Graph.Correct.{Reachable, reachable_from_correct, reachable_from-IsDistinct}
use bubblepprof.Usage.Request.{Labels, Options}
use bubblepprof.Usage.Sets.{all_roots, reachable_from_goroutines}
use bubblepprof.Usage.Compute.{Selection, is_matched, select_goroutine, select_goroutines}
use mathlib.Core.List.{append-nil, append_assoc}

-- The goroutines that a test keeps, in their order.
abbrev pub keep :
    (GoroutineReachability → Bool) → List GoroutineReachability → List GoroutineReachability
keep p [] = []
keep p (gr ∷ rest) = if p gr then gr ∷ keep p rest else keep p rest

abbrev pub is_system_goroutine : GoroutineReachability → Bool
is_system_goroutine gr = gr.is_system || gr.is_background

module _ (want : Labels) (by_gid : List (ℕ × Labels)) (opts : Options)
    (candidates : Option (List ℕ)) where
  select_goroutine-matched :
      (s : Selection) (gr : GoroutineReachability)
      → (select_goroutine want by_gid opts candidates s gr).matched
        ≡ s.matched ++ keep (is_matched want by_gid opts candidates) (gr ∷ [])
  unfolding select_goroutine is_matched
  select_goroutine-matched s gr = ground (arith, append-nil s.matched)

  select_goroutine-system :
      (s : Selection) (gr : GoroutineReachability)
      → (select_goroutine want by_gid opts candidates s gr).system
        ≡ s.system ++ keep is_system_goroutine (gr ∷ [])
  unfolding select_goroutine
  select_goroutine-system s gr = ground (arith, append-nil s.system)

keep-cons :
    (p : GoroutineReachability → Bool) (gr : GoroutineReachability)
    (rest : List GoroutineReachability)
    → keep p (gr ∷ []) ++ keep p rest ≡ keep p (gr ∷ rest)
keep-cons p gr rest = ground arith

module _ (want : Labels) (by_gid : List (ℕ × Labels)) (opts : Options)
    (candidates : Option (List ℕ)) where
  pub select_goroutines-matched :
      (s : Selection) (grs : List GoroutineReachability)
      → (select_goroutines want by_gid opts candidates s grs).matched
        ≡ s.matched ++ keep (is_matched want by_gid opts candidates) grs
  unfolding select_goroutines
  select_goroutines-matched s [] = sym (append-nil s.matched)
  select_goroutines-matched s (gr ∷ rest) =
      select_goroutines-matched (select_goroutine want by_gid opts candidates s gr) rest
      ∙ rw (select_goroutine-matched want by_gid opts candidates s gr, append_assoc, keep-cons)

  pub select_goroutines-system :
      (s : Selection) (grs : List GoroutineReachability)
      → (select_goroutines want by_gid opts candidates s grs).system
        ≡ s.system ++ keep is_system_goroutine grs
  unfolding select_goroutines
  select_goroutines-system s [] = sym (append-nil s.system)
  select_goroutines-system s (gr ∷ rest) =
      select_goroutines-system (select_goroutine want by_gid opts candidates s gr) rest
      ∙ rw (select_goroutine-system want by_gid opts candidates s gr, append_assoc, keep-cons)

-- The ids of the objects that the goroutines' stacks hold.
abbrev pub held : List GoroutineReachability → List ℕ
held grs = root_ids (all_roots grs)

drain-no_walk : (n : ℕ) (g : Graph) → drain n g no_walk ≡ no_walk
unfolding drain
drain-no_walk zero g = refl
drain-no_walk (suc n) g = refl

reachable_from-nil : (g : Graph) → reachable_from (some g) [] ≡ []
unfolding reachable_from search_from offer_all
reachable_from-nil g = ap (λ w. w.reachable) (drain-no_walk (length g.objects) g)

pub length-zero {ℓ} : {A : Type ℓ} (xs : List A) → (length xs == 0) ≡ true → xs ≡ []
length-zero [] h = refl
length-zero (x ∷ xs) h = absurd (ground arith)

-- The early returns of reachableFromGoroutines agree with the search.
pub reachable_from_goroutines-eq :
    (g : Graph) (grs : List GoroutineReachability)
    → reachable_from_goroutines (some g) grs ≡ reachable_from (some g) (all_roots grs)
unfolding reachable_from_goroutines
reachable_from_goroutines-eq g grs = elim (Bool-cases (length grs == 0)) [
  | inl e ↦ rw (e, length-zero grs e) (unfold all_roots in sym (reachable_from-nil g))
  | inr e ↦ elim (Bool-cases (length (all_roots grs) == 0)) [
    | inl e' ↦ rw (e, e', length-zero (all_roots grs) e') (sym (reachable_from-nil g))
    | inr e' ↦ rw (e, e')
  ]
]

pub elem-reachable_from_goroutines :
    (g : Graph) (grs : List GoroutineReachability) (a : ℕ)
    → (elem a (reachable_from_goroutines (some g) grs) ≡ true) ↔ Reachable g (held grs) a
elem-reachable_from_goroutines g grs a =
    rw (reachable_from_goroutines-eq g grs) (reachable_from_correct g (all_roots grs) a)

pub reachable_from_goroutines-IsDistinct :
    (g : Graph) (grs : List GoroutineReachability)
    → IsDistinct (reachable_from_goroutines (some g) grs)
reachable_from_goroutines-IsDistinct g grs =
    rw (reachable_from_goroutines-eq g grs) (reachable_from-IsDistinct g (all_roots grs))
