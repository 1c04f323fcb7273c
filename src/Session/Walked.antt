-- ===== src/Session/Walked.antt =====
-- What the checks, the selection and the walk of multibubble.go give.
use bubblepprof.Common.{
  ℕ, ◌≤◌, ◌≡◌, refl, sym, ap, ◌∙◌, List, [], ◌∷◌, ◌++◌, some, arith, elem, inl, inr, Option-cases,
  max_uint64, Bool,
}
use mathlib.Core.List.{append-nil, append_assoc}
use bubblepprof.Common.Result.{ok}
use bubblepprof.Graph.{Graph, RootRef}
use bubblepprof.Graph.Build.Laws.{sum_sizes}
use bubblepprof.Graph.Types.{Analysis, GoroutineReachability}
use bubblepprof.Graph.Reach.{reachable_from}
use bubblepprof.Graph.Correct.{reachable_from_correct, reachable_from-IsDistinct, Reachable-lt}
use bubblepprof.Usage.Request.{Request, validate_request}
use bubblepprof.Usage.Sets.{all_roots}
use bubblepprof.Usage.Overlap.{keep}
use bubblepprof.Usage.Totals.{bytes_in-le}
use bubblepprof.Session.State.{
  Session, Choice, ready, chooses, choose_one, choose, selected, walk, measure,
}
use bubblepprof.Session.Splits.{IsObjectSet}
use bubblepprof.Session.Measured.{measure_exact, measure_of}

pub ready-eq-ok : (s : Session) (a : Analysis) → ready s ≡ ok a → s.analysis ≡ some a
unfolding ready
ready-eq-ok s a h = elim (Option-cases s.analysis) [
  | inl e ↦ ground (arith, e)
  | inr (b, e) ↦ ground (arith, e)
]

-- The set of a walk, which is that of ReachableFrom.
pub walk_lem :
    (g : Graph) (roots : List RootRef) → walk (some g) roots ≡ ok (reachable_from (some g) roots)
unfolding walk reachable_from
walk_lem g roots = refl

pub walked-IsObjectSet :
    (g : Graph) (roots : List RootRef) → IsObjectSet g (reachable_from (some g) roots)
walked-IsObjectSet g roots = (
  reachable_from-IsDistinct g roots,
  λ a m. Reachable-lt ((reachable_from_correct g roots a).0 m),
)

-- The goroutines that a request chooses.
abbrev pub chosen : Session → Request → Analysis → List GoroutineReachability
chosen s req a = keep (chooses s req) a.goroutines

abbrev pub gid_is : ℕ → GoroutineReachability → Bool
gid_is x gr = elem x (gr.goroutine_id ∷ [])

choose_one-roots :
    (s : Session) (req : Request) (c : Choice) (gr : GoroutineReachability)
    → (choose_one s req c gr).roots ≡ c.roots ++ all_roots (keep (chooses s req) (gr ∷ []))
unfolding choose_one all_roots
choose_one-roots s req c gr = ground (arith, append-nil c.roots, append-nil gr.roots)

all_roots-keep :
    (p : GoroutineReachability → Bool) (gr : GoroutineReachability)
    (rest : List GoroutineReachability)
    → all_roots (keep p (gr ∷ rest)) ≡ all_roots (keep p (gr ∷ [])) ++ all_roots (keep p rest)
unfolding all_roots
all_roots-keep p gr rest = ground (arith, append-nil gr.roots)

choose-roots :
    (s : Session) (req : Request) (c : Choice) (grs : List GoroutineReachability)
    → (choose s req c grs).roots ≡ c.roots ++ all_roots (keep (chooses s req) grs)
unfolding choose all_roots
choose-roots s req c [] = sym (append-nil c.roots)
choose-roots s req c (gr ∷ rest) =
    choose-roots s req (choose_one s req c gr) rest
    ∙ ap (λ (rs : List RootRef). rs ++ all_roots (keep (chooses s req) rest))
        (choose_one-roots s req c gr)
    ∙ append_assoc c.roots (all_roots (keep (chooses s req) (gr ∷ [])))
        (all_roots (keep (chooses s req) rest))
    ∙ ap (λ (rs : List RootRef). c.roots ++ rs) (sym (all_roots-keep (chooses s req) gr rest))

pub selected-eq-ok :
    (s : Session) (req : Request) (a : Analysis) (c : Choice)
    → selected s req a ≡ ok c
    → c.roots ≡ all_roots (chosen s req a)
unfolding selected
selected-eq-ok s req a c h = elim (Option-cases (validate_request (some req) s.opts)) [
  | inl e ↦
      let same : choose s req (record { roots = []; gids = [] }) a.goroutines ≡ c =
        ground (arith, e) in
      ap (λ (d : Choice). d.roots) (sym same)
      ∙ choose-roots s req (record { roots = []; gids = [] }) a.goroutines
  | inr (bad, e) ↦ absurd (ground (arith, e))
]

-- A set of objects is measured without an error where the graph's sizes sum up within uint64.
pub measure_fits :
    (g : Graph) (ids : List ℕ)
    → IsObjectSet g ids
    → sum_sizes g.objects ≤ max_uint64
    → measure (some g) ids ≡ ok (measure_of g ids)
measure_fits g ids d fits = measure_exact g ids d ∙ ground (arith, bytes_in-le g.objects 0 ids)
