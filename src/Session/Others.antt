-- ===== src/Session/Others.antt =====
-- Which goroutines and roots `selected` and the loop over the others collect (multibubble.go,
-- objects.go).
use bubblepprof.Common.{
  ℕ, ◌≡◌, refl, sym, ap, ◌∙◌, ◌&&◌, ◌||◌, not, List, [], ◌∷◌, ◌++◌, some, arith, Bool, elem,
  elem-insert, inl, inr, Option-cases, if◌then◌else◌,
}
use mathlib.Core.List.{append-nil, append_assoc}
use bubblepprof.Common.Result.{ok}
use bubblepprof.Graph.Types.{Analysis, GoroutineReachability}
use bubblepprof.Usage.Request.{Request, validate_request}
use bubblepprof.Usage.Sets.{all_roots}
use bubblepprof.Usage.Overlap.{keep}
use bubblepprof.Session.State.{Session, Choice, runs_system, chooses, choose_one, choose, selected}
use bubblepprof.Session.Walked.{chosen}
use bubblepprof.Session.Exclusive.{OtherRoots, add_other_roots, other_roots}

abbrev pub gids_of : List GoroutineReachability → List ℕ
gids_of [] = []
gids_of (gr ∷ rest) = gr.goroutine_id ∷ gids_of rest

choose_one-gids :
    (s : Session) (req : Request) (c : Choice) (gr : GoroutineReachability) (x : ℕ)
    → elem x (choose_one s req c gr).gids
      ≡ (elem x c.gids || elem x (gids_of (keep (chooses s req) (gr ∷ []))))
unfolding choose_one elem
choose_one-gids s req c gr x = ground (arith, elem-insert x gr.goroutine_id c.gids)

elem-gids_of-keep :
    (p : GoroutineReachability → Bool) (gr : GoroutineReachability)
    (rest : List GoroutineReachability) (x : ℕ)
    → elem x (gids_of (keep p (gr ∷ rest)))
      ≡ (elem x (gids_of (keep p (gr ∷ []))) || elem x (gids_of (keep p rest)))
unfolding elem
elem-gids_of-keep p gr rest x = ground arith

choose-gids :
    (s : Session) (req : Request) (c : Choice) (grs : List GoroutineReachability) (x : ℕ)
    → elem x (choose s req c grs).gids
      ≡ (elem x c.gids || elem x (gids_of (keep (chooses s req) grs)))
unfolding choose elem
choose-gids s req c [] x = ground arith
choose-gids s req c (gr ∷ rest) x = ground (
  arith,
  choose-gids s req (choose_one s req c gr) rest x,
  choose_one-gids s req c gr x,
  elem-gids_of-keep (chooses s req) gr rest x,
)

-- The ids of the goroutines that a request chooses.
abbrev pub chosen_gids : Session → Request → Analysis → List ℕ
chosen_gids s req a = gids_of (chosen s req a)

pub selected-gids :
    (s : Session) (req : Request) (a : Analysis) (c : Choice) (x : ℕ)
    → selected s req a ≡ ok c
    → elem x c.gids ≡ elem x (chosen_gids s req a)
unfolding selected elem
selected-gids s req a c x h = elim (Option-cases (validate_request (some req) s.opts)) [
  | inl e ↦
      let same : choose s req (record { roots = []; gids = [] }) a.goroutines ≡ c =
        ground (arith, e) in
      ap (λ (d : Choice). elem x d.gids) (sym same)
      ∙ choose-gids s req (record { roots = []; gids = [] }) a.goroutines x
  | inr (bad, e) ↦ absurd (ground (arith, e))
]

-- The goroutines that are not among some ids, of system goroutines and of others.
abbrev pub other_systems : List ℕ → GoroutineReachability → Bool
other_systems gids gr = not (elem gr.goroutine_id gids) && runs_system gr

abbrev pub other_users : List ℕ → GoroutineReachability → Bool
other_users gids gr = not (elem gr.goroutine_id gids) && not (runs_system gr)

roots-keep :
    (p : GoroutineReachability → Bool) (gr : GoroutineReachability)
    (rest : List GoroutineReachability)
    → all_roots (keep p (gr ∷ rest))
      ≡ (if p gr then gr.roots ++ all_roots (keep p rest) else all_roots (keep p rest))
unfolding all_roots
roots-keep p gr rest = ground arith

pub other_roots_lem :
    (gids : List ℕ) (r : OtherRoots) (grs : List GoroutineReachability)
    → ((other_roots gids r grs).system ≡ r.system ++ all_roots (keep (other_systems gids) grs))
      × ((other_roots gids r grs).other ≡ r.other ++ all_roots (keep (other_users gids) grs))
unfolding other_roots all_roots
other_roots_lem gids r [] = (sym (append-nil r.system), sym (append-nil r.other))
other_roots_lem gids r (gr ∷ rest) = ground (
  arith,
  other_roots_lem gids (add_other_roots gids r gr) rest,
  append_assoc r.system gr.roots (all_roots (keep (other_systems gids) rest)),
  append_assoc r.other gr.roots (all_roots (keep (other_users gids) rest)),
)

pub keep_same :
    (p q : GoroutineReachability → Bool) (grs : List GoroutineReachability)
    → ((gr : GoroutineReachability) → p gr ≡ q gr)
    → keep p grs ≡ keep q grs
keep_same p q [] h = refl
keep_same p q (gr ∷ rest) h = ground (arith, h gr, keep_same p q rest h)
