-- ===== src/Session/Parted.antt =====
-- What Exclusive (multibubble.go) and `inspect` (objects.go) report.
use bubblepprof.Common.{ℕ, ◌≡◌, refl, sym, ap, ◌∙◌, ◌⊎◌, List, Option, some, arith}
use mathlib.Core.Path.{subst}
use bubblepprof.Common.Result.{ok, >>=-eq-ok}
use bubblepprof.Graph.{Graph, RootRef}
use bubblepprof.Graph.Types.{Analysis}
use bubblepprof.Graph.Reach.{reachable_from, root_ids}
use bubblepprof.Graph.Correct.{Reachable}
use bubblepprof.Usage.Request.{Request}
use bubblepprof.Usage.Sets.{all_roots}
use bubblepprof.Usage.Overlap.{keep}
use bubblepprof.Session.State.{Session, Choice, selected, walk}
use bubblepprof.Session.Sets.{union}
use bubblepprof.Session.SetOf.{IsSetOf, reachable_from-IsSetOf, union-IsSetOf}
use bubblepprof.Session.Compared.{HeldFor, chosen-IsSetOf, walk-eq-ok}
use bubblepprof.Session.Exclusive.{no_roots, other_roots, Inspection, inspect}
use bubblepprof.Session.Others.{
  chosen_gids, selected-gids, other_systems, other_users, other_roots_lem, keep_same,
}

-- The objects that the global roots hold.
abbrev pub HeldByGlobals : Analysis → Graph → ℕ → Type 0
HeldByGlobals a g = Reachable g (root_ids a.globals.roots)

-- The objects that system goroutines with no chosen id hold, and those that other goroutines hold.
abbrev pub HeldByOtherSystems : Session → Request → Analysis → Graph → ℕ → Type 0
HeldByOtherSystems s req a g =
    Reachable g (root_ids (all_roots (keep (other_systems (chosen_gids s req a)) a.goroutines)))

abbrev pub HeldByOtherUsers : Session → Request → Analysis → Graph → ℕ → Type 0
HeldByOtherUsers s req a g =
    Reachable g (root_ids (all_roots (keep (other_users (chosen_gids s req a)) a.goroutines)))

-- The objects that some root outside the selection holds.
abbrev pub HeldOutside : Session → Request → Analysis → Graph → ℕ → Type 0
HeldOutside s req a g x =
    HeldByGlobals a g x ⊎ (HeldByOtherSystems s req a g x ⊎ HeldByOtherUsers s req a g x)

-- The sets of an inspection.
pub record IsInspection (s : Session) (req : Request) (a : Analysis) (g : Graph) (sets : Inspection)
    : Type 0 where
  pub selected : IsSetOf g (HeldFor s req a g) sets.selected
  pub global : IsSetOf g (HeldByGlobals a g) sets.global
  pub system : IsSetOf g (HeldByOtherSystems s req a g) sets.system
  pub other : IsSetOf g (HeldByOtherUsers s req a g) sets.other
  pub outside : IsSetOf g (HeldOutside s req a g) sets.outside

-- The steps of an inspection that succeeds.
inspect-eq-ok :
    (s : Session) (a : Analysis) (req : Request) (sets : Inspection)
    → inspect s a req ≡ ok sets
    → (c : Choice) × (selected s req a ≡ ok c)
      × (walk a.graph c.roots ≡ ok sets.selected)
      × (walk a.graph a.globals.roots ≡ ok sets.global)
      × (walk a.graph (other_roots c.gids no_roots a.goroutines).system ≡ ok sets.system)
      × (walk a.graph (other_roots c.gids no_roots a.goroutines).other ≡ ok sets.other)
      × (sets.outside ≡ union sets.global (union sets.system sets.other))
unfolding inspect
inspect-eq-ok s a req sets h =
    let (c, ec, h1) = >>=-eq-ok (selected s req a) _ h in
    let (mine, e1, h2) = >>=-eq-ok (walk a.graph c.roots) _ h1 in
    let (global, e2, h3) = >>=-eq-ok (walk a.graph a.globals.roots) _ h2 in
    let (system, e3, h4) =
      >>=-eq-ok (walk a.graph (other_roots c.gids no_roots a.goroutines).system) _ h3 in
    let (other, e4, h5) =
      >>=-eq-ok (walk a.graph (other_roots c.gids no_roots a.goroutines).other) _ h4 in
    (
      c,
      ec,
      e1 ∙ ap ok (ground arith),
      e2 ∙ ap ok (ground arith),
      e3 ∙ ap ok (ground arith),
      e4 ∙ ap ok (ground arith),
      ground arith,
    )

-- A walk gives the objects that its roots hold.
pub walked-IsSetOf :
    (graph : Option Graph) (g : Graph) (roots roots' : List RootRef) (set : List ℕ)
    → graph ≡ some g
    → roots ≡ roots'
    → walk graph roots ≡ ok set
    → IsSetOf g (Reachable g (root_ids roots')) set
walked-IsSetOf graph g roots roots' set e same h =
    subst (IsSetOf g (Reachable g (root_ids roots')))
      (ap (reachable_from (some g)) (sym same) ∙ sym (walk-eq-ok graph g roots set e h))
      (reachable_from-IsSetOf g roots')

pub inspect-IsInspection :
    (s : Session) (a : Analysis) (req : Request) (g : Graph) (sets : Inspection)
    → a.graph ≡ some g
    → inspect s a req ≡ ok sets
    → IsInspection s req a g sets
inspect-IsInspection s a req g sets graph h =
    let (c, ec, e1, e2, e3, e4, e5) = inspect-eq-ok s a req sets h in
    let (system_roots, user_roots) = other_roots_lem c.gids no_roots a.goroutines in
    let gids = λ (x : ℕ). selected-gids s req a c x ec in
    let system =
      walked-IsSetOf a.graph g _ _ sets.system graph
        (system_roots
          ∙ ap all_roots (
              keep_same (other_systems c.gids) (other_systems (chosen_gids s req a)) a.goroutines
                (λ gr. ground (arith, gids gr.goroutine_id))))
        e3 in
    let other =
      walked-IsSetOf a.graph g _ _ sets.other graph
        (user_roots
          ∙ ap all_roots (
              keep_same (other_users c.gids) (other_users (chosen_gids s req a)) a.goroutines
                (λ gr. ground (arith, gids gr.goroutine_id))))
        e4 in
    let global = walked-IsSetOf a.graph g _ _ sets.global graph refl e2 in
    record {
      selected =
          subst (IsSetOf g (HeldFor s req a g)) (sym (walk-eq-ok a.graph g c.roots _ graph e1))
            (chosen-IsSetOf s req a g c ec);
      global = global;
      system = system;
      other = other;
      outside =
          subst (IsSetOf g (HeldOutside s req a g)) (sym e5)
            (union-IsSetOf g _ _ _ _ global (union-IsSetOf g _ _ _ _ system other));
    }
