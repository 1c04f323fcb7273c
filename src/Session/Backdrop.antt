-- ===== src/Session/Backdrop.antt =====
-- The sets that the rows of Top (multibubble.go) share, over the goroutines of the analysis.
use bubblepprof.Common.{
  ℕ, ◌≡◌, ◌≢◌, ◌↔◌, ◌⊎◌, refl, sym, ap, ◌∙◌, List, [], ◌∷◌, some, arith, true, ltb, elem, length,
  Bool-cases, Option-cases, inl, inr, Text, lookup, value_at, update_at-IsKeyed, IsKeyed,
}
use mathlib.Core.Path.{subst}
use bubblepprof.Common.Result.{ok, >>=-eq-ok}
use bubblepprof.Graph.{Graph}
use bubblepprof.Graph.Types.{Analysis, GoroutineReachability}
use bubblepprof.Graph.Reach.{root_ids, reachable_from}
use bubblepprof.Graph.Correct.{Reachable, reachable_from_correct}
use bubblepprof.Usage.Sets.{all_roots}
use bubblepprof.Usage.Overlap.{keep}
use bubblepprof.Session.State.{Session, is_excluded, walk}
use bubblepprof.Session.Sets.{union}
use bubblepprof.Session.SetOf.{IsSetOf, union-IsSetOf}
use bubblepprof.Session.Parted.{HeldByGlobals, walked-IsSetOf}
use bubblepprof.Session.Top.{
  Grouping, no_grouping, no_group, join, group_of, leave_ungrouped, add_goroutine, add_goroutines,
  count_groups, Backdrop, backdrop,
}
use bubblepprof.Session.Grouped.{in_group, in_system, in_ungrouped, group_at, add_goroutines-Adds}
use bubblepprof.Session.Hits.{
  count_at, reaches, hits, hits_split, hits_beside-pos, pos-hits_beside, count_groups_lem,
}

add_goroutine-IsKeyed :
    (s : Session) (by : Text) (t : Grouping) (gr : GoroutineReachability)
    → IsKeyed t.groups
    → IsKeyed (add_goroutine s by t gr).groups
unfolding add_goroutine leave_ungrouped
add_goroutine-IsKeyed s by t gr h = elim (Bool-cases (is_excluded s.opts gr)) [
  | inl e ↦ rw e h
  | inr e ↦ elim (Option-cases (group_of s by gr)) [
    | inl n ↦ rw (e, n) h
    | inr (v, n) ↦ rw (e, n) (update_at-IsKeyed no_group (join gr) v t.groups h)
  ]
]

pub add_goroutines-IsKeyed :
    (s : Session) (by : Text) (t : Grouping) (grs : List GoroutineReachability)
    → IsKeyed t.groups
    → IsKeyed (add_goroutines s by t grs).groups
unfolding add_goroutines
add_goroutines-IsKeyed s by t [] h = h
add_goroutines-IsKeyed s by t (gr ∷ rest) h =
    add_goroutines-IsKeyed s by (add_goroutine s by t gr) rest (add_goroutine-IsKeyed s by t gr h)

-- The objects that the goroutines of one group hold, and those that another group holds.
abbrev pub HeldInGroup : Session → Text → Analysis → Graph → Text → ℕ → Type 0
HeldInGroup s by a g value =
    Reachable g (root_ids (all_roots (keep (in_group s by value) a.goroutines)))

abbrev pub HeldBeside : Session → Text → Analysis → Graph → Text → ℕ → Type 0
HeldBeside s by a g value x = (w : Text) × (w ≢ value) × HeldInGroup s by a g w x

abbrev pub HeldBySystems : Session → Text → Analysis → Graph → ℕ → Type 0
HeldBySystems s by a g = Reachable g (root_ids (all_roots (keep (in_system s by) a.goroutines)))

abbrev pub HeldByUngrouped : Session → Text → Analysis → Graph → ℕ → Type 0
HeldByUngrouped s by a g =
    Reachable g (root_ids (all_roots (keep (in_ungrouped s by) a.goroutines)))

-- The objects that some root outside the groups holds.
abbrev pub HeldApart : Session → Text → Analysis → Graph → ℕ → Type 0
HeldApart s by a g x = HeldByGlobals a g x ⊎ (HeldBySystems s by a g x ⊎ HeldByUngrouped s by a g x)

-- What Top groups.
abbrev pub grouping_of : Session → Text → Analysis → Grouping
grouping_of s by a = add_goroutines s by no_grouping a.goroutines

module _ (s : Session) (by : Text) (a : Analysis) (g : Graph) where
  pub group_at-roots :
      (value : Text)
      → (group_at value (grouping_of s by a).groups).roots
        ≡ all_roots (keep (in_group s by value) a.goroutines)
  unfolding value_at
  group_at-roots value = (add_goroutines-Adds s by value no_grouping a.goroutines).0

  pub group_at-goroutines :
      (value : Text)
      → (group_at value (grouping_of s by a).groups).goroutines
        ≡ length (keep (in_group s by value) a.goroutines)
  unfolding value_at
  group_at-goroutines value =
      omega (arith, (add_goroutines-Adds s by value no_grouping a.goroutines).1)

  reaches_iff :
      (x : ℕ) (value : Text)
      → (reaches g x (group_at value (grouping_of s by a).groups) ≡ true)
        ↔ HeldInGroup s by a g value x
  reaches_iff x value =
      subst
        (λ roots.
          (elem x (reachable_from (some g) (group_at value (grouping_of s by a).groups).roots)
            ≡ true)
          ↔ Reachable g (root_ids roots) x)
        (group_at-roots value)
        (reachable_from_correct g (group_at value (grouping_of s by a).groups).roots x)

  -- An object of a group is in a second one exactly if two groups or more reach it.
  pub beside_iff :
      (x : ℕ) (value : Text)
      → HeldInGroup s by a g value x
      → (ltb 1 (hits g x (grouping_of s by a).groups) ≡ true) ↔ HeldBeside s by a g value x
  beside_iff x value held =
      let groups = (grouping_of s by a).groups in
      let keyed = add_goroutines-IsKeyed s by no_grouping a.goroutines tt in
      let here = (reaches_iff x value).1 held in
      let split = hits_split g x value groups keyed in
      (
        λ e.
            let (w, other, hit) =
              hits_beside-pos g x value groups keyed (ground (arith, here, split)) in
            (w, other, (reaches_iff x w).0 hit),
        λ (w, other, held').
            let more = pos-hits_beside g x value w groups other ((reaches_iff x w).1 held') in
            ground (arith, here, split, more),
      )

-- The sets behind the rows.
pub record IsBackdrop (s : Session) (by : Text) (a : Analysis) (g : Graph) (back : Backdrop)
    : Type 0 where
  pub global : IsSetOf g (HeldByGlobals a g) back.global
  pub system : IsSetOf g (HeldBySystems s by a g) back.system
  pub ungrouped : IsSetOf g (HeldByUngrouped s by a g) back.ungrouped
  pub outside : IsSetOf g (HeldApart s by a g) back.outside
  pub counted : (x : ℕ) → count_at back.membership x ≡ hits g x (grouping_of s by a).groups

backdrop-eq-ok :
    (a : Analysis) (t : Grouping) (back : Backdrop)
    → backdrop a t ≡ ok back
    → (walk a.graph a.globals.roots ≡ ok back.global)
      × (walk a.graph t.system ≡ ok back.system)
      × (walk a.graph t.ungrouped ≡ ok back.ungrouped)
      × (count_groups a.graph [] t.groups ≡ ok back.membership)
      × (back.outside ≡ union back.global (union back.system back.ungrouped))
unfolding backdrop
backdrop-eq-ok a t back h =
    let (global, e1, h1) = >>=-eq-ok (walk a.graph a.globals.roots) _ h in
    let (system, e2, h2) = >>=-eq-ok (walk a.graph t.system) _ h1 in
    let (ungrouped, e3, h3) = >>=-eq-ok (walk a.graph t.ungrouped) _ h2 in
    let (membership, e4, h4) = >>=-eq-ok (count_groups a.graph [] t.groups) _ h3 in
    (
      e1 ∙ ap ok (ground arith),
      e2 ∙ ap ok (ground arith),
      e3 ∙ ap ok (ground arith),
      e4 ∙ ap ok (ground arith),
      ground arith,
    )

pub backdrop-IsBackdrop :
    (s : Session) (by : Text) (a : Analysis) (g : Graph) (back : Backdrop)
    → a.graph ≡ some g
    → backdrop a (grouping_of s by a) ≡ ok back
    → IsBackdrop s by a g back
unfolding lookup
backdrop-IsBackdrop s by a g back graph h =
    let t = grouping_of s by a in
    let (e1, e2, e3, e4, e5) = backdrop-eq-ok a t back h in
    let (_, _, systems, ungrouped_roots) = add_goroutines-Adds s by [] no_grouping a.goroutines in
    let global = walked-IsSetOf a.graph g _ _ back.global graph refl e1 in
    let system = walked-IsSetOf a.graph g t.system _ back.system graph systems e2 in
    let ungrouped =
      walked-IsSetOf a.graph g t.ungrouped _ back.ungrouped graph ungrouped_roots e3 in
    record {
      global = global;
      system = system;
      ungrouped = ungrouped;
      outside =
          subst (IsSetOf g (HeldApart s by a g)) (sym e5)
            (union-IsSetOf g _ _ _ _ global (union-IsSetOf g _ _ _ _ system ungrouped));
      counted =
          λ x. omega (arith, count_groups_lem g x a.graph [] t.groups back.membership graph e4);
    }
