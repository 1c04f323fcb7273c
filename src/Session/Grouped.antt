-- ===== src/Session/Grouped.antt =====
-- What the loop of Top over the goroutines (multibubble.go) collects.
use bubblepprof.Common.{
  ◌+◌, ◌≡◌, sym, ap, ◌∙◌, List, [], ◌∷◌, ◌++◌, some, none, arith, Bool, true, false, not, ◌&&◌,
  ◌||◌, length, Option-cases, inl, inr, Text, text_eq, text_eq_iff, value_at, or_default,
  value_at-update_at,
}
use mathlib.Core.List.{append-nil, append_assoc}
use bubblepprof.Graph.{RootRef}
use bubblepprof.Graph.Types.{GoroutineReachability}
use bubblepprof.Usage.Sets.{all_roots}
use bubblepprof.Usage.Overlap.{keep}
use bubblepprof.Session.State.{Session, is_excluded, runs_system}
use bubblepprof.Session.Top.{
  Group, Grouping, no_group, join, group_of, leave_ungrouped, add_goroutine, add_goroutines,
}

module _ (s : Session) (by : Text) where
  -- A goroutine that carries the label with this value.
  abbrev pub in_group : Text → GoroutineReachability → Bool
  in_group value gr =
      not (is_excluded s.opts gr)
      && (elim (group_of s by gr) [ none ↦ false | some v ↦ text_eq v value ])

  abbrev pub has_no_group : GoroutineReachability → Bool
  has_no_group gr = elim (group_of s by gr) [ none ↦ true | some v ↦ false ]

  -- A goroutine with no group whose roots are taken for those of the system.
  abbrev pub in_system : GoroutineReachability → Bool
  in_system gr = is_excluded s.opts gr || runs_system gr && has_no_group gr

  abbrev pub in_ungrouped : GoroutineReachability → Bool
  in_ungrouped gr = not (is_excluded s.opts gr) && has_no_group gr

-- The group of a value, empty if there is none.
abbrev pub group_at : Text → List (Text × Group) → Group
group_at value groups = or_default no_group (value_at value groups)

-- What is collected for one value, for the system and for the ungrouped, when `grs` are added.
abbrev pub Adds : Session → Text → Text → Grouping → Grouping → List GoroutineReachability → Type 0
Adds s by value t t' grs =
    ((group_at value t'.groups).roots
      ≡ (group_at value t.groups).roots ++ all_roots (keep (in_group s by value) grs))
    × ((group_at value t'.groups).goroutines
        ≡ (group_at value t.groups).goroutines + length (keep (in_group s by value) grs))
    × (t'.system ≡ t.system ++ all_roots (keep (in_system s by) grs))
    × (t'.ungrouped ≡ t.ungrouped ++ all_roots (keep (in_ungrouped s by) grs))

module _ (s : Session) (by value : Text) where
  roots-append :
      (p : GoroutineReachability → Bool) (gr : GoroutineReachability)
      (rest : List GoroutineReachability)
      → all_roots (keep p (gr ∷ [])) ++ all_roots (keep p rest) ≡ all_roots (keep p (gr ∷ rest))
  unfolding all_roots
  roots-append p gr rest = ground (arith, append-nil gr.roots)

  length-keep_cons :
      (p : GoroutineReachability → Bool) (gr : GoroutineReachability)
      (rest : List GoroutineReachability)
      → length (keep p (gr ∷ [])) + length (keep p rest) ≡ length (keep p (gr ∷ rest))
  length-keep_cons p gr rest = ground arith

  add_goroutine-Adds :
      (t : Grouping) (gr : GoroutineReachability)
      → Adds s by value t (add_goroutine s by t gr) (gr ∷ [])
  unfolding add_goroutine leave_ungrouped all_roots
  add_goroutine-Adds t gr = elim (Option-cases (group_of s by gr)) [
    | inl e ↦ rw e (
      ground (arith, append-nil (group_at value t.groups).roots),
      ground arith,
      ground (arith, append-nil t.system, append-nil gr.roots),
      ground (arith, append-nil t.ungrouped, append-nil gr.roots),
    )
    | inr (v, e) ↦ rw e (
      ground (
        arith,
        append-nil (group_at value t.groups).roots,
        append-nil gr.roots,
        value_at-update_at no_group (join gr) v value t.groups,
        text_eq_iff v value,
      ),
      ground (arith, value_at-update_at no_group (join gr) v value t.groups, text_eq_iff v value),
      ground (arith, append-nil t.system, append-nil gr.roots),
      ground (arith, append-nil t.ungrouped, append-nil gr.roots),
    )
  ]

  pub add_goroutines-Adds :
      (t : Grouping) (grs : List GoroutineReachability)
      → Adds s by value t (add_goroutines s by t grs) grs
  unfolding add_goroutines all_roots
  add_goroutines-Adds t [] = (
    sym (append-nil (group_at value t.groups).roots),
    omega arith,
    sym (append-nil t.system),
    sym (append-nil t.ungrouped),
  )
  add_goroutines-Adds t (gr ∷ rest) =
      let (r1, n1, s1, u1) = add_goroutine-Adds t gr in
      let (r2, n2, s2, u2) = add_goroutines-Adds (add_goroutine s by t gr) rest in
      (
        r2
            ∙ rw (r1, append_assoc)
                (ap (λ (rs : List RootRef). (group_at value t.groups).roots ++ rs)
                  (roots-append (in_group s by value) gr rest)),
        omega (arith, n1, n2, length-keep_cons (in_group s by value) gr rest),
        s2
            ∙ rw (s1, append_assoc)
                (ap (λ (rs : List RootRef). t.system ++ rs)
                  (roots-append (in_system s by) gr rest)),
        u2
            ∙ rw (u1, append_assoc)
                (ap (λ (rs : List RootRef). t.ungrouped ++ rs)
                  (roots-append (in_ungrouped s by) gr rest)),
      )
