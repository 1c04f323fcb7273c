-- ===== src/Session/Accounted.antt =====
-- Top (multibubble.go) counts every goroutine once.
use bubblepprof.Common.{
  ℕ, sym, All, All-map, All-sort_by, ◌+◌, ◌≡◌, refl, ap, ◌∙◌, List, [], ◌∷◌, some, arith,
  Bool-cases, Option-cases, inl, inr, length, total, total-sort_by, sort_by, Text, update_at,
  IsKeyed-value_at, ℤ, pos,
}
use bubblepprof.Common.Result.{ok}
use bubblepprof.Graph.{Graph}
use bubblepprof.Graph.Types.{Analysis, GoroutineReachability}
use bubblepprof.Session.State.{Session, is_excluded}
use bubblepprof.Session.Compare.{cut_to}
use bubblepprof.Session.Top.{
  Group, Grouping, no_group, no_grouping, join, group_of, leave_ungrouped, add_goroutine,
  add_goroutines, GroupResult, row_before, sort_or_default, TopOptions, TopResult, top_groups,
}
use bubblepprof.Session.Backdrop.{grouping_of, backdrop-IsBackdrop, add_goroutines-IsKeyed}
use mathlib.Core.Path.{subst}
use bubblepprof.Usage.Overlap.{keep}
use bubblepprof.Session.Grouped.{in_group, in_ungrouped}
use bubblepprof.Session.Covered.{total-heads}
use bubblepprof.Session.Ranked.{group_rows-IsRow, top_groups-eq-ok}

abbrev group_size : Text × Group → ℕ
group_size p = p.1.goroutines

abbrev row_size : GroupResult → ℕ
row_size r = r.goroutines

total-update_at :
    (gr : GoroutineReachability) (v : Text) (groups : List (Text × Group))
    → total group_size (update_at no_group (join gr) v groups) ≡ total group_size groups + 1
unfolding update_at
total-update_at gr v [] = refl
total-update_at gr v ((k, group) ∷ rest) = ground (arith, total-update_at gr v rest)

-- The goroutines that a grouping has seen.
abbrev seen : Grouping → ℕ
seen t = total group_size t.groups + t.ungrouped_goroutines + t.excluded_system_goroutines

seen-add_goroutine :
    (s : Session) (by : Text) (t : Grouping) (gr : GoroutineReachability)
    → seen (add_goroutine s by t gr) ≡ seen t + 1
unfolding add_goroutine leave_ungrouped
seen-add_goroutine s by t gr = elim (Bool-cases (is_excluded s.opts gr)) [
  | inl e ↦ rw e (omega arith)
  | inr e ↦ elim (Option-cases (group_of s by gr)) [
    | inl n ↦ rw (e, n) (omega arith)
    | inr (v, n) ↦ rw (e, n) (omega (arith, total-update_at gr v t.groups))
  ]
]

seen-add_goroutines :
    (s : Session) (by : Text) (t : Grouping) (grs : List GoroutineReachability)
    → seen (add_goroutines s by t grs) ≡ seen t + length grs
unfolding add_goroutines
seen-add_goroutines s by t [] = omega arith
seen-add_goroutines s by t (gr ∷ rest) =
    omega
      (arith, seen-add_goroutines s by (add_goroutine s by t gr) rest, seen-add_goroutine s by t gr)

counts-add_goroutines :
    (s : Session) (by : Text) (t : Grouping) (grs : List GoroutineReachability)
    → ((add_goroutines s by t grs).ungrouped_goroutines
        ≡ t.ungrouped_goroutines + length (keep (in_ungrouped s by) grs))
      × ((add_goroutines s by t grs).excluded_system_goroutines
          ≡ t.excluded_system_goroutines + length (keep (is_excluded s.opts) grs))
unfolding add_goroutines add_goroutine leave_ungrouped
counts-add_goroutines s by t [] = omega arith
counts-add_goroutines s by t (gr ∷ rest) =
    let (u, x) = counts-add_goroutines s by (add_goroutine s by t gr) rest in
    elim (Bool-cases (is_excluded s.opts gr)) [
      | inl e ↦ (ground (arith, e, u), ground (arith, e, x))
      | inr e ↦ elim (Option-cases (group_of s by gr)) [
        | inl n ↦ (ground (arith, e, n, u), ground (arith, e, n, x))
        | inr (v, n) ↦ (ground (arith, e, n, u), ground (arith, e, n, x))
      ]
    ]

-- Where Top succeeds and has no limit, each row has the number of the goroutines that are not passed
-- over and carry its value; the ungrouped are those that are not passed over and carry no value; the
-- excluded are those that are passed over; and the three sum up to all goroutines of the analysis.
pub top_groups_accounts :
    (s : Session) (opts : TopOptions) (a : Analysis) (g : Graph) (out : TopResult)
    → s.analysis ≡ some a
    → a.graph ≡ some g
    → opts.limit ≡ pos 0
    → top_groups s opts ≡ ok out
    → All (λ r. r.goroutines ≡ length (keep (in_group s opts.by r.value) a.goroutines)) out.groups
      × (out.ungrouped_goroutines ≡ length (keep (in_ungrouped s opts.by) a.goroutines))
      × (out.excluded_system_goroutines ≡ length (keep (is_excluded s.opts) a.goroutines))
      × (total (λ r. r.goroutines) out.groups
            + out.ungrouped_goroutines
            + out.excluded_system_goroutines
          ≡ length a.goroutines)
top_groups_accounts s opts a g out open_session graph no_limit h =
    let (back, rows, e1, e2, shown, _, ungrouped, excluded, _) =
      top_groups-eq-ok s opts a out open_session h in
    let (all, heads) =
      group_rows-IsRow s opts.by a g back graph (backdrop-IsBackdrop s opts.by a g back graph e1)
        (grouping_of s opts.by a).groups rows
        (IsKeyed-value_at _ (add_goroutines-IsKeyed s opts.by no_grouping a.goroutines tt)) e2 in
    let before = row_before (sort_or_default opts.sort) in
    let whole : out.groups ≡ sort_by before rows =
      shown ∙ ap (λ (l : ℤ). cut_to l (sort_by before rows)) no_limit in
    let (u, x) = counts-add_goroutines s opts.by no_grouping a.goroutines in
    let sizes = λ (r : GroupResult).
      (r.goroutines ≡ length (keep (in_group s opts.by r.value) a.goroutines)) in
    (
      subst (All sizes) (sym whole)
          (All-sort_by before sizes rows (All-map rows (λ r row. row.goroutines) all)),
      omega (arith, ungrouped, u),
      omega (arith, excluded, x),
      omega (
        arith,
        ap (total row_size) whole,
        total-sort_by before row_size rows,
        total-heads (λ p. p.1) rows (grouping_of s opts.by a).groups heads,
        seen-add_goroutines s opts.by no_grouping a.goroutines,
        ungrouped,
        excluded,
      ),
    )
