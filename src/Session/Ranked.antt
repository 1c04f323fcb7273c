-- ===== src/Session/Ranked.antt =====
-- What Top (multibubble.go) reports.
use bubblepprof.Common.{
  [], if◌then◌else◌, false, text_eq, ℤ, pos, IsCut, IsSorted, IsOrdered-IsSorted, total-sort_by, ℕ,
  ◌≡◌, ◌⊎◌, refl, sym, ap, ◌∙◌, List, ◌∷◌, Option, some, arith, length, Text, All, value_at,
  or_default, IsKeyed-value_at, sort_by, sort_by-IsOrdered, All-sort_by, length-sort_by, map,
}
use mathlib.Core.Path.{subst}
use bubblepprof.Common.Result.{ok, >>=-eq-ok, ok-injective, fail_if, fail_if-eq-ok}
use bubblepprof.Graph.{Graph}
use bubblepprof.Graph.Types.{Analysis}
use bubblepprof.Usage.Overlap.{keep}
use bubblepprof.Session.Measured.{Measures}
use bubblepprof.Session.State.{Session, Measure, bad_options, ready, walk}
use bubblepprof.Session.Walked.{ready-eq-ok}
use bubblepprof.Session.SetOf.{IsSetOf, intersection-IsSetOf, measure-Measures, measure-split}
use bubblepprof.Session.Parted.{HeldByGlobals, walked-IsSetOf}
use bubblepprof.Session.Compare.{cut_to}
use bubblepprof.Session.Cut.{nonnegative, cut_to-IsCut}
use bubblepprof.Session.RowOrder.{
  IsMetric, metric-IsMetric, RowLeads, row_before-RowLeads, row_before-IsStrict,
}
use bubblepprof.Session.Covered.{row_head, group_head, CoversGroups, rows-CoversGroups}
use bubblepprof.Session.Top.{
  Group, no_group, no_grouping, no_classes, classify, GroupResult, Backdrop, backdrop, measure_row,
  group_row, group_rows, metric, row_before, sort_or_default, TopOptions, TopResult, is_bad_top,
  top_groups,
}
use bubblepprof.Session.Grouped.{group_at, in_group}
use bubblepprof.Session.Backdrop.{
  HeldInGroup, HeldBeside, HeldApart, HeldBySystems, HeldByUngrouped, grouping_of, group_at-roots,
  group_at-goroutines, IsBackdrop, backdrop-IsBackdrop, add_goroutines-IsKeyed,
}
use bubblepprof.Session.Rows.{measure_row-eq-ok, IsRow}
use bubblepprof.Session.RowSets.{classes-AreClasses}

module _ (s : Session) (by : Text) (a : Analysis) (g : Graph) (back : Backdrop)
    (graph : a.graph ≡ some g) (b : IsBackdrop s by a g back) where
  measured-IsRow :
      (value : Text) (n : ℕ) (set : List ℕ) (r : GroupResult)
      → n ≡ (group_at value (grouping_of s by a).groups).goroutines
      → IsSetOf g (HeldInGroup s by a g value) set
      → measure_row (some g) back value n set (classify back.outside back.membership no_classes set)
        ≡ ok r
      → IsRow s by a g r
  measured-IsRow value n set r count of_set h =
      let c = classify back.outside back.membership no_classes set in
      let ((named, counted), e1, e2, e3, e4, e5, e6, e7, e8, e9, e10, e11) =
        measure_row-eq-ok (some g) back value n set c r h in
      let k = classes-AreClasses s by a g back b value set of_set in
      let at_value = λ (P : Text → ℕ → Type 0) (m : Measure).
        λ (e : Measures g (P value) m). subst (λ (v : Text). Measures g (P v) m) (sym named) e in
      let H = HeldInGroup s by a g in
      let B = HeldBeside s by a g in
      let O = HeldApart s by a g in
      record {
        goroutines =
            counted
            ∙ count
            ∙ group_at-goroutines s by a g value
            ∙ ap (λ (v : Text). length (keep (in_group s by v) a.goroutines)) (sym named);
        reachable = at_value H r.reachable (measure-Measures g _ _ r.reachable of_set e1);
        exclusive =
            at_value (λ v x. H v x × ((¬ B v x) × (¬ O x))) r.exclusive
              (measure-Measures g _ _ r.exclusive k.exclusive e2);
        shared =
            at_value (λ v x. H v x × (B v x ⊎ O x)) r.shared
              (measure-Measures g _ _ r.shared k.shared e3);
        bubbles_only =
            at_value (λ v x. H v x × (B v x × (¬ O x))) r.bubbles_only
              (measure-Measures g _ _ r.bubbles_only k.bubbles_only e4);
        other_roots_only =
            at_value (λ v x. H v x × ((¬ B v x) × O x)) r.other_roots_only
              (measure-Measures g _ _ r.other_roots_only k.other_only e5);
        both =
            at_value (λ v x. H v x × (B v x × O x)) r.both
              (measure-Measures g _ _ r.both k.both e6);
        bubble_overlap =
            at_value (λ v x. H v x × B v x) r.bubble_overlap
              (measure-Measures g _ _ r.bubble_overlap k.bubble_overlap e7);
        other_root_overlap =
            at_value (λ v x. H v x × O x) r.other_root_overlap
              (measure-Measures g _ _ r.other_root_overlap k.other_overlap e8);
        global_overlap =
            at_value (λ v x. H v x × HeldByGlobals a g x) r.global_overlap
              (measure-Measures g _ _ r.global_overlap
                (intersection-IsSetOf g _ _ _ _ of_set b.global) e9);
        system_overlap =
            at_value (λ v x. H v x × HeldBySystems s by a g x) r.system_overlap
              (measure-Measures g _ _ r.system_overlap
                (intersection-IsSetOf g _ _ _ _ of_set b.system) e10);
        ungrouped_overlap =
            at_value (λ v x. H v x × HeldByUngrouped s by a g x) r.ungrouped_overlap
              (measure-Measures g _ _ r.ungrouped_overlap
                (intersection-IsSetOf g _ _ _ _ of_set b.ungrouped) e11);
        reachable_sum =
            measure-split g _ _ _ r.reachable r.exclusive r.shared of_set.objects
              k.exclusive.objects k.shared.objects k.set_split e1 e2 e3;
        shared_sum =
            measure-split g _ _ _ r.shared r.bubble_overlap r.other_roots_only k.shared.objects
              k.bubble_overlap.objects k.other_only.objects k.shared_split e3 e7 e5;
        bubble_sum =
            measure-split g _ _ _ r.bubble_overlap r.bubbles_only r.both k.bubble_overlap.objects
              k.bubbles_only.objects k.both.objects k.bubble_split e7 e4 e6;
      }

  group_row-IsRow :
      (value : Text) (group : Group) (r : GroupResult)
      → value_at value (grouping_of s by a).groups ≡ some group
      → group_row a.graph back value group ≡ ok r
      → IsRow s by a g r
  unfolding group_row
  group_row-IsRow value group r found h =
      let (set, walked, h1) = >>=-eq-ok (walk a.graph group.roots) _ h in
      let same : group ≡ group_at value (grouping_of s by a).groups =
        sym (ap (or_default no_group) found) in
      let of_set =
        walked-IsSetOf a.graph g group.roots _ set graph
          (ap (λ (k : Group). k.roots) same ∙ group_at-roots s by a g value) walked in
      measured-IsRow value group.goroutines set r (ap (λ (k : Group). k.goroutines) same) of_set (
        ap
          (λ (k : Option Graph).
            measure_row k back value group.goroutines set
              (classify back.outside back.membership no_classes set))
          (sym graph)
        ∙ h1)

  group_row-value :
      (value : Text) (group : Group) (r : GroupResult)
      → group_row a.graph back value group ≡ ok r
      → (r.value ≡ value) × (r.goroutines ≡ group.goroutines)
  unfolding group_row
  group_row-value value group r h =
      let (set, walked, h1) = >>=-eq-ok (walk a.graph group.roots) _ h in
      (measure_row-eq-ok a.graph back value group.goroutines set
        (classify back.outside back.membership no_classes set) r h1).0

  -- One row for each group, in their order.
  pub group_rows-IsRow :
      (groups : List (Text × Group)) (rows : List GroupResult)
      → All (λ p. value_at p.0 (grouping_of s by a).groups ≡ some p.1) groups
      → group_rows a.graph back groups ≡ ok rows
      → All (IsRow s by a g) rows × (map row_head rows ≡ map group_head groups)
  unfolding group_rows
  group_rows-IsRow [] rows found h =
      subst (λ (rs : List GroupResult). All (IsRow s by a g) rs × (map row_head rs ≡ []))
        (ok-injective h) (tt, refl)
  group_rows-IsRow ((value, group) ∷ rest) rows (here, later) h =
      let (row, e, h1) = >>=-eq-ok (group_row a.graph back value group) _ h in
      let (others, e', h2) = >>=-eq-ok (group_rows a.graph back rest) _ h1 in
      let (all, values) = group_rows-IsRow rest others later e' in
      let (named, counted) = group_row-value value group row e in
      subst
        (λ (rs : List GroupResult).
          All (IsRow s by a g) rs × (map row_head rs ≡ map group_head ((value, group) ∷ rest)))
        (ok-injective h2)
        ((group_row-IsRow value group row here e, all), rw (named, counted, values) refl)

-- The steps of Top where it succeeds.
pub top_groups-eq-ok :
    (s : Session) (opts : TopOptions) (a : Analysis) (out : TopResult)
    → s.analysis ≡ some a
    → top_groups s opts ≡ ok out
    → (back : Backdrop) × (rows : List GroupResult) × (backdrop a (grouping_of s opts.by a)
        ≡ ok back)
      × (group_rows a.graph back (grouping_of s opts.by a).groups ≡ ok rows)
      × (out.groups ≡ cut_to opts.limit (sort_by (row_before (sort_or_default opts.sort)) rows))
      × (out.total_groups ≡ length rows)
      × (out.ungrouped_goroutines ≡ (grouping_of s opts.by a).ungrouped_goroutines)
      × (out.excluded_system_goroutines ≡ (grouping_of s opts.by a).excluded_system_goroutines)
      × (is_bad_top opts ≡ false)
unfolding top_groups
top_groups-eq-ok s opts a out open_session h =
    let (_, good, h0) = >>=-eq-ok (fail_if (is_bad_top opts) bad_options) _ h in
    let (a', e, h1) = >>=-eq-ok (ready s) _ h0 in
    let same : a' ≡ a = ground (arith, ready-eq-ok s a' e) in
    let (back, e1, h2) = >>=-eq-ok (backdrop a' (grouping_of s opts.by a')) _ h1 in
    let (rows, e2, h3) =
      >>=-eq-ok (group_rows a'.graph back (grouping_of s opts.by a').groups) _ h2 in
    let ended = ok-injective h3 in
    (
      back,
      rows,
      ap (λ (b : Analysis). backdrop b (grouping_of s opts.by b)) (sym same) ∙ e1,
      ap (λ (b : Analysis). group_rows b.graph back (grouping_of s opts.by b).groups) (sym same)
          ∙ e2,
      sym (ap (λ (t : TopResult). t.groups) ended),
      sym (ap (λ (t : TopResult). t.total_groups) ended),
      sym (ap (λ (t : TopResult). t.ungrouped_goroutines) ended)
          ∙ ap (λ (b : Analysis). (grouping_of s opts.by b).ungrouped_goroutines) same,
      sym (ap (λ (t : TopResult). t.excluded_system_goroutines) ended)
          ∙ ap (λ (b : Analysis). (grouping_of s opts.by b).excluded_system_goroutines) same,
      fail_if-eq-ok (is_bad_top opts) bad_options good,
    )

-- Where Top succeeds, there is a list of rows, one for each value of the label that a goroutine which
-- is not passed over has, and no other; the rows lead by the bytes that the sort names, and then by
-- their values. The result has the number of the rows, and the first ones of them up to the limit, or
-- all if the limit is 0. Each row counts, each exactly once and with the exact sum of the sizes,
-- the objects that the goroutines of its group hold; and of these, those that nothing else holds,
-- those that something else holds, and the parts and overlaps of the latter by what that is: another
-- group, a root outside the groups, both, global roots, system or ungrouped goroutines. The exclusive
-- and the shared sum up to the reachable, and the parts of the shared to the shared.
pub top_groups_exact :
    (s : Session) (opts : TopOptions) (a : Analysis) (g : Graph) (out : TopResult)
    → s.analysis ≡ some a
    → a.graph ≡ some g
    → top_groups s opts ≡ ok out
    → (rows : List GroupResult) × (m : GroupResult → ℕ) × (n : ℕ) × CoversGroups s opts.by a rows
      × All (IsRow s opts.by a g) rows
      × IsMetric opts.sort m
      × IsSorted (RowLeads m) rows
      × (opts.limit ≡ pos n)
      × IsCut n rows out.groups
      × (out.total_groups ≡ length rows)
unfolding is_bad_top
top_groups_exact s opts a g out open_session graph h =
    let (back, rows, e1, e2, shown, count, _, _, good) =
      top_groups-eq-ok s opts a out open_session h in
    let sort = sort_or_default opts.sort in
    let before = row_before sort in
    let sorted = sort_by before rows in
    let (all, heads) =
      group_rows-IsRow s opts.by a g back graph (backdrop-IsBackdrop s opts.by a g back graph e1)
        (grouping_of s opts.by a).groups rows
        (IsKeyed-value_at _ (add_goroutines-IsKeyed s opts.by no_grouping a.goroutines tt)) e2 in
    let (n, is_n) = nonnegative opts.limit (ground arith) in
    (
      sorted,
      metric sort,
      n,
      λ value.
          total-sort_by before (λ r. if text_eq r.value value then 1 else 0) rows
          ∙ rows-CoversGroups s opts.by a g rows heads value,
      All-sort_by before (IsRow s opts.by a g) rows all,
      metric-IsMetric opts good,
      IsOrdered-IsSorted before (RowLeads (metric sort)) (row_before-RowLeads sort) sorted
          (sort_by-IsOrdered before (row_before-IsStrict sort) rows),
      is_n,
      subst (IsCut n sorted) (sym (shown ∙ ap (λ (l : ℤ). cut_to l sorted) is_n))
          (cut_to-IsCut n sorted),
      count ∙ sym (length-sort_by before rows),
    )
