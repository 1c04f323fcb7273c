-- ===== src/Session/Rows.antt =====
-- The rows of Top (multibubble.go) over the goroutines of the analysis.
use bubblepprof.Common.{ℕ, ◌≡◌, ◌⊎◌, sym, ap, ◌∙◌, List, Option, length, Text}
use bubblepprof.Common.Result.{ok, >>=-eq-ok, ok-injective}
use bubblepprof.Graph.{Graph}
use bubblepprof.Graph.Types.{Analysis}
use bubblepprof.Usage.Overlap.{keep}
use bubblepprof.Session.State.{Session, measure}
use bubblepprof.Session.Sets.{union, difference, intersection}
use bubblepprof.Session.Measured.{Measures}
use bubblepprof.Session.SetOf.{IsSum}
use bubblepprof.Session.Parted.{HeldByGlobals}
use bubblepprof.Session.Top.{Classes, GroupResult, Backdrop, measure_row}
use bubblepprof.Session.Grouped.{in_group}
use bubblepprof.Session.Backdrop.{
  HeldInGroup, HeldBeside, HeldBySystems, HeldByUngrouped, HeldApart,
}

pub measure_row-eq-ok :
    (g : Option Graph) (back : Backdrop) (value : Text) (n : ℕ) (set : List ℕ) (c : Classes)
    (r : GroupResult)
    → measure_row g back value n set c ≡ ok r
    → ((r.value ≡ value) × (r.goroutines ≡ n))
      × (measure g set ≡ ok r.reachable)
      × (measure g c.exclusive ≡ ok r.exclusive)
      × (measure g (difference set c.exclusive) ≡ ok r.shared)
      × (measure g c.bubbles_only ≡ ok r.bubbles_only)
      × (measure g c.other_only ≡ ok r.other_roots_only)
      × (measure g c.both ≡ ok r.both)
      × (measure g (union c.bubbles_only c.both) ≡ ok r.bubble_overlap)
      × (measure g (union c.other_only c.both) ≡ ok r.other_root_overlap)
      × (measure g (intersection set back.global) ≡ ok r.global_overlap)
      × (measure g (intersection set back.system) ≡ ok r.system_overlap)
      × (measure g (intersection set back.ungrouped) ≡ ok r.ungrouped_overlap)
unfolding measure_row
measure_row-eq-ok g back value n set c r h =
    let (m1, e1, h1) = >>=-eq-ok (measure g set) _ h in
    let (m2, e2, h2) = >>=-eq-ok (measure g c.exclusive) _ h1 in
    let (m3, e3, h3) = >>=-eq-ok (measure g (difference set c.exclusive)) _ h2 in
    let (m4, e4, h4) = >>=-eq-ok (measure g c.bubbles_only) _ h3 in
    let (m5, e5, h5) = >>=-eq-ok (measure g c.other_only) _ h4 in
    let (m6, e6, h6) = >>=-eq-ok (measure g c.both) _ h5 in
    let (m7, e7, h7) = >>=-eq-ok (measure g (union c.bubbles_only c.both)) _ h6 in
    let (m8, e8, h8) = >>=-eq-ok (measure g (union c.other_only c.both)) _ h7 in
    let (m9, e9, h9) = >>=-eq-ok (measure g (intersection set back.global)) _ h8 in
    let (m10, e10, h10) = >>=-eq-ok (measure g (intersection set back.system)) _ h9 in
    let (m11, e11, h11) = >>=-eq-ok (measure g (intersection set back.ungrouped)) _ h10 in
    let same = ok-injective h11 in
    (
      (
        sym (ap (λ (q : GroupResult). q.value) same),
        sym (ap (λ (q : GroupResult). q.goroutines) same),
      ),
      e1 ∙ ap (λ (q : GroupResult). ok q.reachable) same,
      e2 ∙ ap (λ (q : GroupResult). ok q.exclusive) same,
      e3 ∙ ap (λ (q : GroupResult). ok q.shared) same,
      e4 ∙ ap (λ (q : GroupResult). ok q.bubbles_only) same,
      e5 ∙ ap (λ (q : GroupResult). ok q.other_roots_only) same,
      e6 ∙ ap (λ (q : GroupResult). ok q.both) same,
      e7 ∙ ap (λ (q : GroupResult). ok q.bubble_overlap) same,
      e8 ∙ ap (λ (q : GroupResult). ok q.other_root_overlap) same,
      e9 ∙ ap (λ (q : GroupResult). ok q.global_overlap) same,
      e10 ∙ ap (λ (q : GroupResult). ok q.system_overlap) same,
      e11 ∙ ap (λ (q : GroupResult). ok q.ungrouped_overlap) same,
    )

-- What a row counts of the group of its value.
pub record IsRow (s : Session) (by : Text) (a : Analysis) (g : Graph) (r : GroupResult)
    : Type 0 where
  pub goroutines : r.goroutines ≡ length (keep (in_group s by r.value) a.goroutines)
  pub reachable : Measures g (HeldInGroup s by a g r.value) r.reachable
  pub exclusive :
      Measures g
        (λ x.
          HeldInGroup s by a g r.value x
          × ((¬ HeldBeside s by a g r.value x) × (¬ HeldApart s by a g x)))
        r.exclusive
  pub shared :
      Measures g
        (λ x.
          HeldInGroup s by a g r.value x × (HeldBeside s by a g r.value x ⊎ HeldApart s by a g x))
        r.shared
  pub bubbles_only :
      Measures g
        (λ x.
          HeldInGroup s by a g r.value x
          × (HeldBeside s by a g r.value x × (¬ HeldApart s by a g x)))
        r.bubbles_only
  pub other_roots_only :
      Measures g
        (λ x.
          HeldInGroup s by a g r.value x
          × ((¬ HeldBeside s by a g r.value x) × HeldApart s by a g x))
        r.other_roots_only
  pub both :
      Measures g
        (λ x.
          HeldInGroup s by a g r.value x × (HeldBeside s by a g r.value x × HeldApart s by a g x))
        r.both
  pub bubble_overlap :
      Measures g
        (λ x. HeldInGroup s by a g r.value x × HeldBeside s by a g r.value x)
        r.bubble_overlap
  pub other_root_overlap :
      Measures g (λ x. HeldInGroup s by a g r.value x × HeldApart s by a g x) r.other_root_overlap
  pub global_overlap :
      Measures g (λ x. HeldInGroup s by a g r.value x × HeldByGlobals a g x) r.global_overlap
  pub system_overlap :
      Measures g (λ x. HeldInGroup s by a g r.value x × HeldBySystems s by a g x) r.system_overlap
  pub ungrouped_overlap :
      Measures g
        (λ x. HeldInGroup s by a g r.value x × HeldByUngrouped s by a g x)
        r.ungrouped_overlap
  pub reachable_sum : IsSum r.reachable r.exclusive r.shared
  pub shared_sum : IsSum r.shared r.bubble_overlap r.other_roots_only
  pub bubble_sum : IsSum r.bubble_overlap r.bubbles_only r.both
