-- ===== src/Session/Owned.antt =====
-- What Exclusive (multibubble.go) reports.
use bubblepprof.Common.{◌≡◌, sym, ap, ◌∙◌, Option, some, arith}
use bubblepprof.Common.Result.{ok, >>=-eq-ok}
use bubblepprof.Graph.{Graph}
use bubblepprof.Graph.Types.{Analysis}
use bubblepprof.Usage.Request.{Request}
use bubblepprof.Session.State.{Session, ready, measure}
use bubblepprof.Session.Sets.{intersection, difference}
use bubblepprof.Session.Measured.{Measures}
use bubblepprof.Session.Walked.{ready-eq-ok}
use bubblepprof.Session.SetOf.{
  IsSum, intersection-IsSetOf, difference-IsSetOf, measure-Measures, measure-split,
}
use bubblepprof.Session.Compared.{HeldFor, IsSplit-left}
use bubblepprof.Session.Exclusive.{
  Inspection, inspect, ExclusiveResult, measure_exclusive, exclusive_of,
}
use bubblepprof.Session.Parted.{
  HeldByGlobals, HeldByOtherSystems, HeldByOtherUsers, HeldOutside, IsInspection,
  inspect-IsInspection,
}

-- The measures of a result are those of the sets.
measure_exclusive-eq-ok :
    (g : Option Graph) (req : Request) (sets : Inspection) (r : ExclusiveResult)
    → measure_exclusive g req sets ≡ ok r
    → (measure g sets.selected ≡ ok r.reachable)
      × (measure g (difference sets.selected sets.outside) ≡ ok r.exclusive)
      × (measure g (intersection sets.selected sets.outside) ≡ ok r.shared)
      × (measure g (intersection sets.selected sets.global) ≡ ok r.global_overlap)
      × (measure g (intersection sets.selected sets.system) ≡ ok r.system_overlap)
      × (measure g (intersection sets.selected sets.other) ≡ ok r.other_goroutine_overlap)
unfolding measure_exclusive
measure_exclusive-eq-ok g req sets r h =
    let (m1, e1, h1) = >>=-eq-ok (measure g sets.selected) _ h in
    let (m2, e2, h2) = >>=-eq-ok (measure g (difference sets.selected sets.outside)) _ h1 in
    let (m3, e3, h3) = >>=-eq-ok (measure g (intersection sets.selected sets.outside)) _ h2 in
    let (m4, e4, h4) = >>=-eq-ok (measure g (intersection sets.selected sets.global)) _ h3 in
    let (m5, e5, h5) = >>=-eq-ok (measure g (intersection sets.selected sets.system)) _ h4 in
    let (m6, e6, h6) = >>=-eq-ok (measure g (intersection sets.selected sets.other)) _ h5 in
    (
      e1 ∙ ap ok (ground arith),
      e2 ∙ ap ok (ground arith),
      e3 ∙ ap ok (ground arith),
      e4 ∙ ap ok (ground arith),
      e5 ∙ ap ok (ground arith),
      e6 ∙ ap ok (ground arith),
    )

-- What an exclusive result counts.
abbrev pub CountsOwned : Session → Request → Analysis → Graph → ExclusiveResult → Type 0
CountsOwned s req a g r =
    Measures g (HeldFor s req a g) r.reachable
    × Measures g (λ x. HeldFor s req a g x × ¬ HeldOutside s req a g x) r.exclusive
    × Measures g (λ x. HeldFor s req a g x × HeldOutside s req a g x) r.shared
    × Measures g (λ x. HeldFor s req a g x × HeldByGlobals a g x) r.global_overlap
    × Measures g (λ x. HeldFor s req a g x × HeldByOtherSystems s req a g x) r.system_overlap
    × Measures g (λ x. HeldFor s req a g x × HeldByOtherUsers s req a g x) r.other_goroutine_overlap
    × IsSum r.reachable r.exclusive r.shared

measure_exclusive-CountsOwned :
    (s : Session) (req : Request) (a : Analysis) (g : Graph) (sets : Inspection)
    (r : ExclusiveResult)
    → IsInspection s req a g sets
    → measure_exclusive (some g) req sets ≡ ok r
    → CountsOwned s req a g r
measure_exclusive-CountsOwned s req a g sets r i h =
    let (e1, e2, e3, e4, e5, e6) = measure_exclusive-eq-ok (some g) req sets r h in
    let alone = difference-IsSetOf g _ _ _ _ i.selected i.outside in
    let shared = intersection-IsSetOf g _ _ _ _ i.selected i.outside in
    (
      measure-Measures g _ _ r.reachable i.selected e1,
      measure-Measures g _ _ r.exclusive alone e2,
      measure-Measures g _ _ r.shared shared e3,
      measure-Measures g _ _ r.global_overlap (intersection-IsSetOf g _ _ _ _ i.selected i.global)
          e4,
      measure-Measures g _ _ r.system_overlap (intersection-IsSetOf g _ _ _ _ i.selected i.system)
          e5,
      measure-Measures g _ _ r.other_goroutine_overlap
          (intersection-IsSetOf g _ _ _ _ i.selected i.other) e6,
      measure-split g sets.selected (difference sets.selected sets.outside)
          (intersection sets.selected sets.outside) r.reachable r.exclusive r.shared
          i.selected.objects alone.objects shared.objects (IsSplit-left sets.selected sets.outside)
          e1 e2 e3,
    )

-- A successful exclusive result counts, each exactly once and with the exact sum of the sizes: the
-- objects that the chosen goroutines hold; of these, those that no global root and no goroutine
-- with another id holds; those that some of these do; those held by global roots, by the system
-- goroutines with another id, and by the other goroutines with another id. The second and the third
-- sum up to the first.
pub exclusive_of_exact :
    (s : Session) (req : Request) (a : Analysis) (g : Graph) (r : ExclusiveResult)
    → s.analysis ≡ some a
    → a.graph ≡ some g
    → exclusive_of s req ≡ ok r
    → CountsOwned s req a g r
unfolding exclusive_of
exclusive_of_exact s req a g r open_session graph h =
    let (a', e, h1) = >>=-eq-ok (ready s) _ h in
    let (sets, e', h2) = >>=-eq-ok (inspect s a' req) _ h1 in
    let same : a' ≡ a = ground (arith, ready-eq-ok s a' e) in
    let found : inspect s a req ≡ ok sets =
      ap (λ (b : Analysis). inspect s b req) (sym same) ∙ e' in
    let ended : measure_exclusive (some g) req sets ≡ ok r =
      ap (λ (k : Option Graph). measure_exclusive k req sets)
        (sym graph ∙ ap (λ (b : Analysis). b.graph) (sym same))
      ∙ h2 in
    measure_exclusive-CountsOwned s req a g sets r (inspect-IsInspection s a req g sets graph found)
      ended
