-- ===== src/Session/Compared.antt =====
-- What Compare and Shared of multibubble.go report.
use bubblepprof.Common.{
  ℕ, ◌+◌, ◌≤◌, ◌≡◌, refl, sym, ap, ◌∙◌, ◌⊎◌, List, Option, some, arith, max_uint64,
}
use mathlib.Core.Path.{subst}
use bubblepprof.Common.Result.{ok, >>=-eq-ok}
use bubblepprof.Graph.{Graph, RootRef}
use bubblepprof.Graph.Types.{Analysis}
use bubblepprof.Graph.Build.Laws.{sum_sizes}
use bubblepprof.Graph.Reach.{reachable_from, root_ids}
use bubblepprof.Graph.Correct.{Reachable}
use bubblepprof.Usage.Request.{Request}
use bubblepprof.Usage.Sets.{all_roots}
use bubblepprof.Session.State.{Session, Measure, Choice, ready, selected, walk, measure}
use bubblepprof.Session.Sets.{
  intersection, difference, union, elem-intersection, elem-difference, elem-union,
}
use bubblepprof.Session.Splits.{IsSplit, length-split, bytes_in-split}
use bubblepprof.Session.Measured.{Measures, measure_of, measure-eq-ok}
use bubblepprof.Session.Walked.{ready-eq-ok, walk_lem, chosen, selected-eq-ok, measure_fits}
use bubblepprof.Session.SetOf.{
  IsSetOf, reachable_from-IsSetOf, intersection-IsSetOf, difference-IsSetOf, union-IsSetOf,
  measure-Measures,
}
use bubblepprof.Session.Compare.{Comparison, Parts, measure_parts, compare_sets, compare_requests}

pub IsSplit-left : (a b : List ℕ) → IsSplit a (difference a b) (intersection a b)
IsSplit-left a b = record {
  covered = λ x. ground (arith, elem-difference a b x, elem-intersection a b x);
  apart = λ x. ground (arith, elem-difference a b x, elem-intersection a b x);
}

IsSplit-union : (a b : List ℕ) → IsSplit (union a b) a (difference b a)
IsSplit-union a b = record {
  covered = λ x. ground (arith, elem-difference b a x, elem-union a b x);
  apart = λ x. ground (arith, elem-difference b a x);
}

measure_parts-eq-ok :
    (g : Option Graph) (a b : List ℕ) (p : Parts)
    → measure_parts g a b ≡ ok p
    → (measure g (difference a b) ≡ ok p.a_only)
      × (measure g (difference b a) ≡ ok p.b_only)
      × (measure g (intersection a b) ≡ ok p.shared)
      × (measure g (union a b) ≡ ok p.union)
unfolding measure_parts
measure_parts-eq-ok g a b p h =
    let (m1, e1, h1) = >>=-eq-ok (measure g (difference a b)) _ h in
    let (m2, e2, h2) = >>=-eq-ok (measure g (difference b a)) _ h1 in
    let (m3, e3, h3) = >>=-eq-ok (measure g (intersection a b)) _ h2 in
    let (m4, e4, h4) = >>=-eq-ok (measure g (union a b)) _ h3 in ground arith

-- What four measures report of two sets of objects, given by properties.
abbrev pub AreParts :
    Graph → (ℕ → Type 0) → (ℕ → Type 0) → Measure → Measure → Measure → Measure → Type 0
AreParts g P Q a_only b_only shared union =
    Measures g (λ x. P x × ¬ Q x) a_only
    × Measures g (λ x. Q x × ¬ P x) b_only
    × Measures g (λ x. P x × Q x) shared
    × Measures g (λ x. P x ⊎ Q x) union
    × (union.objects ≡ a_only.objects + b_only.objects + shared.objects)
    × (union.bytes ≡ a_only.bytes + b_only.bytes + shared.bytes)

module _ (g : Graph) (P Q : ℕ → Type 0) (a b : List ℕ) (left : IsSetOf g P a)
    (right : IsSetOf g Q b) where
  parts_sum :
      (a_only b_only shared all : Measure)
      → a_only ≡ measure_of g (difference a b)
      → b_only ≡ measure_of g (difference b a)
      → shared ≡ measure_of g (intersection a b)
      → all ≡ measure_of g (union a b)
      → (all.objects ≡ a_only.objects + b_only.objects + shared.objects)
        × (all.bytes ≡ a_only.bytes + b_only.bytes + shared.bytes)
  parts_sum a_only b_only shared all e1 e2 e3 e4 =
      let only_a = (difference-IsSetOf g P Q a b left right).objects in
      let only_b = (difference-IsSetOf g Q P b a right left).objects in
      let both = (intersection-IsSetOf g P Q a b left right).objects in
      let whole = (union-IsSetOf g P Q a b left right).objects in
      rw (e1, e2, e3, e4)
        (
          omega (
            arith,
            length-split g (union a b) a (difference b a) whole left.objects only_b
                (IsSplit-union a b),
            length-split g a (difference a b) (intersection a b) left.objects only_a both
                (IsSplit-left a b),
          ),
          omega (
            arith,
            bytes_in-split g.objects 0 (union a b) a (difference b a) (IsSplit-union a b),
            bytes_in-split g.objects 0 a (difference a b) (intersection a b) (IsSplit-left a b),
          ),
        )

  measure_parts-AreParts :
      (p : Parts)
      → measure_parts (some g) a b ≡ ok p
      → AreParts g P Q p.a_only p.b_only p.shared p.union
  measure_parts-AreParts p h =
      let (e1, e2, e3, e4) = measure_parts-eq-ok (some g) a b p h in
      let only_a = difference-IsSetOf g P Q a b left right in
      let only_b = difference-IsSetOf g Q P b a right left in
      let both = intersection-IsSetOf g P Q a b left right in
      let whole = union-IsSetOf g P Q a b left right in
      let (objects, bytes) =
        parts_sum p.a_only p.b_only p.shared p.union (measure-eq-ok g _ _ only_a.objects e1)
          (measure-eq-ok g _ _ only_b.objects e2) (measure-eq-ok g _ _ both.objects e3)
          (measure-eq-ok g _ _ whole.objects e4) in
      (
        measure-Measures g _ _ p.a_only only_a e1,
        measure-Measures g _ _ p.b_only only_b e2,
        measure-Measures g _ _ p.shared both e3,
        measure-Measures g _ _ p.union whole e4,
        objects,
        bytes,
      )

  pub measure_parts_fits :
      sum_sizes g.objects ≤ max_uint64 → (p : Parts) × (measure_parts (some g) a b ≡ ok p)
  unfolding measure_parts
  measure_parts_fits fits = (
    record {
      a_only = measure_of g (difference a b);
      b_only = measure_of g (difference b a);
      shared = measure_of g (intersection a b);
      union = measure_of g (union a b);
    },
    rw
        (
          measure_fits g (difference a b) (difference-IsSetOf g P Q a b left right).objects fits,
          measure_fits g (difference b a) (difference-IsSetOf g Q P b a right left).objects fits,
          measure_fits g (intersection a b) (intersection-IsSetOf g P Q a b left right).objects
              fits,
          measure_fits g (union a b) (union-IsSetOf g P Q a b left right).objects fits,
        )
        refl,
  )

-- The objects that the goroutines chosen by a request hold.
abbrev pub HeldFor : Session → Request → Analysis → Graph → ℕ → Type 0
HeldFor s req a g = Reachable g (root_ids (all_roots (chosen s req a)))

pub chosen-IsSetOf :
    (s : Session) (req : Request) (a : Analysis) (g : Graph) (c : Choice)
    → selected s req a ≡ ok c
    → IsSetOf g (HeldFor s req a g) (reachable_from (some g) c.roots)
chosen-IsSetOf s req a g c h =
    rw (selected-eq-ok s req a c h) (reachable_from-IsSetOf g (all_roots (chosen s req a)))

pub walk-eq-ok :
    (graph : Option Graph) (g : Graph) (roots : List RootRef) (set : List ℕ)
    → graph ≡ some g
    → walk graph roots ≡ ok set
    → set ≡ reachable_from (some g) roots
walk-eq-ok graph g roots set e h =
    let whole : walk (some g) roots ≡ ok set = rw e at h in
    let same : ok set ≡ ok (reachable_from (some g) roots) = sym whole ∙ walk_lem g roots in cc

-- The steps of a comparison that succeeds.
compare_sets-eq-ok :
    (s : Session) (analysis : Analysis) (x y : Request) (out : Comparison) (set : List ℕ)
    → compare_sets s analysis x y ≡ ok (out, set)
    → (ca : Choice) × (cb : Choice) × (left : List ℕ) × (right : List ℕ) × (selected s x analysis
        ≡ ok ca)
      × (selected s y analysis ≡ ok cb)
      × (walk analysis.graph ca.roots ≡ ok left)
      × (walk analysis.graph cb.roots ≡ ok right)
      × (measure_parts analysis.graph left right
          ≡ ok (record {
            a_only = out.a_only;
            b_only = out.b_only;
            shared = out.shared;
            union = out.union;
          }))
      × (intersection left right ≡ set)
unfolding compare_sets
compare_sets-eq-ok s analysis x y out set h =
    let (ca, ea, h1) = >>=-eq-ok (selected s x analysis) _ h in
    let (cb, eb, h2) = >>=-eq-ok (selected s y analysis) _ h1 in
    let (left, el, h3) = >>=-eq-ok (walk analysis.graph ca.roots) _ h2 in
    let (right, er, h4) = >>=-eq-ok (walk analysis.graph cb.roots) _ h3 in
    let (p, ep, h5) = >>=-eq-ok (measure_parts analysis.graph left right) _ h4 in
    (ca, cb, left, right, ea, eb, el, er, ep ∙ ap ok (ground arith), ground arith)

-- A comparison that succeeds.
pub compare_sets-AreParts :
    (s : Session) (analysis : Analysis) (x y : Request) (g : Graph) (out : Comparison)
    (set : List ℕ)
    → analysis.graph ≡ some g
    → compare_sets s analysis x y ≡ ok (out, set)
    → AreParts g
        (HeldFor s x analysis g)
        (HeldFor s y analysis g)
        out.a_only
        out.b_only
        out.shared
        out.union
      × IsSetOf g (λ i. HeldFor s x analysis g i × HeldFor s y analysis g i) set
compare_sets-AreParts s analysis x y g out set graph h =
    let (ca, cb, left, right, ea, eb, el, er, ep, same) =
      compare_sets-eq-ok s analysis x y out set h in
    let l = walk-eq-ok analysis.graph g ca.roots left graph el in
    let r = walk-eq-ok analysis.graph g cb.roots right graph er in
    let P = HeldFor s x analysis g in
    let Q = HeldFor s y analysis g in
    let sl : IsSetOf g P left = subst (IsSetOf g P) (sym l) (chosen-IsSetOf s x analysis g ca ea) in
    let sr : IsSetOf g Q right =
      subst (IsSetOf g Q) (sym r) (chosen-IsSetOf s y analysis g cb eb) in
    (
      measure_parts-AreParts g P Q left right sl sr _
          (sym (ap (λ (k : Option Graph). measure_parts k left right) graph) ∙ ep),
      subst (IsSetOf g (λ i. P i × Q i)) same (intersection-IsSetOf g P Q left right sl sr),
    )

-- A successful comparison of two requests counts, each exactly once and with the exact sum of the
-- sizes: the objects that only the goroutines chosen by the first hold, those that only the second
-- holds, those that both hold, and those that at least one holds. The first three sum up to the
-- last.
pub compare_requests_exact :
    (s : Session) (x y : Request) (a : Analysis) (g : Graph) (out : Comparison)
    → s.analysis ≡ some a
    → a.graph ≡ some g
    → compare_requests s x y ≡ ok out
    → AreParts g (HeldFor s x a g) (HeldFor s y a g) out.a_only out.b_only out.shared out.union
unfolding compare_requests
compare_requests_exact s x y a g out open_session graph h =
    let (a', e, h1) = >>=-eq-ok (ready s) _ h in
    let ((out', set), e', h2) = >>=-eq-ok (compare_sets s a' x y) _ h1 in
    let same : a' ≡ a = ground (arith, ready-eq-ok s a' e) in
    let same_out : out' ≡ out = ground arith in
    let found : compare_sets s a x y ≡ ok (out, set) =
      ap (λ (b : Analysis). compare_sets s b x y) (sym same)
      ∙ e'
      ∙ ap (λ (c : Comparison). ok (c, set)) same_out in
    (compare_sets-AreParts s a x y g out set graph found).0
