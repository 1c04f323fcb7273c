-- ===== src/Session/SetOf.antt =====
-- Sets of objects that hold exactly the objects with a property, and what the set operations of
-- multibubble.go make of them.
use bubblepprof.Common.{
  ℕ, ◌+◌, ◌≡◌, ◌↔◌, ◌⊎◌, inl, inr, true, List, some, arith, elem, Bool-cases, ap,
}
use bubblepprof.Common.Result.{ok}
use bubblepprof.Graph.{Graph, RootRef}
use bubblepprof.Graph.Reach.{root_ids, reachable_from}
use bubblepprof.Graph.Correct.{Reachable, reachable_from_correct}
use bubblepprof.Session.State.{Measure, measure}
use bubblepprof.Session.Sets.{
  intersection, difference, union, elem-intersection, elem-difference, elem-union,
  intersection-IsDistinct, difference-IsDistinct, union-IsDistinct,
}
use bubblepprof.Session.Splits.{IsObjectSet, IsSplit, length-split, bytes_in-split}
use bubblepprof.Session.Measured.{Measures, measure-eq-ok}
use bubblepprof.Session.Walked.{walked-IsObjectSet}

pub record IsSetOf (g : Graph) (P : ℕ → Type 0) (ids : List ℕ) : Type 0 where
  pub objects : IsObjectSet g ids
  pub exact : (a : ℕ) → (elem a ids ≡ true) ↔ P a

pub reachable_from-IsSetOf :
    (g : Graph) (roots : List RootRef)
    → IsSetOf g (Reachable g (root_ids roots)) (reachable_from (some g) roots)
reachable_from-IsSetOf g roots = record {
  objects = walked-IsObjectSet g roots;
  exact = reachable_from_correct g roots;
}

module _ (g : Graph) (P Q : ℕ → Type 0) (a b : List ℕ) (left : IsSetOf g P a)
    (right : IsSetOf g Q b) where
  pub intersection-IsSetOf : IsSetOf g (λ x. P x × Q x) (intersection a b)
  intersection-IsSetOf = record {
    objects = (
      intersection-IsDistinct a b left.objects.0 right.objects.0,
      λ x m. left.objects.1 x (ground (arith, elem-intersection a b x)),
    );
    exact = λ x. (
      λ m. (
        (left.exact x).0 (ground (arith, elem-intersection a b x)),
        (right.exact x).0 (ground (arith, elem-intersection a b x)),
      ),
      λ (p, q). ground (arith, elem-intersection a b x, (left.exact x).1 p, (right.exact x).1 q),
    );
  }

  pub difference-IsSetOf : IsSetOf g (λ x. P x × ¬ Q x) (difference a b)
  difference-IsSetOf = record {
    objects = (
      difference-IsDistinct a b left.objects.0,
      λ x m. left.objects.1 x (ground (arith, elem-difference a b x)),
    );
    exact = λ x. (
      λ m. (
        (left.exact x).0 (ground (arith, elem-difference a b x)),
        λ q. ground (arith, elem-difference a b x, (right.exact x).1 q),
      ),
      λ (p, absent). elim (Bool-cases (elem x b)) [
        | inl e ↦ absurd (absent ((right.exact x).0 e))
        | inr e ↦ ground (arith, elem-difference a b x, (left.exact x).1 p)
      ],
    );
  }

  pub union-IsSetOf : IsSetOf g (λ x. P x ⊎ Q x) (union a b)
  union-IsSetOf = record {
    objects = (
      union-IsDistinct a b,
      λ x m. elim (Bool-cases (elem x a)) [
        | inl e ↦ left.objects.1 x e
        | inr e ↦ right.objects.1 x (ground (arith, elem-union a b x))
      ],
    );
    exact = λ x. (
      λ m. elim (Bool-cases (elem x a)) [
        | inl e ↦ inl ((left.exact x).0 e)
        | inr e ↦ inr ((right.exact x).0 (ground (arith, elem-union a b x)))
      ],
      λ r. elim r [
        | inl p ↦ ground (arith, elem-union a b x, (left.exact x).1 p)
        | inr q ↦ ground (arith, elem-union a b x, (right.exact x).1 q)
      ],
    );
  }

-- What a measured set counts.
pub measure-Measures :
    (g : Graph) (P : ℕ → Type 0) (ids : List ℕ) (m : Measure)
    → IsSetOf g P ids
    → measure (some g) ids ≡ ok m
    → Measures g P m
measure-Measures g P ids m set h =
    let e = measure-eq-ok g ids m set.objects h in
    record {
      ids = ids;
      distinct = set.objects.0;
      exact = set.exact;
      count = ap (λ (k : Measure). k.objects) e;
      total = ap (λ (k : Measure). k.bytes) e;
    }

-- One measure is the sum of two others.
abbrev pub IsSum : Measure → Measure → Measure → Type 0
IsSum whole left right =
    (whole.objects ≡ left.objects + right.objects) × (whole.bytes ≡ left.bytes + right.bytes)

-- The measures of the two parts of a set sum up to the measure of the set.
pub measure-split :
    (g : Graph) (whole left right : List ℕ) (w l r : Measure)
    → IsObjectSet g whole
    → IsObjectSet g left
    → IsObjectSet g right
    → IsSplit whole left right
    → measure (some g) whole ≡ ok w
    → measure (some g) left ≡ ok l
    → measure (some g) right ≡ ok r
    → IsSum w l r
measure-split g whole left right w l r dw dl dr split hw hl hr =
    let ew = measure-eq-ok g whole w dw hw in
    let el = measure-eq-ok g left l dl hl in
    let er = measure-eq-ok g right r dr hr in
    rw (ew, el, er)
      (
        length-split g whole left right dw dl dr split,
        bytes_in-split g.objects 0 whole left right split,
      )
