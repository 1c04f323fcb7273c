-- ===== src/Session/RowSets.antt =====
-- The sets of one row of Top (multibubble.go).
use bubblepprof.Common.{
  ℕ, ◌≡◌, ◌↔◌, ◌⊎◌, sym, List, arith, Bool, true, ltb, elem, elem-nil, Text, not, ◌&&◌, ◌||◌,
}
use mathlib.Core.Path.{subst}
use bubblepprof.Graph.{Graph}
use bubblepprof.Graph.Types.{Analysis}
use bubblepprof.Session.State.{Session}
use bubblepprof.Session.Sets.{
  union, difference, elem-union, elem-difference, union-IsDistinct, difference-IsDistinct,
}
use bubblepprof.Session.Splits.{IsSplit}
use bubblepprof.Session.SetOf.{IsSetOf}
use bubblepprof.Session.Top.{Classes, no_classes, classify, Backdrop}
use bubblepprof.Session.Classes.{
  in_outside, in_others, classify-Adds, classify-AreDistinct, not_iff, and_iff, or_iff,
  sieve-IsSetOf,
}
use bubblepprof.Session.Backdrop.{HeldInGroup, HeldBeside, HeldApart, beside_iff, IsBackdrop}

-- The sets of a row, over the goroutines of the analysis.
pub record AreClasses (s : Session) (by : Text) (a : Analysis) (g : Graph) (value : Text)
    (set : List ℕ) (c : Classes) : Type 0 where
  pub exclusive :
      IsSetOf g
        (λ x.
          HeldInGroup s by a g value x
          × ((¬ HeldBeside s by a g value x) × (¬ HeldApart s by a g x)))
        c.exclusive
  pub shared :
      IsSetOf g
        (λ x. HeldInGroup s by a g value x × (HeldBeside s by a g value x ⊎ HeldApart s by a g x))
        (difference set c.exclusive)
  pub bubbles_only :
      IsSetOf g
        (λ x.
          HeldInGroup s by a g value x × (HeldBeside s by a g value x × (¬ HeldApart s by a g x)))
        c.bubbles_only
  pub other_only :
      IsSetOf g
        (λ x.
          HeldInGroup s by a g value x × ((¬ HeldBeside s by a g value x) × HeldApart s by a g x))
        c.other_only
  pub both :
      IsSetOf g
        (λ x. HeldInGroup s by a g value x × (HeldBeside s by a g value x × HeldApart s by a g x))
        c.both
  pub bubble_overlap :
      IsSetOf g
        (λ x. HeldInGroup s by a g value x × HeldBeside s by a g value x)
        (union c.bubbles_only c.both)
  pub other_overlap :
      IsSetOf g
        (λ x. HeldInGroup s by a g value x × HeldApart s by a g x)
        (union c.other_only c.both)
  pub set_split : IsSplit set c.exclusive (difference set c.exclusive)
  pub shared_split : IsSplit (difference set c.exclusive) (union c.bubbles_only c.both) c.other_only
  pub bubble_split : IsSplit (union c.bubbles_only c.both) c.bubbles_only c.both

module _ (s : Session) (by : Text) (a : Analysis) (g : Graph) (back : Backdrop)
    (b : IsBackdrop s by a g back) (value : Text) (set : List ℕ)
    (of_set : IsSetOf g (HeldInGroup s by a g value) set) where
  abbrev classes : Classes
  classes = classify back.outside back.membership no_classes set

  -- The tests of the loop, on the objects of the group.
  abbrev t : ℕ → Bool
  t = in_others back.outside back.membership

  abbrev o : ℕ → Bool
  o = in_outside back.outside back.membership

  others_iff : (x : ℕ) → HeldInGroup s by a g value x → (t x ≡ true) ↔ HeldBeside s by a g value x
  others_iff x held =
      subst (λ (n : ℕ). (ltb 1 n ≡ true) ↔ HeldBeside s by a g value x) (sym (b.counted x))
        (beside_iff s by a g x value held)

  outside_iff : (x : ℕ) → (o x ≡ true) ↔ HeldApart s by a g x
  outside_iff x = b.outside.exact x

  members :
      (x : ℕ)
      → (elem x classes.exclusive ≡ (elem x set && (not (t x) && not (o x))))
        × (elem x classes.bubbles_only ≡ (elem x set && (t x && not (o x))))
        × (elem x classes.other_only ≡ (elem x set && (not (t x) && o x)))
        × (elem x classes.both ≡ (elem x set && (t x && o x)))
  members x =
      let (e1, e2, e3, e4) = classify-Adds back.outside back.membership no_classes set x in
      (
        ground (arith, e1, elem-nil x),
        ground (arith, e2, elem-nil x),
        ground (arith, e3, elem-nil x),
        ground (arith, e4, elem-nil x),
      )

  pub classes-AreClasses : AreClasses s by a g value set classes
  classes-AreClasses =
      let (d1, d2, d3, d4) =
        classify-AreDistinct back.outside back.membership no_classes set (tt, tt, tt, tt) in
      let sieve = λ (T : ℕ → Type 0). sieve-IsSetOf g (HeldInGroup s by a g value) T in
      record {
        exclusive =
            sieve _ (λ x. not (t x) && not (o x)) set classes.exclusive of_set
              (λ x p. and_iff _ _ (not_iff (t x) (others_iff x p)) (not_iff (o x) (outside_iff x)))
              (λ x. (members x).0) d1;
        shared =
            sieve _ (λ x. t x || o x) set (difference set classes.exclusive) of_set
              (λ x p. or_iff (t x) (o x) (others_iff x p) (outside_iff x))
              (λ x. ground (arith, elem-difference set classes.exclusive x, (members x).0))
              (difference-IsDistinct set classes.exclusive of_set.objects.0);
        bubbles_only =
            sieve _ (λ x. t x && not (o x)) set classes.bubbles_only of_set
              (λ x p. and_iff _ _ (others_iff x p) (not_iff (o x) (outside_iff x)))
              (λ x. (members x).1) d2;
        other_only =
            sieve _ (λ x. not (t x) && o x) set classes.other_only of_set
              (λ x p. and_iff _ _ (not_iff (t x) (others_iff x p)) (outside_iff x))
              (λ x. (members x).2) d3;
        both =
            sieve _ (λ x. t x && o x) set classes.both of_set
              (λ x p. and_iff _ _ (others_iff x p) (outside_iff x)) (λ x. (members x).3) d4;
        bubble_overlap =
            sieve _ t set (union classes.bubbles_only classes.both) of_set others_iff
              (λ x. ground (
                arith,
                elem-union classes.bubbles_only classes.both x,
                (members x).1,
                (members x).3,
              ))
              (union-IsDistinct classes.bubbles_only classes.both);
        other_overlap =
            sieve _ o set (union classes.other_only classes.both) of_set (λ x p. outside_iff x)
              (λ x.
                ground (
                  arith,
                  elem-union classes.other_only classes.both x,
                  (members x).2,
                  (members x).3,
                ))
              (union-IsDistinct classes.other_only classes.both);
        set_split = record {
          covered = λ x. ground (arith, elem-difference set classes.exclusive x, (members x).0);
          apart = λ x. ground (arith, elem-difference set classes.exclusive x);
        };
        shared_split = record {
          covered = λ x. ground (
            arith,
            elem-difference set classes.exclusive x,
            elem-union classes.bubbles_only classes.both x,
            members x,
          );
          apart = λ x. ground (arith, elem-union classes.bubbles_only classes.both x, members x);
        };
        bubble_split = record {
          covered = λ x. elem-union classes.bubbles_only classes.both x;
          apart = λ x. ground (arith, members x);
        };
      }
