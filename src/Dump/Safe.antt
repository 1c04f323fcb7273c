-- ===== src/Dump/Safe.antt =====
-- What holds of every run of an action: it does not get stuck, and a state that it leaves behind is
-- related to the state that it started in.
use bubblepprof.Common.{◌≡◌, sym, Bool, true, false, if◌then◌else◌}
use mathlib.Core.Path.{subst}
use bubblepprof.Common.Result.{Result, ok, err, stuck}
use bubblepprof.Dump.Errors.{DumpError}
use bubblepprof.Dump.Monad.{M, continue, relabel, ◌>>=◌, pure, fail, on_error, update}

unfoldable pub Outcome : {S A : Type 0} → (S → S → Type 0) → S → Result DumpError (A × S) → Type 0
Outcome R s (ok (a, s')) = R s s'
Outcome R s (err e) = Unit
Outcome R s stuck = ⊥

pub record Safe {S A : Type 0} (R : S → S → Type 0) (m : M S A) : Type 0 where
  pub at : (s : S) → Outcome R s (m s)

-- What holds behind a state `t` that was reached from `s` holds of the whole run.
pub Outcome-shift :
    {S A : Type 0} (R Q : S → S → Type 0) (s t : S) (r : Result DumpError (A × S))
    → ((u : S) → R t u → Q s u)
    → Outcome R t r
    → Outcome Q s r
unfolding Outcome
Outcome-shift R Q s t (ok (a, u)) f h = f u h
Outcome-shift R Q s t (err e) f h = tt
Outcome-shift R Q s t stuck f h = h

pub Outcome-ok :
    {S A : Type 0} (R : S → S → Type 0) (s t : S) (a : A) → R s t → Outcome R s (ok (a, t))
unfolding Outcome
Outcome-ok R s t a h = h

pub Outcome-value :
    {S A : Type 0} (R : S → S → Type 0) (s t : S) (a : A) → Outcome R s (ok (a, t)) → R s t
unfolding Outcome
Outcome-value R s t a h = h

pub Outcome-not-stuck :
    {S : Type 0} (A : Type 0) (R : S → S → Type 0) (s : S) → Outcome {A = A} R s stuck → ⊥
unfolding Outcome
Outcome-not-stuck A R s h = h

pub Outcome-err :
    {S : Type 0} (A : Type 0) (R : S → S → Type 0) (s : S) (e : DumpError)
    → Outcome {A = A} R s (err e)
unfolding Outcome
Outcome-err A R s e = tt

pub Outcome-eq :
    {S A : Type 0} (R : S → S → Type 0) (s : S) (q r : Result DumpError (A × S))
    → q ≡ r
    → Outcome R s r
    → Outcome R s q
Outcome-eq R s q r e h = subst (λ x. Outcome R s x) (sym e) h

pub Outcome-if :
    {S A : Type 0} (R : S → S → Type 0) (s : S) (b : Bool) (q r : Result DumpError (A × S))
    → Outcome R s q
    → Outcome R s r
    → Outcome R s (if b then q else r)
Outcome-if R s true q r h k = h
Outcome-if R s false q r h k = k

pub Safe-if :
    {S A : Type 0} (R : S → S → Type 0) (b : Bool) (m n : M S A)
    → Safe R m
    → Safe R n
    → Safe R (if b then m else n)
Safe-if R true m n h k = h
Safe-if R false m n h k = k

module _ {S : Type 0} (R : S → S → Type 0) (same : (s : S) → R s s)
    (chain : (s t u : S) → R s t → R t u → R s u) where
  pub Safe-pure : {A : Type 0} (a : A) → Safe R (pure {S = S} a)
  unfolding Outcome
  Safe-pure a = record { at = λ s. same s }

  pub Safe-fail : {A : Type 0} (e : DumpError) → Safe R (fail {S = S} {A = A} e)
  unfolding Outcome
  Safe-fail e = record { at = λ s. tt }

  pub Safe-update : (f : S → S) → ((s : S) → R s (f s)) → Safe R (update f)
  unfolding update Outcome
  Safe-update f h = record { at = h }

  pub Outcome-continue :
      {A B : Type 0} (s : S) (r : Result DumpError (A × S)) (f : A → M S B)
      → Outcome R s r
      → ((a : A) (t : S) → R s t → Outcome R t (f a t))
      → Outcome R s (continue r f)
  unfolding Outcome
  Outcome-continue s (ok (a, t)) f h k =
      Outcome-shift R R s t (f a t) (λ u. chain s t u h) (k a t h)
  Outcome-continue s (err e) f h k = tt
  Outcome-continue s stuck f h k = h

  pub Safe-bind :
      {A B : Type 0} (m : M S A) (f : A → M S B)
      → Safe R m
      → ((a : A) → Safe R (f a))
      → Safe R (m >>= f)
  Safe-bind m f h k = record { at = λ s. Outcome-continue s (m s) f (h.at s) (λ a t _. (k a).at t) }

  pub Safe-on_error :
      {A : Type 0} (f : DumpError → DumpError) (m : M S A) → Safe R m → Safe R (on_error f m)
  unfolding on_error Outcome
  Safe-on_error f m h = record { at = λ s. relabelled s (m s) (h.at s) }
    where
      relabelled :
          {A : Type 0} (s : S) (r : Result DumpError (A × S))
          → Outcome R s r
          → Outcome R s (relabel f r)
      relabelled s (ok p) h = h
      relabelled s (err e) h = tt
      relabelled s stuck h = h
