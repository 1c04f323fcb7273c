-- ===== src/Dump/Monad.antt =====
-- The state of a reader or parser is passed along explicitly: an action takes it to a value with
-- the next state, or fails.
use bubblepprof.Common.Result.{Result, ok, err, stuck}
use bubblepprof.Dump.Errors.{DumpError}

abbrev pub M : Type 0 → Type 0 → Type 0
M S A = S → Result DumpError (A × S)

abbrev pub continue :
    {S A B : Type 0} → Result DumpError (A × S) → (A → M S B) → Result DumpError (B × S)
continue (ok (a, s)) f = f a s
continue (err e) f = err e
continue stuck f = stuck

infixl 5 ◌>>=◌ ◌>>◌
abbrev pub ◌>>=◌ : {S A B : Type 0} → M S A → (A → M S B) → M S B
◌>>=◌ m f s = continue (m s) f

abbrev pub ◌>>◌ : {S A B : Type 0} → M S A → M S B → M S B
m >> k = m >>= λ _. k

abbrev pub pure : {S A : Type 0} → A → M S A
pure a s = ok (a, s)

abbrev pub fail : {S A : Type 0} → DumpError → M S A
fail e s = err e

-- `fmt.Errorf("name: %w", err)`: the error of an action is wrapped.
abbrev pub relabel :
    {S A : Type 0} → (DumpError → DumpError) → Result DumpError (A × S) → Result DumpError (A × S)
relabel f (ok r) = ok r
relabel f (err e) = err (f e)
relabel f stuck = stuck

unfoldable pub on_error : {S A : Type 0} → (DumpError → DumpError) → M S A → M S A
on_error f m s = relabel f (m s)

unfoldable pub gets : {S A : Type 0} → (S → A) → M S A
gets f s = ok (f s, s)

unfoldable pub update : {S : Type 0} → (S → S) → M S (Unit {0})
update f s = ok (tt, f s)
