-- ===== src/Common/Maps.antt =====
-- Go maps with uint64 keys as association lists with distinct keys.
use Prim.Native.Nat.{ℕ}
use mathlib.Core.Path.{◌≡◌, refl}
use mathlib.Core.List.{List, [], ◌∷◌}
use mathlib.Core.Option.{Option, none, some}
use native.Mathlib.Omega.{arith}
use bubblepprof.Common.Tests.{◌==◌, if◌then◌else◌}

module _ {ℓ} {V : Type ℓ} where
  -- `m[k]`, with `none` for a key that is not there
  unfoldable pub lookup : ℕ → List (ℕ × V) → Option V
  lookup k [] = none
  lookup k ((j, v) ∷ m) = if j == k then some v else lookup k m

  -- `m[k] = v`
  unfoldable pub assign : ℕ → V → List (ℕ × V) → List (ℕ × V)
  assign k v [] = (k, v) ∷ []
  assign k v ((j, w) ∷ m) = if j == k then (k, v) ∷ m else (j, w) ∷ assign k v m

  pub lookup-assign :
      (k j : ℕ) (v : V) (m : List (ℕ × V))
      → lookup j (assign k v m) ≡ (if k == j then some v else lookup j m)
  unfolding lookup assign
  lookup-assign k j v [] = refl
  lookup-assign k j v ((i, w) ∷ m) = ground (arith, lookup-assign k j v m)
