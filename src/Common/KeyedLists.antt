-- ===== src/Common/KeyedLists.antt =====
-- Adding the entries of a list with distinct keys, one by one, gives the list.
use mathlib.Core.Path.{◌≡◌, refl, ap}
use mathlib.Core.Logic.{inl, inr}
use mathlib.Core.List.{List, [], ◌∷◌, ◌++◌}
use mathlib.Core.Option.{none}
use native.Mathlib.Omega.{arith}
use bubblepprof.Common.Tests.{Bool-cases}
use bubblepprof.Common.Strings.{Text, text_eq, text_eq_iff}
use bubblepprof.Common.Keyed.{value_at, update_at, IsKeyed}

module _ {ℓ} {V : Type ℓ} where
  value_at-middle :
      (k : Text) (v : V) (m rest : List (Text × V)) → value_at k (m ++ ((k, v) ∷ rest)) ≡ none → ⊥
  unfolding value_at
  value_at-middle k v [] rest h = ground (arith, text_eq_iff k k)
  value_at-middle k v ((j, w) ∷ m) rest h = elim (Bool-cases (text_eq j k)) [
    | inl e ↦ ground (arith, e)
    | inr e ↦ value_at-middle k v m rest (rw e at h)
  ]

  pub IsKeyed-middle :
      (k : Text) (v : V) (m rest : List (Text × V))
      → IsKeyed (m ++ ((k, v) ∷ rest))
      → value_at k m ≡ none
  unfolding value_at
  IsKeyed-middle k v [] rest h = refl
  IsKeyed-middle k v ((j, w) ∷ m) rest h = elim (Bool-cases (text_eq j k)) [
    | inl e ↦ absurd (value_at-middle k v m rest (rw ((text_eq_iff j k).0 e) at h.0))
    | inr e ↦ rw e (IsKeyed-middle k v m rest h.1)
  ]

  -- A new key goes to the end.
  pub update_at_new :
      (d : V) (f : V → V) (k : Text) (m : List (Text × V))
      → value_at k m ≡ none
      → update_at d f k m ≡ m ++ ((k, f d) ∷ [])
  unfolding value_at update_at
  update_at_new d f k [] h = refl
  update_at_new d f k ((j, v) ∷ m) h = elim (Bool-cases (text_eq j k)) [
    | inl e ↦ absurd (ground (arith, e))
    | inr e ↦
        rw e (ap (λ (rest : List (Text × V)). (j, v) ∷ rest) (update_at_new d f k m (rw e at h)))
  ]
