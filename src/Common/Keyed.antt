-- ===== src/Common/Keyed.antt =====
-- Go maps with string keys as association lists with distinct keys, and the order of strings.
use mathlib.Core.Path.{◌≡◌, refl, sym, ◌∙◌}
use mathlib.Core.Logic.{inl, inr}
use mathlib.Core.Bool.{Bool, true, false, ◌&&◌, ◌||◌}
use mathlib.Core.List.{List, [], ◌∷◌}
use mathlib.Core.Option.{Option, none, some}
use native.Mathlib.Omega.{arith}
use bubblepprof.Common.Tests.{◌==◌, if◌then◌else◌, ltb, Bool-cases}
use bubblepprof.Common.Lists.{All, All-map}
use bubblepprof.Common.Strings.{Text, text_eq, text_eq_iff}

-- `a < b` on strings: by bytes.
unfoldable pub text_ltb : Text → Text → Bool
text_ltb [] [] = false
text_ltb [] (y ∷ ys) = true
text_ltb (x ∷ xs) [] = false
text_ltb (x ∷ xs) (y ∷ ys) = ltb x y || x == y && text_ltb xs ys

module _ {ℓ} {V : Type ℓ} where
  -- `m[k]`, with `none` for a key that is not there
  unfoldable pub value_at : Text → List (Text × V) → Option V
  value_at k [] = none
  value_at k ((j, v) ∷ m) = if text_eq j k then some v else value_at k m

  -- `m[k] = f(m[k])`, where a missing key reads as `d`
  unfoldable pub update_at : V → (V → V) → Text → List (Text × V) → List (Text × V)
  update_at d f k [] = (k, f d) ∷ []
  update_at d f k ((j, v) ∷ m) = if text_eq j k then (j, f v) ∷ m else (j, v) ∷ update_at d f k m

  -- The value with its zero value for a missing key.
  abbrev pub or_default : V → Option V → V
  or_default d none = d
  or_default d (some v) = v

  pub value_at-update_at :
      (d : V) (f : V → V) (k j : Text) (m : List (Text × V))
      → value_at j (update_at d f k m)
        ≡ (if text_eq k j then some (f (or_default d (value_at k m))) else value_at j m)
  unfolding value_at update_at
  value_at-update_at d f k j [] = refl
  value_at-update_at d f k j ((i, v) ∷ m) =
      ground
        (arith, text_eq_iff k j, text_eq_iff i k, text_eq_iff i j, value_at-update_at d f k j m)

pub text_ltb_asym : (a b : Text) → text_ltb a b ≡ true → text_ltb b a ≡ false
unfolding text_ltb
text_ltb_asym [] [] h = refl
text_ltb_asym [] (y ∷ ys) h = refl
text_ltb_asym (x ∷ xs) [] h = cc
text_ltb_asym (x ∷ xs) (y ∷ ys) h = ground (arith, text_ltb_asym xs ys)

pub text_ltb_trans_not :
    (a b c : Text) → text_ltb b a ≡ false → text_ltb c b ≡ false → text_ltb c a ≡ false
unfolding text_ltb
text_ltb_trans_not [] [] [] h k = refl
text_ltb_trans_not [] [] (z ∷ zs) h k = refl
text_ltb_trans_not [] (y ∷ ys) [] h k = cc
text_ltb_trans_not [] (y ∷ ys) (z ∷ zs) h k = refl
text_ltb_trans_not (x ∷ xs) [] c h k = cc
text_ltb_trans_not (x ∷ xs) (y ∷ ys) [] h k = cc
text_ltb_trans_not (x ∷ xs) (y ∷ ys) (z ∷ zs) h k = ground (arith, text_ltb_trans_not xs ys zs)

module _ {ℓ} {V : Type ℓ} where
  -- No key occurs twice.
  abbrev pub IsKeyed : List (Text × V) → Type ℓ
  IsKeyed [] = Unit {ℓ}
  IsKeyed ((k, v) ∷ m) = (value_at k m ≡ none) × IsKeyed m

  pub update_at-IsKeyed :
      (d : V) (f : V → V) (k : Text) (m : List (Text × V)) → IsKeyed m → IsKeyed (update_at d f k m)
  unfolding update_at value_at
  update_at-IsKeyed d f k [] h = (refl, tt)
  update_at-IsKeyed d f k ((j, v) ∷ m) h = elim (Bool-cases (text_eq j k)) [
    | inl e ↦ rw e h
    | inr e ↦ rw e (
      ground (arith, value_at-update_at d f k j m, text_eq_iff j k, text_eq_iff k j),
      update_at-IsKeyed d f k m h.1,
    )
  ]

  pub IsKeyed-value_at : (m : List (Text × V)) → IsKeyed m → All (λ p. value_at p.0 m ≡ some p.1) m
  unfolding value_at
  IsKeyed-value_at [] h = tt
  IsKeyed-value_at ((k, v) ∷ m) h = (
    rw ((text_eq_iff k k).1 refl) refl,
    All-map m (λ p e. later p.0 p.1 e) (IsKeyed-value_at m h.1),
  )
    where
      later :
          (j : Text) (w : V)
          → value_at j m ≡ some w
          → (if text_eq k j then some v else value_at j m) ≡ some w
      later j w e = elim (Bool-cases (text_eq k j)) [
        | inl same ↦
            let gone : value_at j m ≡ none = rw ((text_eq_iff k j).0 same) at h.0 in
            let bad : none ≡ some w = sym gone ∙ e in cc
        | inr differs ↦ rw differs e
      ]
