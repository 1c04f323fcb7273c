-- ===== src/Session/Cut.antt =====
-- What the limits of Shared and Top (multibubble.go) show of a listing.
use bubblepprof.Common.{
  ℕ, zero, suc, ◌<◌, ◌≡◌, ◌↔◌, refl, ap, inl, inr, true, false, List, [], ◌∷◌, arith, length,
  length-map, take, map, Bool-cases, ℤ, pos, negsuc, is_negative, IsCut,
}
use bubblepprof.Session.Compare.{is_cut, cut_to}

pub nonnegative : (limit : ℤ) → is_negative limit ≡ false → (n : ℕ) × (limit ≡ pos n)
nonnegative (pos n) h = (n, refl)
nonnegative (negsuc n) h = cc

pub cut_to-IsCut {ℓ} : {A : Type ℓ} (n : ℕ) (xs : List A) → IsCut n xs (cut_to (pos n) xs)
cut_to-IsCut n xs = elim (Bool-cases (is_cut (pos n) xs)) [
  | inl e ↦ rw e (inr (ground arith, ground arith, refl))
  | inr e ↦ rw e (inl (ground arith, refl))
]

pub is_cut_iff {ℓ} :
    {A : Type ℓ} (n : ℕ) (xs : List A) → (is_cut (pos n) xs ≡ true) ↔ ((0 < n) × (n < length xs))
is_cut_iff n xs = (λ h. ground arith, λ h. ground arith)

map-take {ℓ κ} :
    {A : Type ℓ} {B : Type κ} (f : A → B) (n : ℕ) (xs : List A)
    → map f (take n xs) ≡ take n (map f xs)
map-take f zero xs = refl
map-take f (suc n) [] = refl
map-take f (suc n) (x ∷ xs) = ap (λ ys. f x ∷ ys) (map-take f n xs)

pub map-cut_to {ℓ κ} :
    {A : Type ℓ} {B : Type κ} (f : A → B) (limit : ℤ) (xs : List A)
    → map f (cut_to limit xs) ≡ cut_to limit (map f xs)
map-cut_to f limit xs = elim (Bool-cases (is_cut limit xs)) [
  | inl e ↦ rw (length-map, e) (map-take f _ xs)
  | inr e ↦ rw (length-map, e) refl
]
