-- ===== src/Graph/Search.antt =====
-- Go's sort.Search, the binary search that the lookups use: the smallest index in [0, n) at which a
-- test that stays true once it is true holds, or n.
use bubblepprof.Common.{
  ℕ, zero, suc, ◌+◌, ◌/◌, ◌≤◌, ◌<◌, ◌≡◌, Bool, true, false, ltb, Bool-cases, inl, inr, arith,
}

-- `for i < j { h := (i+j)/2; if !f(h) { i = h + 1 } else { j = h } }`. The interval shrinks in each
-- round, so its length is enough fuel.
search_loop : ℕ → (ℕ → Bool) → ℕ → ℕ → ℕ
search_loop zero f i j = i
search_loop (suc fuel) f i j = elim (ltb i j) [
  | false ↦ i
  | true ↦ elim (f ((i + j) / 2)) [
    | true ↦ search_loop fuel f i ((i + j) / 2)
    | false ↦ search_loop fuel f ((i + j) / 2 + 1) j
  ]
]

unfoldable pub search : ℕ → (ℕ → Bool) → ℕ
unfolding search_loop
search n f = search_loop n f 0 n

-- `k` is where the test turns from false to true.
pub record IsBoundary (f : ℕ → Bool) (n k : ℕ) : Type 0 where
  pub within : k ≤ n
  pub before : (i : ℕ) → i < k → f i ≡ false
  pub from : (i : ℕ) → k ≤ i → i < n → f i ≡ true

search_loop_done :
    (fuel : ℕ) (f : ℕ → Bool) (i j : ℕ) → ltb i j ≡ false → search_loop (suc fuel) f i j ≡ i
unfolding search_loop
search_loop_done fuel f i j e = ground arith

search_loop_low :
    (fuel : ℕ) (f : ℕ → Bool) (i j : ℕ)
    → ltb i j ≡ true
    → f ((i + j) / 2) ≡ true
    → search_loop (suc fuel) f i j ≡ search_loop fuel f i ((i + j) / 2)
unfolding search_loop
search_loop_low fuel f i j e on = ground arith

search_loop_high :
    (fuel : ℕ) (f : ℕ → Bool) (i j : ℕ)
    → ltb i j ≡ true
    → f ((i + j) / 2) ≡ false
    → search_loop (suc fuel) f i j ≡ search_loop fuel f ((i + j) / 2 + 1) j
unfolding search_loop
search_loop_high fuel f i j e off = ground arith

search_loop-IsBoundary :
    (fuel : ℕ) (f : ℕ → Bool) (n i j : ℕ)
    → ((a b : ℕ) → a ≤ b → b < n → f a ≡ true → f b ≡ true)
    → j ≤ i + fuel
    → i ≤ j
    → j ≤ n
    → ((a : ℕ) → a < i → f a ≡ false)
    → ((a : ℕ) → j ≤ a → a < n → f a ≡ true)
    → IsBoundary f n (search_loop fuel f i j)
search_loop-IsBoundary zero f n i j mono hf hij hjn lo hi =
    unfold search_loop in
    record { within = omega arith; before = lo; from = λ a h. hi a (omega arith) }
search_loop-IsBoundary (suc fuel) f n i j mono hf hij hjn lo hi = elim (Bool-cases (ltb i j)) [
  | inl more ↦ elim (Bool-cases (f ((i + j) / 2))) [
    | inl on ↦ rw (search_loop_low fuel f i j more on) (
        search_loop-IsBoundary fuel f n i ((i + j) / 2) mono (ground arith) (omega arith)
          (ground arith) lo (λ a h k. mono ((i + j) / 2) a h k on))
    | inr off ↦ rw (search_loop_high fuel f i j more off) (
        search_loop-IsBoundary fuel f n ((i + j) / 2 + 1) j mono (ground arith) (ground arith) hjn
          (below (ground arith) off) hi)
  ]
  | inr done ↦
      rw (search_loop_done fuel f i j done)
        (record { within = omega arith; before = lo; from = λ a h. hi a (ground arith) })
]
  where
    below : i < j → f ((i + j) / 2) ≡ false → (a : ℕ) → a < (i + j) / 2 + 1 → f a ≡ false
    below h' off a h = elim (Bool-cases (f a)) [
      | inl on ↦ cc (mono a ((i + j) / 2) (omega arith) (omega arith) on)
      | inr e ↦ e
    ]

-- On a test that stays true, sort.Search returns the boundary.
pub search-IsBoundary :
    (n : ℕ) (f : ℕ → Bool)
    → ((a b : ℕ) → a ≤ b → b < n → f a ≡ true → f b ≡ true)
    → IsBoundary f n (search n f)
unfolding search
search-IsBoundary n f mono =
    search_loop-IsBoundary n f n 0 n mono (omega arith) (omega arith) (omega arith)
      (λ a h. absurd (omega arith)) (λ a h k. absurd (omega arith))
