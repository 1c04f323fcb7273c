-- ===== src/Session/Classes.antt =====
-- The loop of Top that classifies the objects of a group (multibubble.go).
use bubblepprof.Common.{
  ℕ, ◌≡◌, ◌↔◌, ◌⊎◌, refl, List, [], ◌∷◌, arith, Bool, true, false, not, ◌&&◌, ◌||◌, inl, inr, ltb,
  elem, elem-insert, insert-IsDistinct, IsDistinct,
}
use bubblepprof.Graph.{Graph}
use bubblepprof.Session.SetOf.{IsSetOf}
use bubblepprof.Session.Top.{Classes, classify_one, classify}
use bubblepprof.Session.Hits.{count_at}

module _ (outside : List ℕ) (membership : List (ℕ × ℕ)) where
  -- The two tests of the loop.
  abbrev pub in_outside : ℕ → Bool
  in_outside x = elem x outside

  abbrev pub in_others : ℕ → Bool
  in_others x = ltb 1 (count_at membership x)

  -- The members that a loop over `ids` adds.
  abbrev pub Adds : Classes → Classes → List ℕ → Type 0
  Adds c c' ids =
      (x : ℕ)
      → (elem x c'.exclusive
          ≡ (elem x c.exclusive || elem x ids && (not (in_others x) && not (in_outside x))))
        × (elem x c'.bubbles_only
            ≡ (elem x c.bubbles_only || elem x ids && (in_others x && not (in_outside x))))
        × (elem x c'.other_only
            ≡ (elem x c.other_only || elem x ids && (not (in_others x) && in_outside x)))
        × (elem x c'.both ≡ (elem x c.both || elem x ids && (in_others x && in_outside x)))

  classify_one-Adds :
      (c : Classes) (id : ℕ) → Adds c (classify_one outside membership c id) (id ∷ [])
  unfolding classify_one elem
  classify_one-Adds c id x = (
    ground (arith, elem-insert x id c.exclusive),
    ground (arith, elem-insert x id c.bubbles_only),
    ground (arith, elem-insert x id c.other_only),
    ground (arith, elem-insert x id c.both),
  )

  pub classify-Adds : (c : Classes) (ids : List ℕ) → Adds c (classify outside membership c ids) ids
  unfolding classify elem
  classify-Adds c [] x = (ground arith, ground arith, ground arith, ground arith)
  classify-Adds c (id ∷ ids) x =
      let (e1, b1, o1, t1) = classify_one-Adds c id x in
      let (e2, b2, o2, t2) = classify-Adds (classify_one outside membership c id) ids x in
      (
        ground (arith, e1, e2),
        ground (arith, b1, b2),
        ground (arith, o1, o2),
        ground (arith, t1, t2),
      )

  abbrev pub AreDistinct : Classes → Type 0
  AreDistinct c =
      IsDistinct c.exclusive
      × IsDistinct c.bubbles_only
      × IsDistinct c.other_only
      × IsDistinct c.both

  classify_one-AreDistinct :
      (c : Classes) (id : ℕ) → AreDistinct c → AreDistinct (classify_one outside membership c id)
  unfolding classify_one
  classify_one-AreDistinct c id d = ground (
    arith,
    insert-IsDistinct id c.exclusive,
    insert-IsDistinct id c.bubbles_only,
    insert-IsDistinct id c.other_only,
    insert-IsDistinct id c.both,
  )

  pub classify-AreDistinct :
      (c : Classes) (ids : List ℕ) → AreDistinct c → AreDistinct (classify outside membership c ids)
  unfolding classify
  classify-AreDistinct c [] d = d
  classify-AreDistinct c (id ∷ ids) d =
      classify-AreDistinct (classify_one outside membership c id) ids
        (classify_one-AreDistinct c id d)

-- Tests and what they decide.
pub not_iff : {P : Type 0} (b : Bool) → (b ≡ true) ↔ P → (not b ≡ true) ↔ (¬ P)
not_iff true h = (λ e. cc, λ absent. absurd (absent (h.0 refl)))
not_iff false h = (λ e p. cc (h.1 p), λ absent. refl)

pub and_iff :
    {P Q : Type 0} (b c : Bool) → (b ≡ true) ↔ P → (c ≡ true) ↔ Q → ((b && c) ≡ true) ↔ (P × Q)
and_iff true c h k = (λ e. (h.0 refl, k.0 e), λ (p, q). k.1 q)
and_iff false c h k = (λ e. cc, λ (p, q). h.1 p)

pub or_iff :
    {P Q : Type 0} (b c : Bool) → (b ≡ true) ↔ P → (c ≡ true) ↔ Q → ((b || c) ≡ true) ↔ (P ⊎ Q)
or_iff true c h k = (λ e. inl (h.0 refl), λ r. refl)
or_iff false c h k = (λ e. inr (k.0 e), λ r. elim r [ inl p ↦ cc (h.1 p) | inr q ↦ k.1 q ])

-- The members of a set that pass a test.
pub sieve-IsSetOf :
    (g : Graph) (P T : ℕ → Type 0) (t : ℕ → Bool) (set ids : List ℕ)
    → IsSetOf g P set
    → ((x : ℕ) → P x → (t x ≡ true) ↔ T x)
    → ((x : ℕ) → elem x ids ≡ (elem x set && t x))
    → IsDistinct ids
    → IsSetOf g (λ x. P x × T x) ids
sieve-IsSetOf g P T t set ids of_set test members distinct = record {
  objects = (distinct, λ x m. of_set.objects.1 x (ground (arith, members x)));
  exact = λ x. (
    λ m.
        let p = (of_set.exact x).0 (ground (arith, members x)) in
        (p, (test x p).0 (ground (arith, members x))),
    λ (p, q). ground (arith, members x, (of_set.exact x).1 p, (test x p).1 q),
  );
}
