-- ===== src/Graph/Offer.antt =====
-- The loop body of the breadth-first search (reachability.go): what one scan of candidates does to
-- the set, to the queue and to the work that is left.
use bubblepprof.Common.{
  ℕ, ◌+◌, ◌<◌, ◌≡◌, refl, ◌↔◌, ◌⊎◌, true, false, List, [], ◌∷◌, arith, length, length-append, elem,
  elem-cons, elem-nil, elem-append, IsDistinct, outside, outside-cons,
}
use bubblepprof.Graph.{Graph}
use bubblepprof.Graph.Reach.{Walk, offer, offer_all}

module _ (g : Graph) where
  -- The set gains exactly the valid candidates.
  pub elem-offer_all :
      (w : Walk) (ids : List ℕ) (a : ℕ)
      → (elem a (offer_all g w ids).reachable ≡ true)
        ↔ ((elem a w.reachable ≡ true) ⊎ ((elem a ids ≡ true) × (a < length g.objects)))
  unfolding offer_all offer elem
  elem-offer_all w [] a = ground arith
  elem-offer_all w (x ∷ ids) a = ground (arith, elem-offer_all (offer g w x) ids a)

  -- The queue gains exactly the new members of the set.
  pub elem-offer_all_pending :
      (w : Walk) (ids : List ℕ) (a : ℕ)
      → (elem a (offer_all g w ids).pending ≡ true) ↔ (
          (elem a w.pending ≡ true)
          ⊎ ((elem a (offer_all g w ids).reachable ≡ true) × (elem a w.reachable ≡ false)))
  unfolding offer_all offer
  elem-offer_all_pending w [] a = ground arith
  elem-offer_all_pending w (x ∷ ids) a = ground (
    arith,
    elem-offer_all_pending (offer g w x) ids a,
    elem-offer_all (offer g w x) ids a,
    elem-append a w.pending (x ∷ []),
    elem-cons a x w.reachable,
    elem-cons a x [],
    elem-nil a,
  )

  -- What is queued and what is still outside the set, together.
  abbrev pub work : Walk → ℕ
  work w = outside (length g.objects) w.reachable + length w.pending

  pub work-offer_all : (w : Walk) (ids : List ℕ) → work (offer_all g w ids) ≡ work w
  unfolding offer_all offer
  work-offer_all w [] = refl
  work-offer_all w (x ∷ ids) = ground (
    arith,
    work-offer_all (offer g w x) ids,
    outside-cons (length g.objects) x w.reachable,
    length-append w.pending (x ∷ []),
  )

  pub offer_all-IsDistinct :
      (w : Walk) (ids : List ℕ) → IsDistinct w.reachable → IsDistinct (offer_all g w ids).reachable
  unfolding offer_all offer
  offer_all-IsDistinct w [] d = d
  offer_all-IsDistinct w (x ∷ ids) d = offer_all-IsDistinct (offer g w x) ids (ground arith)
