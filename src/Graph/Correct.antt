-- ===== src/Graph/Correct.antt =====
-- Breadth-first search (reachability.go) against walks of the graph.
use bubblepprof.Common.{
  ℕ, zero, suc, ◌≤◌, ◌<◌, ◌≡◌, ◌↔◌, ◌⊎◌, inl, inr, ⊎_elim, true, List, [], ◌∷◌, some, arith, length,
  elem, elem-cons, elem-nil, IsDistinct, outside-nil, List-cases, ap,
}
use bubblepprof.Graph.{Graph, RootRef}
use bubblepprof.Graph.Reach.{
  Walk, offer_all, children, drain, no_walk, root_ids, search_from, reachable_from,
}
use bubblepprof.Graph.Offer.{
  elem-offer_all, elem-offer_all_pending, work, work-offer_all, offer_all-IsDistinct,
}

-- The objects that some walk along edges reaches from a valid id of `ids`. Ids that are out of
-- range are no objects.
pub data Reachable (g : Graph) (ids : List ℕ) : ℕ → Type 0 where
  root : {a : ℕ} → elem a ids ≡ true → a < length g.objects → Reachable g ids a
  edge :
      {a b : ℕ}
      → Reachable g ids a
      → elem b (children g a) ≡ true
      → b < length g.objects
      → Reachable g ids b

module _ (g : Graph) (ids : List ℕ) where
  record Explored (w : Walk) : Type 0 where
    distinct : IsDistinct w.reachable
    queued : (a : ℕ) → elem a w.pending ≡ true → elem a w.reachable ≡ true
    sound : (a : ℕ) → elem a w.reachable ≡ true → Reachable g ids a
    rooted : (a : ℕ) → elem a ids ≡ true → a < length g.objects → elem a w.reachable ≡ true
    closed :
        (a b : ℕ)
        → elem a w.reachable ≡ true
        → elem b (children g a) ≡ true
        → b < length g.objects
        → (elem a w.pending ≡ true) ⊎ (elem b w.reachable ≡ true)

  Explored-start : Explored (offer_all g no_walk ids)
  Explored-start =
      let set = λ (a : ℕ). elem-offer_all g no_walk ids a in
      let queue = λ (a : ℕ). elem-offer_all_pending g no_walk ids a in
      record {
        distinct = offer_all-IsDistinct g no_walk ids tt;
        queued = λ a q. ground (arith, queue a, elem-nil a);
        sound = λ a m. start (set a) m;
        rooted = λ a m h. (set a).1 (inr (m, h));
        closed = λ a b m c h. inl ((queue a).1 (inr (m, elem-nil a)));
      }
    where
      start :
          {a : ℕ}
          → (elem a (offer_all g no_walk ids).reachable ≡ true)
            ↔ ((elem a [] ≡ true) ⊎ ((elem a ids ≡ true) × (a < length g.objects)))
          → elem a (offer_all g no_walk ids).reachable ≡ true
          → Reachable g ids a
      start {a} set m = ⊎_elim (λ e. cc (elem-nil a)) (λ (c, h). root c h) (set.0 m)

  Explored-round :
      (w : Walk) (x : ℕ) (rest : List ℕ)
      → w.pending ≡ x ∷ rest
      → Explored w
      → Explored (offer_all g (record w { pending = rest }) (children g x))
  Explored-round w x rest e inv =
      let w' = record w { pending = rest } in
      let set = λ (a : ℕ). elem-offer_all g w' (children g x) a in
      let queue = λ (a : ℕ). elem-offer_all_pending g w' (children g x) a in
      let here = sound x (queued x (rw e (ground (arith, elem-cons x x rest)))) in
      record {
        distinct = offer_all-IsDistinct g w' (children g x) distinct;
        queued = λ a q. ground (arith, queue a, set a, queued a, elem-cons a x rest, e);
        sound = λ a m. ⊎_elim (sound a) (λ (c, h). edge here c h) ((set a).0 m);
        rooted = λ a m h. (set a).1 (inl (rooted a m h));
        closed = λ a b m c h. ground (arith, set b, set a, queue a, closed a b, elem-cons a x rest);
      }
    where
      open inv use {distinct, queued, sound, rooted, closed}

  stopped : (fuel : ℕ) (w : Walk) → w.pending ≡ [] → drain (suc fuel) g w ≡ w
  unfolding drain
  stopped fuel w e = ground arith

  drain_step :
      (fuel : ℕ) (w : Walk) (x : ℕ) (rest : List ℕ)
      → w.pending ≡ x ∷ rest
      → drain (suc fuel) g w
        ≡ drain fuel g (offer_all g (record w { pending = rest }) (children g x))
  unfolding drain
  drain_step fuel w x rest e = ground arith

  -- An invariant of the rounds holds at the end, and with enough fuel the queue is empty there.
  drain_rule :
      (fuel : ℕ) (w : Walk)
      → work g w ≤ fuel
      → Explored w
      → Explored (drain fuel g w) × ((drain fuel g w).pending ≡ [])
  drain_rule zero w h inv =
      unfold drain in
      (
        inv,
        elim (List-cases w.pending) [
          | inl e ↦ e
          | inr (x, rest, e) ↦ absurd (omega (arith, ap length e))
        ],
      )
  drain_rule (suc fuel) w h inv = elim (List-cases w.pending) [
    | inl empty ↦ let stop = stopped fuel w empty in rw stop (inv, empty)
    | inr (x, rest, e) ↦ rw (drain_step fuel w x rest e) (
        drain_rule fuel (offer_all g (record w { pending = rest }) (children g x))
          (omega
            (arith, work-offer_all g (record w { pending = rest }) (children g x), ap length e))
          (Explored-round w x rest e inv))
  ]

  search_from-Explored : Explored (search_from g ids) × ((search_from g ids).pending ≡ [])
  unfolding search_from
  search_from-Explored =
      drain_rule (length g.objects) (offer_all g no_walk ids)
        (omega (arith, work-offer_all g no_walk ids, outside-nil (length g.objects))) Explored-start

  complete :
      (w : Walk)
      → Explored w
      → w.pending ≡ []
      → {a : ℕ} → Reachable g ids a
      → elem a w.reachable ≡ true
  complete w inv e (root {a} c h) = inv.rooted a c h
  complete w inv e (edge {a} {b} p c h) = elim (inv.closed a b (complete w inv e p) c h) [
    | inl waiting ↦ cc (elem-nil a, ap (elem a) e)
    | inr m ↦ m
  ]

-- The search reports an object exactly if a walk along valid edges leads to it from a valid root.
pub reachable_from_correct :
    (g : Graph) (roots : List RootRef) (a : ℕ)
    → (elem a (reachable_from (some g) roots) ≡ true) ↔ Reachable g (root_ids roots) a
unfolding reachable_from
reachable_from_correct g roots a =
    let (inv, empty) = search_from-Explored g (root_ids roots) in
    (inv.sound a, complete g (root_ids roots) _ inv empty)

-- The queue is empty when the bounded search ends, so the bound on its rounds is never what ends it.
pub search_from_ends : (g : Graph) (ids : List ℕ) → (search_from g ids).pending ≡ []
search_from_ends g ids = (search_from-Explored g ids).1

pub reachable_from-IsDistinct :
    (g : Graph) (roots : List RootRef) → IsDistinct (reachable_from (some g) roots)
unfolding reachable_from
reachable_from-IsDistinct g roots = (search_from-Explored g (root_ids roots)).0.distinct

pub Reachable-lt : {g : Graph} {ids : List ℕ} {a : ℕ} → Reachable g ids a → a < length g.objects
Reachable-lt (root c h) = h
Reachable-lt (edge p c h) = h

-- No roots, no walk.
pub Reachable-nil : {g : Graph} {a : ℕ} → Reachable g [] a → ⊥
Reachable-nil (root {a} m h) = cc (elem-nil a)
Reachable-nil (edge p m h) = Reachable-nil p
