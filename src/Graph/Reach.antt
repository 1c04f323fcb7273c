-- ===== src/Graph/Reach.antt =====
-- internal/snapshotgraph/reachability.go: breadth-first search from a set of roots.
use bubblepprof.Common.{
  ℕ, zero, suc, List, [], ◌∷◌, ◌++◌, Option, none, some, ◌&&◌, not, if◌then◌else◌, length,
  get_elem?, elem,
}
use bubblepprof.Graph.{Graph, RootRef, valid_id}

-- `reachable` as the list of its keys, and queue[head..].
pub record Walk : Type 0 where
  pub reachable : List ℕ
  pub pending : List ℕ

-- The body of both loops over candidates: the roots, and the children of the object at the head.
unfoldable pub offer : Graph → Walk → ℕ → Walk
offer g w id =
    if valid_id g id && not (elem id w.reachable)
    then record { reachable = id ∷ w.reachable; pending = w.pending ++ id ∷ [] }
    else w

unfoldable pub offer_all : Graph → Walk → List ℕ → Walk
offer_all g w [] = w
offer_all g w (id ∷ ids) = offer_all g (offer g w id) ids

-- `g.Objects[id].Children`. A queued id is valid, so the default is never taken.
unfoldable pub children : Graph → ℕ → List ℕ
children g id = elim (get_elem? g.objects id) [ none ↦ [] | some o ↦ o.children ]

-- `for head := 0; head < len(queue); head++`. A round enqueues only objects that it adds to the
-- set, so `len(g.Objects)` rounds are enough.
unfoldable pub drain : ℕ → Graph → Walk → Walk
drain zero g w = w
drain (suc fuel) g w = elim w.pending [
  | [] ↦ w
  | id ∷ rest ↦ drain fuel g (offer_all g (record w { pending = rest }) (children g id))
]

-- Both sequences of the search start empty.
abbrev pub no_walk : Walk
no_walk = record { reachable = []; pending = [] }

abbrev pub root_ids : List RootRef → List ℕ
root_ids [] = []
root_ids (r ∷ rs) = r.object_id ∷ root_ids rs

-- The state at the end of the search.
unfoldable pub search_from : Graph → List ℕ → Walk
search_from g ids = drain (length g.objects) g (offer_all g no_walk ids)

-- ReachableFrom
unfoldable pub reachable_from : Option Graph → List RootRef → List ℕ
reachable_from none roots = []
reachable_from (some g) roots = (search_from g (root_ids roots)).reachable
