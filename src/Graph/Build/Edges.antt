-- ===== src/Graph/Build/Edges.antt =====
-- The edge loop of BuildContext (build.go): the pointers of each object are resolved, counted, and
-- recorded as child edges without duplicates. `seen[target]` holds the 1-based index of the last
-- object that recorded an edge to the target, as a uint32.
use bubblepprof.Common.{
  ℕ, ◌+◌, ◌%◌, ◌^◌, false, List, [], ◌∷◌, ◌++◌, some, none, ltb, ◌==◌, if◌then◌else◌, length,
  get_or, modify,
}
use bubblepprof.Snapshot
use bubblepprof.Graph.{Graph, Object, Reference, find_object_containing}
use bubblepprof.Graph.Types.{Options}

-- What the loop over the pointers of one object changes.
pub record EdgeScan : Type 0 where
  pub seen : List ℕ
  pub children : List ℕ
  pub refs : List Reference
  pub raw : ℕ
  pub zeros : ℕ
  pub resolved : ℕ
  pub unresolved : ℕ

-- The provenance of pointer `pi`; an object that carries no offset for it gets an unknown one.
unfoldable pub reference_at : Snapshot.Object → ℕ → ℕ → ℕ → Reference
reference_at src pi ptr target =
    if ltb pi (length src.pointer_offsets)
    then record {
      target = target;
      pointer = ptr;
      offset = get_or src.pointer_offsets pi 0;
      offset_known = ltb (get_or src.pointer_offsets pi 0) src.size;
    }
    else record { target = target; pointer = ptr; offset = 0; offset_known = false }

-- `if seen[targetID] == epoch { continue }` and the append behind it.
unfoldable pub add_edge : ℕ → EdgeScan → ℕ → EdgeScan
add_edge epoch s target =
    if get_or s.seen target 0 == epoch
    then s
    else record s { seen = modify s.seen target (λ _. epoch); children = s.children ++ target ∷ [] }

module _ (opts : Options) (g : Graph) (src : Snapshot.Object) (epoch : ℕ) where
  -- One round of the loop over PointerAddrs.
  unfoldable pub scan_pointer : EdgeScan → ℕ → ℕ → EdgeScan
  unfolding add_edge reference_at
  scan_pointer s pi ptr =
      let s = record s { raw = s.raw + 1 } in
      if ptr == 0
      then record s { zeros = s.zeros + 1 }
      else elim (find_object_containing (some g) ptr) [
        | none ↦ record s { unresolved = s.unresolved + 1 }
        | some target ↦
            add_edge epoch
              (record s {
                resolved = s.resolved + 1;
                refs =
                    if opts.keep_provenance
                    then s.refs ++ reference_at src pi ptr target ∷ []
                    else s.refs;
              })
              target
      ]

  unfoldable pub scan_pointers : EdgeScan → ℕ → List ℕ → EdgeScan
  scan_pointers s pi [] = s
  scan_pointers s pi (ptr ∷ rest) = scan_pointers (scan_pointer s pi ptr) (pi + 1) rest

-- What the loop over the objects builds: the children and the references by source object, and the
-- counters.
pub record EdgeTable : Type 0 where
  pub seen : List ℕ
  pub children : List (List ℕ)
  pub refs : List (List Reference)
  pub raw : ℕ
  pub zeros : ℕ
  pub resolved : ℕ
  pub unresolved : ℕ

-- `uint32(i) + 1`
abbrev pub epoch_of : ℕ → ℕ
epoch_of i = (i + 1) % 2 ^ 32

module _ (opts : Options) (g : Graph) where
  unfoldable pub scan_object : EdgeTable → ℕ → Snapshot.Object → EdgeTable
  scan_object t i src =
      let s =
        scan_pointers opts g src (epoch_of i)
          (record {
            seen = t.seen;
            children = [];
            refs = [];
            raw = t.raw;
            zeros = t.zeros;
            resolved = t.resolved;
            unresolved = t.unresolved;
          })
          0 src.pointer_addrs in
      record {
        seen = s.seen;
        children = t.children ++ s.children ∷ [];
        refs = if opts.keep_provenance then t.refs ++ s.refs ∷ [] else t.refs;
        raw = s.raw;
        zeros = s.zeros;
        resolved = s.resolved;
        unresolved = s.unresolved;
      }

  unfoldable pub scan_objects : EdgeTable → ℕ → List Snapshot.Object → EdgeTable
  scan_objects t i [] = t
  scan_objects t i (src ∷ rest) = scan_objects (scan_object t i src) (i + 1) rest

-- The children of every object, written back into `g.Objects`.
unfoldable pub with_children : List Object → List (List ℕ) → List Object
with_children [] cs = []
with_children (o ∷ os) [] = o ∷ os
with_children (o ∷ os) (c ∷ cs) = record o { children = c } ∷ with_children os cs

abbrev pub zero_stamps : List Object → List ℕ
zero_stamps [] = []
zero_stamps (o ∷ os) = 0 ∷ zero_stamps os

abbrev pub empty_table : Graph → EdgeTable
empty_table g = record {
  seen = zero_stamps g.objects;
  children = [];
  refs = [];
  raw = 0;
  zeros = 0;
  resolved = 0;
  unresolved = 0;
}

unfoldable pub edge_table : Options → Graph → List Snapshot.Object → EdgeTable
edge_table opts g srcs = scan_objects opts g (empty_table g) 0 srcs

-- `a.Stats.Edges += len(g.Objects[i].Children)`
unfoldable pub count_edges : List Object → ℕ
count_edges [] = 0
count_edges (o ∷ os) = length o.children + count_edges os
