-- ===== src/Graph/Build/Edged.antt =====
-- The edge loop over all objects (build.go): the children of each object are the targets of its
-- pointers, each once, and every pointer is counted.
use bubblepprof.Common.{
  ℕ, zero, suc, ◌+◌, ◌^◌, ◌≤◌, ◌<◌, ◌≡◌, refl, ap, ◌↔◌, inr, ⊎_elim, true, List, [], ◌∷◌, ◌++◌,
  some, arith, length, length-append, get_or, get_elem?, get_elem?-append_left,
  get_elem?-append_length, elem, elem-nil, IsDistinct,
}
use bubblepprof.Snapshot
use mathlib.Core.Path.{subst}
use native.Mathlib.Nat.{add-zero, zero-add}
use bubblepprof.Graph.{Graph, Object, find_object_containing}
use bubblepprof.Graph.Types.{Options}
use bubblepprof.Graph.Build.Edges.{
  EdgeScan, EdgeTable, epoch_of, scan_pointers, scan_object, scan_objects, zero_stamps, empty_table,
  edge_table,
}
use bubblepprof.Graph.Build.Stamps.{Stamped, PointsTo, scan_pointers_effect, scan_pointers_counts}

-- The children recorded for one object of the dump.
pub record IsEdgeList (g : Graph) (src : Snapshot.Object) (cs : List ℕ) : Type 0 where
  pub distinct : IsDistinct cs
  pub exact : (t : ℕ) → (elem t cs ≡ true) ↔ PointsTo g src.pointer_addrs t

abbrev scan_start : EdgeTable → EdgeScan
scan_start t = record {
  seen = t.seen;
  children = [];
  refs = [];
  raw = t.raw;
  zeros = t.zeros;
  resolved = t.resolved;
  unresolved = t.unresolved;
}

module _ (opts : Options) (g : Graph) (n : ℕ)
    (valid : (ptr t : ℕ) → find_object_containing (some g) ptr ≡ some t → t < n) where
  -- No stamp is above the number of objects done.
  pub record IsOld (i : ℕ) (t : EdgeTable) : Type 0 where
    pub size : length t.seen ≡ n
    pub low : (k : ℕ) → get_or t.seen k 0 ≤ i

  scan_object_effect :
      (t : EdgeTable) (i : ℕ) (src : Snapshot.Object)
      → i + 1 < 2 ^ 32
      → IsOld i t
      → IsOld (i + 1) (scan_object opts g t i src)
        × ((cs : List ℕ) × ((scan_object opts g t i src).children ≡ t.children ++ cs ∷ [])
            × IsEdgeList g src cs)
  unfolding scan_object
  scan_object_effect t i src h old =
      let epoch : epoch_of i ≡ i + 1 = omega arith in
      let s = scan_start t in
      let fresh : Stamped n (epoch_of i) s = rw epoch (record {
        size = old.size;
        marks = λ k _. (λ e. absurd (omega (arith, old.low k)), λ e. cc (elem-nil k));
        low = λ k. omega (arith, old.low k);
        distinct = tt;
      }) in
      let (inv, exact) =
        scan_pointers_effect opts g src n (epoch_of i) valid s 0 src.pointer_addrs fresh in
      (
        record { size = inv.size; low = λ k. omega (arith, inv.low k, epoch) },
        (
          (scan_pointers opts g src (epoch_of i) s 0 src.pointer_addrs).children,
          refl,
          record {
            distinct = inv.distinct;
            exact = λ u. (
              λ m. ⊎_elim (λ e. cc (elem-nil u)) (λ p. p) ((exact u).0 m),
              λ p. (exact u).1 (inr p),
            );
          },
        ),
      )

  scan_objects_keeps :
      (t : EdgeTable) (i : ℕ) (srcs : List Snapshot.Object) (k : ℕ) {cs : List ℕ}
      → i + length srcs < 2 ^ 32
      → IsOld i t
      → get_elem? t.children k ≡ some cs
      → get_elem? (scan_objects opts g t i srcs).children k ≡ some cs
  unfolding scan_objects
  scan_objects_keeps t i [] k h old at = at
  scan_objects_keeps t i (src ∷ rest) k h old at =
      let (old', (new, e, _)) = scan_object_effect t i src (omega arith) old in
      scan_objects_keeps (scan_object opts g t i src) (i + 1) rest k (omega arith) old'
        (rw e (get_elem?-append_left t.children (new ∷ []) k at))

  pub scan_objects_at :
      (t : EdgeTable) (i : ℕ) (srcs : List Snapshot.Object) (j : ℕ) {src : Snapshot.Object}
      → i + length srcs < 2 ^ 32
      → IsOld i t
      → get_elem? srcs j ≡ some src
      → (cs : List ℕ) × (get_elem? (scan_objects opts g t i srcs).children (length t.children + j)
          ≡ some cs)
        × IsEdgeList g src cs
  unfolding scan_objects
  scan_objects_at t i [] j h old at = cc
  scan_objects_at t i (x ∷ rest) zero {src} h old at =
      let (old', (cs, e, list)) = scan_object_effect t i x (omega arith) old in
      let same : x ≡ src = cc in
      let place : get_elem? (scan_object opts g t i x).children (length t.children + 0) ≡ some cs =
        rw (add-zero, e) (get_elem?-append_length t.children [] cs) in
      (
        cs,
        scan_objects_keeps (scan_object opts g t i x) (i + 1) rest _ (omega arith) old' place,
        subst (λ s. IsEdgeList g s cs) same list,
      )
  scan_objects_at t i (x ∷ rest) (suc j) {src} h old at =
      let (old', (cs, e, list)) = scan_object_effect t i x (omega arith) old in
      let place : length (scan_object opts g t i x).children + j ≡ length t.children + suc j =
        rw e (omega (arith, length-append t.children (cs ∷ []))) in
      let (found, at', list') =
        scan_objects_at (scan_object opts g t i x) (i + 1) rest j (omega arith) old' at in
      (found, rw (← place) at', list')

-- The number of pointer slots of a dump.
abbrev pub count_pointers : List Snapshot.Object → ℕ
count_pointers [] = 0
count_pointers (src ∷ rest) = length src.pointer_addrs + count_pointers rest

abbrev pub Balanced : EdgeTable → Type 0
Balanced t = t.raw ≡ t.zeros + t.resolved + t.unresolved

scan_object_counts :
    (opts : Options) (g : Graph) (t : EdgeTable) (i : ℕ) (src : Snapshot.Object)
    → Balanced t
    → Balanced (scan_object opts g t i src)
      × ((scan_object opts g t i src).raw ≡ t.raw + length src.pointer_addrs)
unfolding scan_object
scan_object_counts opts g t i src h =
    scan_pointers_counts opts g src (epoch_of i) (scan_start t) 0 src.pointer_addrs h

pub scan_objects_counts :
    (opts : Options) (g : Graph) (t : EdgeTable) (i : ℕ) (srcs : List Snapshot.Object)
    → Balanced t
    → Balanced (scan_objects opts g t i srcs)
      × ((scan_objects opts g t i srcs).raw ≡ t.raw + count_pointers srcs)
unfolding scan_objects
scan_objects_counts opts g t i [] h = (h, omega arith)
scan_objects_counts opts g t i (src ∷ rest) h =
    let (b, r) = scan_object_counts opts g t i src h in
    let (b', r') = scan_objects_counts opts g (scan_object opts g t i src) (i + 1) rest b in
    (b', omega arith)

zero_stamps-length : (os : List Object) → length (zero_stamps os) ≡ length os
zero_stamps-length [] = refl
zero_stamps-length (o ∷ os) = ap suc (zero_stamps-length os)

zero_stamps-get_or : (os : List Object) (k : ℕ) → get_or (zero_stamps os) k 0 ≡ 0
zero_stamps-get_or [] k = refl
zero_stamps-get_or (o ∷ os) zero = refl
zero_stamps-get_or (o ∷ os) (suc k) = zero_stamps-get_or os k

-- The whole table: the children of object `j` are the targets of its pointers, each once.
pub edge_table_at :
    (opts : Options) (g : Graph) (srcs : List Snapshot.Object) (j : ℕ) {src : Snapshot.Object}
    → ((ptr t : ℕ) → find_object_containing (some g) ptr ≡ some t → t < length g.objects)
    → length srcs < 2 ^ 32
    → get_elem? srcs j ≡ some src
    → (cs : List ℕ) × (get_elem? (edge_table opts g srcs).children j ≡ some cs)
      × IsEdgeList g src cs
unfolding edge_table
edge_table_at opts g srcs j valid h at =
    let (cs, found, list) =
      scan_objects_at opts g (length g.objects) valid (empty_table g) 0 srcs j (omega arith)
        (record {
          size = zero_stamps-length g.objects;
          low = λ k. omega (arith, zero_stamps-get_or g.objects k);
        })
        at in
    (
      cs,
      subst (λ k. get_elem? (scan_objects opts g (empty_table g) 0 srcs).children k ≡ some cs)
          (zero-add j) found,
      list,
    )

pub edge_table_counts :
    (opts : Options) (g : Graph) (srcs : List Snapshot.Object)
    → Balanced (edge_table opts g srcs) × ((edge_table opts g srcs).raw ≡ count_pointers srcs)
unfolding edge_table
edge_table_counts opts g srcs =
    let (b, r) = scan_objects_counts opts g (empty_table g) 0 srcs (omega arith) in (b, omega arith)
