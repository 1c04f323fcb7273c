-- ===== src/Graph/Build/Resolve.antt =====
-- FindObjectContaining on a graph that Build made (graph.go, build.go).
use mathlib.Core.Path.{subst}
use bubblepprof.Common.{
  ⊎_elim, ℕ, zero, suc, ◌+◌, ◌≤◌, ◌<◌, ◌≡◌, ◌≢◌, refl, sym, ap, ◌∙◌, ◌⊎◌, inl, inr, true, List, [],
  ◌∷◌, Option, some, none, arith, length, get_elem?, All-get_elem?, lookup, IsU64,
}
use bubblepprof.Common.Result.{ok, >>=-eq-ok}
use bubblepprof.Snapshot
use bubblepprof.Graph.{Graph, Object, find_object_containing}
use bubblepprof.Graph.Types.{Options, Analysis, BuildWarning}
use bubblepprof.Graph.Find.{find_object_containing-eq-some, find_object_containing_holds}
use bubblepprof.Graph.Build.{
  loading_start, bare_graph, full_graph, total_bytes, assemble, finish, build,
}
use bubblepprof.Graph.Build.Objects.{Loading, load_objects, sort_ranges, check_overlaps}
use bubblepprof.Graph.Build.Edges.{with_children}
use bubblepprof.Graph.Build.Loaded.{
  IsLoaded, IsRangeOf, bare_objects, load_objects-objects, load_objects-IsLoaded,
}
use bubblepprof.Graph.Build.Sorted.{
  All-sort_ranges, sort_ranges-IsSorted, sort_ranges-IsIn, IsIn-index, check_overlaps-IsDisjoint,
}
use bubblepprof.Graph.Build.Strict.{load_objects_registers, whole_range}

-- What a successful Build went through.
pub record Built (snap : Snapshot.HeapSnapshot) (opts : Options) (a : Analysis) : Type 0 where
  pub st : Loading
  pub warnings : List BuildWarning
  pub bytes : ℕ
  pub loaded : load_objects opts (loading_start snap) snap.objects ≡ ok st
  pub checked : check_overlaps opts.strict st.warnings (sort_ranges st.ranges) ≡ ok warnings
  pub total : total_bytes 0 (full_graph opts (bare_graph st) snap.objects).objects ≡ some bytes
  pub result : a ≡ assemble opts (bare_graph st) snap warnings bytes

finish-eq-ok :
    (opts : Options) (g : Graph) (snap : Snapshot.HeapSnapshot) (ws : List BuildWarning)
    (total : Option ℕ) {a : Analysis}
    → finish opts g snap ws total ≡ ok a
    → (bytes : ℕ) × (total ≡ some bytes) × (a ≡ assemble opts g snap ws bytes)
unfolding finish
finish-eq-ok opts g snap ws none h = cc
finish-eq-ok opts g snap ws (some bytes) h = (bytes, refl, cc)

pub build-eq-ok :
    (snap : Snapshot.HeapSnapshot) (opts : Options) (a : Analysis)
    → build (some snap) opts ≡ ok a
    → Built snap opts a
unfolding build
build-eq-ok snap opts a h =
    let (st, loaded, h') = >>=-eq-ok (load_objects opts (loading_start snap) snap.objects) _ h in
    let (ws, checked, h'') =
      >>=-eq-ok (check_overlaps opts.strict st.warnings (sort_ranges st.ranges)) _ h' in
    let (bytes, total, result) =
      finish-eq-ok opts (bare_graph st) snap ws
        (total_bytes 0 (full_graph opts (bare_graph st) snap.objects).objects) h'' in
    record {
      st = st;
      warnings = ws;
      bytes = bytes;
      loaded = loaded;
      checked = checked;
      total = total;
      result = result;
    }

with_children-at :
    (os : List Object) (cs : List (List ℕ)) (i : ℕ) {o : Object}
    → get_elem? os i ≡ some o
    → (o' : Object) × (get_elem? (with_children os cs) i ≡ some o')
      × (o'.id ≡ o.id)
      × (o'.addr ≡ o.addr)
      × (o'.size ≡ o.size)
unfolding with_children
with_children-at [] cs i h = cc
with_children-at (x ∷ os) [] i {o} h = (o, h, refl, refl, refl)
with_children-at (x ∷ os) (c ∷ cs) zero {o} h =
    let e : x ≡ o = cc in (record x { children = c }, refl, rw e, rw e, rw e)
with_children-at (x ∷ os) (c ∷ cs) (suc i) h = with_children-at os cs i h

pub with_children-children :
    (os : List Object) (cs : List (List ℕ)) (i : ℕ) {o' : Object} {c : List ℕ}
    → get_elem? cs i ≡ some c
    → get_elem? (with_children os cs) i ≡ some o'
    → o'.children ≡ c
unfolding with_children
with_children-children [] cs i e h = cc
with_children-children (x ∷ os) [] i e h = cc
with_children-children (x ∷ os) (d ∷ cs) zero {o'} {c} e h = ground arith
with_children-children (x ∷ os) (d ∷ cs) (suc i) e h = with_children-children os cs i e h

pub length-with_children :
    (os : List Object) (cs : List (List ℕ)) → length (with_children os cs) ≡ length os
unfolding with_children
length-with_children [] cs = refl
length-with_children (x ∷ os) [] = refl
length-with_children (x ∷ os) (c ∷ cs) = ap suc (length-with_children os cs)

module _ (snap : Snapshot.HeapSnapshot) (opts : Options) (a : Analysis)
    (b : Built snap opts a) where
  -- The graph of the result.
  abbrev pub built_graph : Graph
  built_graph = full_graph opts (bare_graph b.st) snap.objects

  pub graph-eq : a.graph ≡ some built_graph
  unfolding assemble
  graph-eq = rw b.result

  pub is_loaded : IsLoaded b.st.objects b.st.by_addr b.st.ranges
  is_loaded =
      load_objects-IsLoaded opts (loading_start snap) snap.objects b.loaded
        (record { entries = λ x id e. unfold lookup in cc; within = tt })

  pub bare_objects-eq : b.st.objects ≡ bare_objects 0 snap.objects
  bare_objects-eq = load_objects-objects opts (loading_start snap) snap.objects b.loaded

  -- Edges do not change what a pointer resolves to.
  pub find-bare :
      (ptr : ℕ)
      → find_object_containing (some built_graph) ptr
        ≡ find_object_containing (some (bare_graph b.st)) ptr
  unfolding full_graph find_object_containing
  find-bare ptr = refl

  pub find_sound_bare :
      (ptr id : ℕ)
      → find_object_containing (some (bare_graph b.st)) ptr ≡ some id
      → (o : Object) × (get_elem? b.st.objects id ≡ some o)
        × ((o.addr ≡ ptr) ⊎ ((o.addr ≤ ptr) × (ptr < o.addr + o.size)))
  find_sound_bare ptr id h =
      elim (find_object_containing-eq-some (bare_graph b.st) ptr id
        (sort_ranges-IsSorted b.st.ranges) h) [
          | inl e ↦ let (o, at, same) = is_loaded.entries ptr id e in (o, at, inl same)
          | inr (i, r, at, same, lo, hi) ↦
              let (o, found, start, end) =
                All-get_elem? (IsRangeOf b.st.objects) (sort_ranges b.st.ranges) i
                  (All-sort_ranges (IsRangeOf b.st.objects) b.st.ranges is_loaded.within) at in
              (o, rw (← same) found, inr (omega arith, omega arith))
        ]

  find_complete_bare :
      (i ptr : ℕ) {src : Snapshot.Object}
      → opts.strict ≡ true
      → get_elem? snap.objects i ≡ some src
      → IsU64 src.addr
      → IsU64 src.size
      → ptr ≢ 0
      → src.addr ≢ 0
      → src.addr ≤ ptr
      → ptr < src.addr + src.size
      → (id : ℕ) × (find_object_containing (some (bare_graph b.st)) ptr ≡ some id)
        × ((lookup ptr b.st.by_addr ≡ some id) ⊎ (id ≡ i))
  find_complete_bare i ptr {src} strict at ua us nz na lo hi =
      let sorted = sort_ranges-IsSorted b.st.ranges in
      let checked =
        subst (λ s. check_overlaps s b.st.warnings (sort_ranges b.st.ranges) ≡ ok b.warnings) strict
          b.checked in
      let (disjoint, _) =
        check_overlaps-IsDisjoint b.st.warnings (sort_ranges b.st.ranges) checked in
      let there =
        load_objects_registers opts (loading_start snap) snap.objects i strict b.loaded at na
          (omega arith) ua us in
      let (j, found) =
        IsIn-index (whole_range (0 + i) src) (sort_ranges b.st.ranges)
          (sort_ranges-IsIn (whole_range (0 + i) src) b.st.ranges there) in
      let (id, e, which) =
        find_object_containing_holds (bare_graph b.st) ptr j sorted disjoint found lo hi nz in
      (id, e, ⊎_elim inl (λ same. inr (omega arith)) which)

-- On a graph that Build made, a pointer that resolves lies in the object that it resolves to: it
-- is the object's address, or it lies between the address and the end of the object.
pub resolve_sound :
    (snap : Snapshot.HeapSnapshot) (opts : Options) (a : Analysis) (g : Graph) (ptr id : ℕ)
    → build (some snap) opts ≡ ok a
    → a.graph ≡ some g
    → find_object_containing (some g) ptr ≡ some id
    → (o : Object) × (get_elem? g.objects id ≡ some o)
      × ((o.addr ≡ ptr) ⊎ ((o.addr ≤ ptr) × (ptr < o.addr + o.size)))
unfolding full_graph
resolve_sound snap opts a g ptr id h is_graph found =
    let b = build-eq-ok snap opts a h in
    let e : g ≡ built_graph snap opts a b = ground (arith, graph-eq snap opts a b) in
    let found' = subst (λ x. find_object_containing (some x) ptr ≡ some id) e found in
    let (o, at, where_it_is) =
      find_sound_bare snap opts a b ptr id (sym (find-bare snap opts a b ptr) ∙ found') in
    let (o', at', _, addr, size) = with_children-at b.st.objects _ id at in
    rw e (o', at', rw (addr, size) where_it_is)

-- In strict mode Build makes a graph in which every pointer into an object of the dump whose address
-- is not 0 resolves: a nonzero pointer between that address, of the object at index `i`, and the end
-- of the object resolves to the object with ID `i`, or to an object whose address is exactly that
-- pointer.
pub resolve_complete :
    (snap : Snapshot.HeapSnapshot) (opts : Options) (a : Analysis) (g : Graph) (i ptr : ℕ)
    (src : Snapshot.Object)
    → build (some snap) opts ≡ ok a
    → a.graph ≡ some g
    → opts.strict ≡ true
    → get_elem? snap.objects i ≡ some src
    → IsU64 src.addr
    → IsU64 src.size
    → ptr ≢ 0
    → src.addr ≢ 0
    → src.addr ≤ ptr
    → ptr < src.addr + src.size
    → (id : ℕ) × (find_object_containing (some g) ptr ≡ some id)
      × ((id ≡ i) ⊎ ((o : Object) × (get_elem? g.objects id ≡ some o) × (o.addr ≡ ptr)))
unfolding full_graph
resolve_complete snap opts a g i ptr src h is_graph strict at ua us nz na lo hi =
    let b = build-eq-ok snap opts a h in
    let e : g ≡ built_graph snap opts a b = ground (arith, graph-eq snap opts a b) in
    let (id, found, which) = find_complete_bare snap opts a b i ptr strict at ua us nz na lo hi in
    rw e (
      id,
      find-bare snap opts a b ptr ∙ found,
      elim which [
        | inr same ↦ inl same
        | inl entry ↦
            let (o, place, addr) = (is_loaded snap opts a b).entries ptr id entry in
            let (o', place', _, addr', _) = with_children-at b.st.objects _ id place in
            inr (o', place', addr' ∙ addr)
      ],
    )
