-- ===== src/Graph/Build/Loaded.antt =====
-- What the object loop of BuildContext (build.go) leaves: one graph object for each object of the
-- dump, and address entries and ranges that lie within their objects.
use bubblepprof.Common.{
  ℕ, ◌+◌, ◌≤◌, ◌≡◌, refl, ◌∙◌, ◌⊎◌, inl, inr, Bool-cases, List, [], ◌∷◌, ◌++◌, some, arith, length,
  length-append, get_elem?, get_elem?-append_left, get_elem?-append_length, All, All-append,
  All-map, lookup, assign, lookup-assign, max_uint64, add_u64, ltb, ◌==◌, if◌then◌else◌,
}
use bubblepprof.Common.Result.{ok, >>=-eq-ok}
use bubblepprof.Snapshot
use bubblepprof.Graph.{Object, ObjectRange}
use bubblepprof.Graph.Types.{Options}
use bubblepprof.Graph.Build.Objects.{
  Loading, append_object, register_range, load_object, load_objects,
}
use mathlib.Core.Path.{subst}
use mathlib.Core.List.{append-nil, append_assoc}

-- The object that the source object at index `i` becomes.
abbrev pub bare_object : ℕ → Snapshot.Object → Object
bare_object i src = record { id = i; addr = src.addr; size = src.size; children = [] }

-- The graph objects of a whole dump, ids from `i` on.
abbrev pub bare_objects : ℕ → List Snapshot.Object → List Object
bare_objects i [] = []
bare_objects i (src ∷ rest) = bare_object i src ∷ bare_objects (i + 1) rest

-- A range starts at its object and does not reach past it.
abbrev pub IsRangeOf : List Object → ObjectRange → Type 0
IsRangeOf os r =
    (o : Object) × (get_elem? os r.id ≡ some o) × (r.start ≡ o.addr) × (r.end ≤ o.addr + o.size)

-- The address entries and the ranges point at objects that are there.
pub record IsLoaded (os : List Object) (by_addr : List (ℕ × ℕ)) (ranges : List ObjectRange)
    : Type 0 where
  pub entries :
      (a id : ℕ)
      → lookup a by_addr ≡ some id
      → (o : Object) × (get_elem? os id ≡ some o) × (o.addr ≡ a)
  pub within : All (IsRangeOf os) ranges

append_object-eq-ok :
    (st : Loading) (src : Snapshot.Object) {st' : Loading}
    → append_object st src ≡ ok st'
    → st' ≡ record st { objects = st.objects ++ bare_object (length st.objects) src ∷ [] }
unfolding append_object
append_object-eq-ok st src h = ground arith

register_range-objects :
    (opts : Options) (st : Loading) (src : Snapshot.Object) (id : ℕ) {st' : Loading}
    → register_range opts st src id ≡ ok st'
    → (st'.objects ≡ st.objects) × (st'.by_addr ≡ st.by_addr)
unfolding register_range
register_range-objects opts st src id h = ground arith

-- A round appends the object that the source object becomes, whichever branch it takes.
pub load_object-objects :
    (opts : Options) (st : Loading) (src : Snapshot.Object) {st' : Loading}
    → load_object opts st src ≡ ok st'
    → st'.objects ≡ st.objects ++ bare_object (length st.objects) src ∷ []
unfolding load_object
load_object-objects opts st src h = ground arith

bare_objects-step :
    (os : List Object) (src : Snapshot.Object) (rest : List Snapshot.Object)
    → (os ++ bare_object (length os) src ∷ [])
        ++ bare_objects (length (os ++ bare_object (length os) src ∷ [])) rest
      ≡ os ++ bare_objects (length os) (src ∷ rest)
bare_objects-step os src rest =
    let e : length (os ++ bare_object (length os) src ∷ []) ≡ length os + 1 =
      omega (arith, length-append os (bare_object (length os) src ∷ [])) in
    rw e (append_assoc os (bare_object (length os) src ∷ []) (bare_objects (length os + 1) rest))

-- The graph objects are those of the dump, in its order.
pub load_objects-objects :
    (opts : Options) (st : Loading) (srcs : List Snapshot.Object) {st' : Loading}
    → load_objects opts st srcs ≡ ok st'
    → st'.objects ≡ st.objects ++ bare_objects (length st.objects) srcs
unfolding load_objects
load_objects-objects opts st [] h = rw append-nil (ground arith)
load_objects-objects opts st (src ∷ rest) {st'} h =
    let (mid, first, more) =
      >>=-eq-ok (load_object opts st src) (λ s. load_objects opts s rest) h in
    let e = load_object-objects opts st src first in
    load_objects-objects opts mid rest more ∙ rw e (bare_objects-step st.objects src rest)

-- The end of the range of an object, clamped where it wraps.
abbrev pub range_end : ℕ → ℕ → ℕ
range_end addr size = if ltb (add_u64 addr size) addr then max_uint64 else add_u64 addr size

range_end-le : (addr size : ℕ) → range_end addr size ≤ addr + size
range_end-le addr size = ground arith

abbrev pub new_range : List Object → Snapshot.Object → ObjectRange
new_range os src = record { start = src.addr; end = range_end src.addr src.size; id = length os }

-- A round keeps the entries and ranges, adds an entry, or adds an entry and a range.
pub load_object_cases :
    (opts : Options) (st : Loading) (src : Snapshot.Object) {st' : Loading}
    → load_object opts st src ≡ ok st'
    → ((st'.by_addr ≡ st.by_addr) ⊎ (st'.by_addr ≡ assign src.addr (length st.objects) st.by_addr))
      × ((st'.ranges ≡ st.ranges) ⊎ (st'.ranges ≡ st.ranges ++ new_range st.objects src ∷ []))
unfolding load_object
load_object_cases opts st src h = ground arith

module _ (os : List Object) (src : Snapshot.Object) where
  abbrev os' : List Object
  os' = os ++ bare_object (length os) src ∷ []

  last : get_elem? os' (length os) ≡ some (bare_object (length os) src)
  last = get_elem?-append_length os [] (bare_object (length os) src)

  IsRangeOf-grow : (r : ObjectRange) → IsRangeOf os r → IsRangeOf os' r
  IsRangeOf-grow r (o, e, p, q) =
      (o, get_elem?-append_left os (bare_object (length os) src ∷ []) r.id e, p, q)

  entries-grow :
      (m m' : List (ℕ × ℕ)) {rs : List ObjectRange}
      → IsLoaded os m rs
      → (m' ≡ m) ⊎ (m' ≡ assign src.addr (length os) m)
      → (a id : ℕ) → lookup a m' ≡ some id
      → (o : Object) × (get_elem? os' id ≡ some o) × (o.addr ≡ a)
  entries-grow m m' inv (inl e) a id h =
      let (o, found, same) = inv.entries a id (e' ∙ h) in
      (o, get_elem?-append_left os (bare_object (length os) src ∷ []) id found, same)
    where
      e' : lookup a m ≡ lookup a m'
      e' = rw e
  entries-grow m m' inv (inr e) a id h = elim (Bool-cases (src.addr == a)) [
    | inl new ↦
        let e' : id ≡ length os = ground (arith, at) in
        (bare_object (length os) src, rw e' last, ground arith)
    | inr old ↦
        let (o, found, same) = inv.entries a id (ground (arith, at)) in
        (o, get_elem?-append_left os (bare_object (length os) src ∷ []) id found, same)
  ]
    where
      at : lookup a m' ≡ (if src.addr == a then some (length os) else lookup a m)
      at = rw e (lookup-assign src.addr a (length os) m)

  within-grow :
      {m : List (ℕ × ℕ)} (rs rs' : List ObjectRange)
      → IsLoaded os m rs
      → (rs' ≡ rs) ⊎ (rs' ≡ rs ++ new_range os src ∷ [])
      → All (IsRangeOf os') rs'
  within-grow rs rs' inv (inl e) = rw e (All-map rs IsRangeOf-grow inv.within)
  within-grow rs rs' inv (inr e) = rw e (
      All-append (IsRangeOf os') rs (new_range os src ∷ []) (All-map rs IsRangeOf-grow inv.within)
        ((bare_object (length os) src, last, refl, range_end-le src.addr src.size), tt))

load_object-IsLoaded :
    (opts : Options) (st : Loading) (src : Snapshot.Object) {st' : Loading}
    → load_object opts st src ≡ ok st'
    → IsLoaded st.objects st.by_addr st.ranges
    → IsLoaded st'.objects st'.by_addr st'.ranges
load_object-IsLoaded opts st src {st'} h inv =
    let (c, d) = load_object_cases opts st src h in
    rw (load_object-objects opts st src h) (record {
      entries = entries-grow st.objects src st.by_addr st'.by_addr inv c;
      within = within-grow st.objects src st.ranges st'.ranges inv d;
    })

pub load_objects-IsLoaded :
    (opts : Options) (st : Loading) (srcs : List Snapshot.Object) {st' : Loading}
    → load_objects opts st srcs ≡ ok st'
    → IsLoaded st.objects st.by_addr st.ranges
    → IsLoaded st'.objects st'.by_addr st'.ranges
unfolding load_objects
load_objects-IsLoaded opts st [] {st'} h inv =
    let e : st ≡ st' = cc in subst (λ s. IsLoaded s.objects s.by_addr s.ranges) e inv
load_objects-IsLoaded opts st (src ∷ rest) h inv =
    let (mid, first, more) =
      >>=-eq-ok (load_object opts st src) (λ s. load_objects opts s rest) h in
    load_objects-IsLoaded opts mid rest more (load_object-IsLoaded opts st src first inv)
