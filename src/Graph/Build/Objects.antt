-- ===== src/Graph/Build/Objects.antt =====
-- The first loop of BuildContext (internal/snapshotgraph/build.go): the objects of the dump become
-- graph objects, address entries and ranges; then the ranges are sorted and checked for overlap.
use bubblepprof.Common.{
  ℕ, Bool, true, List, [], ◌∷◌, ◌++◌, some, none, ltb, leb, ◌==◌, if◌then◌else◌, length, lookup,
  assign, add_u64, max_uint32, max_uint64,
}
use bubblepprof.Common.Result.{Result, ok, err, ◌>>=◌, ◌>>◌, fail_if}
use bubblepprof.Snapshot
use bubblepprof.Graph.{Object, ObjectRange}
use bubblepprof.Graph.Types.{
  Options, BuildWarning, BuildError, zero_address, duplicate_address, zero_sized, size_overflow,
  overlapping_ranges, too_many_objects, strict_duplicate, strict_overflow, strict_overlap,
}

pub record Loading : Type 0 where
  pub objects : List Object
  pub by_addr : List (ℕ × ℕ)
  pub ranges : List ObjectRange
  pub warnings : List BuildWarning
  pub zero_addr_warned : Bool
  pub zero_sized_warned : Bool

-- `g.Objects = append(g.Objects, Object{...})`, after the check that the new id fits a uint32.
unfoldable pub append_object : Loading → Snapshot.Object → Result BuildError Loading
append_object st src = do
  fail_if (ltb max_uint32 (length st.objects)) (too_many_objects (length st.objects))
  let o : Object = record {
    id = length st.objects;
    addr = src.addr;
    size = src.size;
    children = [];
  }
  ok (record st { objects = st.objects ++ o ∷ [] })

abbrev pub warn : Loading → BuildWarning → Loading
warn st w = record st { warnings = st.warnings ++ w ∷ [] }

abbrev pub add_range : Loading → ℕ → ℕ → ℕ → Loading
add_range st start end id = record st {
  ranges = st.ranges ++ record { start = start; end = end; id = id } ∷ [];
}

-- The range of an object with an address of its own. A size that wraps is clamped.
unfoldable pub register_range : Options → Loading → Snapshot.Object → ℕ → Result BuildError Loading
register_range opts st src id =
    let end = add_u64 src.addr src.size in
    if src.size == 0
    then if st.zero_sized_warned
      then ok st
      else ok (record (warn st (zero_sized src.addr)) { zero_sized_warned = true })
    else if ltb end src.addr
    then if opts.strict
      then err (strict_overflow src.addr src.size)
      else ok (add_range (warn st (size_overflow src.addr src.size)) src.addr max_uint64 id)
    else ok (add_range st src.addr end id)

unfoldable pub load_zero_address : Loading → Snapshot.Object → Result BuildError Loading
unfolding append_object
load_zero_address st src = do
  st' ← append_object st src
  if st'.zero_addr_warned
      then ok st'
      else ok (record (warn st' zero_address) { zero_addr_warned = true })

unfoldable pub load_duplicate : Options → Loading → Snapshot.Object → ℕ → Result BuildError Loading
unfolding append_object
load_duplicate opts st src existing = do
  fail_if opts.strict (strict_duplicate src.addr)
  append_object (warn st (duplicate_address src.addr existing)) src

unfoldable pub load_fresh : Options → Loading → Snapshot.Object → Result BuildError Loading
unfolding append_object register_range
load_fresh opts st src = do
  st' ← append_object st src
  let id = length st.objects
  register_range opts (record st' { by_addr = assign src.addr id st'.by_addr }) src id

-- One round of the loop over snap.Objects.
unfoldable pub load_object : Options → Loading → Snapshot.Object → Result BuildError Loading
unfolding load_zero_address load_duplicate load_fresh
load_object opts st src =
    if src.addr == 0 then load_zero_address st src else elim (lookup src.addr st.by_addr) [
      | some existing ↦ load_duplicate opts st src existing
      | none ↦ load_fresh opts st src
    ]

unfoldable pub load_objects : Options → Loading → List Snapshot.Object → Result BuildError Loading
load_objects opts st [] = ok st
load_objects opts st (src ∷ rest) = do st' ← load_object opts st src; load_objects opts st' rest

-- sort.Slice by Start. The starts are distinct, so every sort gives this list.
unfoldable pub insert_range : ObjectRange → List ObjectRange → List ObjectRange
insert_range r [] = r ∷ []
insert_range r (s ∷ rest) = if leb r.start s.start then r ∷ s ∷ rest else s ∷ insert_range r rest

unfoldable pub sort_ranges : List ObjectRange → List ObjectRange
unfolding insert_range
sort_ranges [] = []
sort_ranges (r ∷ rest) = insert_range r (sort_ranges rest)

-- The loop over the sorted ranges behind the first, with `maxEndRange` and the warnings so far.
unfoldable pub overlap_loop :
    Bool
    → ObjectRange
    → List BuildWarning
    → List ObjectRange
    → Result BuildError (List BuildWarning)
overlap_loop strict widest ws [] = ok ws
overlap_loop strict widest ws (cur ∷ rest) =
    let widest' = if ltb widest.end cur.end then cur else widest in
    let warned =
      overlap_loop strict widest'
        (ws ++ overlapping_ranges widest.start widest.end cur.start cur.end ∷ []) rest in
    let clear = overlap_loop strict widest' ws rest in
    if ltb cur.start widest.end
    then if strict then err (strict_overlap cur.start) else warned
    else clear

unfoldable pub check_overlaps :
    Bool → List BuildWarning → List ObjectRange → Result BuildError (List BuildWarning)
unfolding overlap_loop
check_overlaps strict ws [] = ok ws
check_overlaps strict ws (r ∷ rest) = overlap_loop strict r ws rest
