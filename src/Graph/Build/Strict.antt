-- ===== src/Graph/Build/Strict.antt =====
-- BuildContext (build.go) in strict mode: every sized object of the dump has its range.
use bubblepprof.Common.{
  ℕ, zero, suc, ◌+◌, ◌<◌, ◌≡◌, ◌≢◌, ap, inl, inr, true, List, [], ◌∷◌, ◌++◌, some, arith, length,
  length-append, get_elem?, IsU64, u64_mod,
}
use bubblepprof.Common.Result.{ok, >>=-eq-ok}
use bubblepprof.Snapshot
use bubblepprof.Graph.{ObjectRange}
use bubblepprof.Graph.Types.{Options}
use bubblepprof.Graph.Build.Objects.{Loading, load_object, load_objects}
use bubblepprof.Graph.Build.Loaded.{load_object_cases, load_object-objects, bare_object, new_range}
use bubblepprof.Graph.Build.Sorted.{IsIn, IsIn-append}
use mathlib.Core.Path.{subst}

-- The whole range of an object.
abbrev pub whole_range : ℕ → Snapshot.Object → ObjectRange
whole_range i src = record { start = src.addr; end = src.addr + src.size; id = i }

load_object_registers :
    (opts : Options) (st : Loading) (src : Snapshot.Object) {st' : Loading}
    → opts.strict ≡ true
    → load_object opts st src ≡ ok st'
    → src.addr ≢ 0
    → src.size ≢ 0
    → IsU64 src.addr
    → IsU64 src.size
    → (st'.ranges ≡ st.ranges ++ whole_range (length st.objects) src ∷ [])
      × (src.addr + src.size < u64_mod)
unfolding load_object
load_object_registers opts st src strict h nz ns ua us = ground arith

load_object-IsIn :
    (opts : Options) (st : Loading) (src : Snapshot.Object) (r : ObjectRange) {st' : Loading}
    → load_object opts st src ≡ ok st'
    → IsIn r st.ranges
    → IsIn r st'.ranges
load_object-IsIn opts st src r h m = elim ((load_object_cases opts st src h).1) [
  | inl e ↦ rw e m
  | inr e ↦ rw e (IsIn-append r (new_range st.objects src) st.ranges (inl m))
]

load_objects-IsIn :
    (opts : Options) (st : Loading) (srcs : List Snapshot.Object) (r : ObjectRange) {st' : Loading}
    → load_objects opts st srcs ≡ ok st'
    → IsIn r st.ranges
    → IsIn r st'.ranges
unfolding load_objects
load_objects-IsIn opts st [] r {st'} h m = let e : st ≡ st' = cc in subst (λ s. IsIn r s.ranges) e m
load_objects-IsIn opts st (src ∷ rest) r h m =
    let (mid, first, more) =
      >>=-eq-ok (load_object opts st src) (λ s. load_objects opts s rest) h in
    load_objects-IsIn opts mid rest r more (load_object-IsIn opts st src r first m)

-- After a strict load every object with an address and a size has its whole range, and the range
-- does not wrap.
pub load_objects_registers :
    (opts : Options) (st : Loading) (srcs : List Snapshot.Object) (i : ℕ) {src : Snapshot.Object}
    {st' : Loading}
    → opts.strict ≡ true
    → load_objects opts st srcs ≡ ok st'
    → get_elem? srcs i ≡ some src
    → src.addr ≢ 0
    → src.size ≢ 0
    → IsU64 src.addr
    → IsU64 src.size
    → IsIn (whole_range (length st.objects + i) src) st'.ranges
unfolding load_objects
load_objects_registers opts st [] i strict h at nz ns ua us = cc
load_objects_registers opts st (x ∷ rest) zero {src} {st'} strict h at nz ns ua us =
    let (mid, first, more) = >>=-eq-ok (load_object opts st x) (λ s. load_objects opts s rest) h in
    let same : x ≡ src = cc in
    let first' = subst (λ s. load_object opts st s ≡ ok mid) same first in
    let (e, fits) = load_object_registers opts st src strict first' nz ns ua us in
    load_objects-IsIn opts mid rest _ more (rw e (IsIn-append _ _ st.ranges (inr whole)))
  where
    whole : whole_range (length st.objects + 0) src ≡ whole_range (length st.objects) src
    whole = ground arith
load_objects_registers opts st (x ∷ rest) (suc i) {src} {st'} strict h at nz ns ua us =
    let (mid, first, more) = >>=-eq-ok (load_object opts st x) (λ s. load_objects opts s rest) h in
    let grown = load_object-objects opts st x first in
    let e : length mid.objects + i ≡ length st.objects + suc i =
      omega (
        arith,
        ap length grown,
        length-append st.objects (bare_object (length st.objects) x ∷ []),
      ) in
    subst (λ k. IsIn (whole_range k src) st'.ranges) e
      (load_objects_registers opts mid rest i strict more at nz ns ua us)
