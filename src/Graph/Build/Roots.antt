-- ===== src/Graph/Build/Roots.antt =====
-- The root loops of BuildContext (build.go): goroutine stacks and scheduler-held roots, the global
-- roots without repetition, and the finalizers.
use bubblepprof.Common.{
  ℕ, ◌+◌, ◌-◌, Bool, false, List, [], ◌∷◌, ◌++◌, Option, some, none, leb, ◌==◌, ◌&&◌, ◌||◌,
  if◌then◌else◌, length, get_or, Text, text, text_eq, max_uint64,
}
use bubblepprof.Snapshot
use bubblepprof.Graph.{Graph, RootRef, FrameInfo, find_object_containing}
use bubblepprof.Graph.Types.{Options, GoroutineReachability}

-- The roots found so far, and the count of values that resolve to no object.
pub record RootScan : Type 0 where
  pub roots : List RootRef
  pub unresolved : ℕ

abbrev pub push_root : RootScan → RootRef → RootScan
push_root s r = record s { roots = s.roots ++ r ∷ [] }

abbrev pub frame_info : Options → Snapshot.StackFrame → Option FrameInfo
frame_info opts fr =
    if opts.keep_provenance
    then some (record {
      sp = fr.sp;
      depth = fr.depth;
      entry_pc = fr.entry_pc;
      current_pc = fr.current_pc;
      continue_pc = fr.continue_pc;
    })
    else none

module _ (opts : Options) (g : Graph) where
  -- The loop over the pointers of one frame. A slot that the frame does not carry is 0.
  unfoldable pub stack_pointers : Snapshot.StackFrame → RootScan → ℕ → List ℕ → RootScan
  stack_pointers fr s pi [] = s
  stack_pointers fr s pi (ptr ∷ rest) =
      let s' = if ptr == 0 then s else elim (find_object_containing (some g) ptr) [
        | none ↦ record s { unresolved = s.unresolved + 1 }
        | some target ↦ push_root s (record {
          object_id = target;
          ptr = ptr;
          slot_addr = get_or fr.pointer_slots pi 0;
          kind = text "stack";
          detail = fr.func_name;
          frame = frame_info opts fr;
        })
      ] in
      stack_pointers fr s' (pi + 1) rest

  unfoldable pub stack_frames : RootScan → List Snapshot.StackFrame → RootScan
  unfolding stack_pointers
  stack_frames s [] = s
  stack_frames s (fr ∷ rest) = stack_frames (stack_pointers fr s 0 fr.pointer_addrs) rest

  -- A scheduler-held pointer that does not resolve is not counted.
  unfoldable pub sched_root : RootScan → ℕ → Text → RootScan
  sched_root s ptr kind = if ptr == 0 then s else elim (find_object_containing (some g) ptr) [
    | none ↦ s
    | some target ↦ push_root s (record {
      object_id = target;
      ptr = ptr;
      slot_addr = 0;
      kind = kind;
      detail = [];
      frame = none;
    })
  ]

  unfoldable pub goroutine_roots : ℕ → Snapshot.Goroutine → RootScan
  unfolding stack_frames sched_root
  goroutine_roots unresolved gr =
      let s = stack_frames (record { roots = []; unresolved = unresolved }) gr.frames in
      let s = sched_root s gr.context (text "sched.ctxt") in
      let s = sched_root s gr.defer (text "defer") in sched_root s gr.panic (text "panic")

-- What the loop over the goroutines changes.
pub record GoroutineScan : Type 0 where
  pub goroutines : List GoroutineReachability
  pub unresolved : ℕ
  pub system : ℕ
  pub root_pointers : ℕ

module _ (opts : Options) (g : Graph) where
  unfoldable pub scan_goroutine : GoroutineScan → Snapshot.Goroutine → GoroutineScan
  unfolding goroutine_roots
  scan_goroutine s gr =
      let found = goroutine_roots opts g s.unresolved gr in
      record {
        goroutines =
            s.goroutines
            ++ record {
              goroutine_id = gr.id;
              is_system = gr.is_system;
              is_background = gr.is_background;
              roots = found.roots;
              reachable = [];
            }
              ∷ [];
        unresolved = found.unresolved;
        system = if gr.is_system then s.system + 1 else s.system;
        root_pointers = s.root_pointers + length found.roots;
      }

  unfoldable pub scan_goroutines : GoroutineScan → List Snapshot.Goroutine → GoroutineScan
  unfolding scan_goroutine
  scan_goroutines s [] = s
  scan_goroutines s (gr ∷ rest) = scan_goroutines (scan_goroutine s gr) rest

pub record GlobalRootKey : Type 0 where
  pub kind : Text
  pub ptr : ℕ
  pub slot : ℕ
  pub detail : Text

abbrev pub key_eq : GlobalRootKey → GlobalRootKey → Bool
key_eq a b =
    text_eq a.kind b.kind && (a.ptr == b.ptr && (a.slot == b.slot && text_eq a.detail b.detail))

unfoldable pub key_seen : GlobalRootKey → List GlobalRootKey → Bool
key_seen k [] = false
key_seen k (j ∷ js) = key_eq k j || key_seen k js

pub record GlobalScan : Type 0 where
  pub roots : List RootRef
  pub seen : List GlobalRootKey
  pub unresolved : ℕ

-- `if kind == "" { kind = fallback }`
unfoldable pub kind_or : Text → Text → Text
kind_or [] fallback = fallback
kind_or (c ∷ cs) fallback = c ∷ cs

module _ (g : Graph) where
  -- resolveGlobalRoot
  unfoldable pub resolve_global_root : GlobalScan → Text → ℕ → ℕ → Text → GlobalScan
  unfolding key_seen kind_or
  resolve_global_root s kind ptr slot detail =
      let kind = kind_or kind (text "otherroot") in
      let key : GlobalRootKey = record { kind = kind; ptr = ptr; slot = slot; detail = detail } in
      let s' = record s { seen = key ∷ s.seen } in
      if ptr == 0
      then s
      else if key_seen key s.seen
      then s
      else elim (find_object_containing (some g) ptr) [
        | none ↦ record s' { unresolved = s.unresolved + 1 }
        | some target ↦ record s' {
          roots =
              s.roots
              ++ record {
                object_id = target;
                ptr = ptr;
                slot_addr = slot;
                kind = kind;
                detail = detail;
                frame = none;
              }
                ∷ [];
        }
      ]

  unfoldable pub global_roots : GlobalScan → List Snapshot.Root → GlobalScan
  unfolding resolve_global_root
  global_roots s [] = s
  global_roots s (r ∷ rest) =
      global_roots (resolve_global_root s r.kind r.pointer_addr r.addr r.description) rest

-- The slot of one field in dataSegmentPointerSlots; `none` for an unknown kind.
unfoldable pub field_slot : ℕ → ℕ → Snapshot.Field → Option ℕ
field_slot addr ptr_size f =
    if f.kind == 1
    then some (if leb f.offset (max_uint64 - addr) then addr + f.offset else 0)
    else if f.kind == 2 || f.kind == 3
    then some (
        if (ptr_size == 4 || ptr_size == 8)
          && (leb f.offset (max_uint64 - ptr_size) && leb (f.offset + ptr_size) (max_uint64 - addr))
        then addr + f.offset + ptr_size
        else 0)
    else none

-- The loop over the fields; it stops when `want` slots are there, a test made behind an append.
unfoldable pub segment_slots_loop : ℕ → ℕ → ℕ → List ℕ → List Snapshot.Field → List ℕ
unfolding field_slot
segment_slots_loop addr ptr_size want slots [] = slots
segment_slots_loop addr ptr_size want slots (f ∷ rest) =
    let skipped = segment_slots_loop addr ptr_size want slots rest in
    elim (field_slot addr ptr_size f) [
      | none ↦ skipped
      | some slot ↦
          let slots' = slots ++ slot ∷ [] in
          let more = segment_slots_loop addr ptr_size want slots' rest in
          if length slots' == want then slots' else more
    ]

unfoldable pub data_segment_pointer_slots : Snapshot.DataSegment → ℕ → List ℕ
unfolding segment_slots_loop
data_segment_pointer_slots seg ptr_size =
    segment_slots_loop seg.addr ptr_size (length seg.pointer_addrs) [] seg.fields

module _ (g : Graph) where
  unfoldable pub segment_pointers : GlobalScan → Text → List ℕ → ℕ → List ℕ → GlobalScan
  unfolding resolve_global_root
  segment_pointers s kind slots i [] = s
  segment_pointers s kind slots i (ptr ∷ rest) =
      segment_pointers (resolve_global_root g s kind ptr (get_or slots i 0) []) kind slots (i + 1)
        rest

  unfoldable pub add_segment_global_roots :
      GlobalScan → Snapshot.DataSegment → Text → ℕ → GlobalScan
  unfolding segment_pointers data_segment_pointer_slots kind_or
  add_segment_global_roots s seg default_kind ptr_size =
      let slots =
        if length seg.pointer_slots == length seg.pointer_addrs
        then seg.pointer_slots
        else data_segment_pointer_slots seg ptr_size in
      segment_pointers s (kind_or seg.kind default_kind) slots 0 seg.pointer_addrs

  unfoldable pub segments_roots : GlobalScan → List Snapshot.DataSegment → Text → ℕ → GlobalScan
  unfolding add_segment_global_roots
  segments_roots s [] default_kind ptr_size = s
  segments_roots s (seg ∷ rest) default_kind ptr_size =
      segments_roots (add_segment_global_roots s seg default_kind ptr_size) rest default_kind
        ptr_size

  -- addFinalizerRoot
  unfoldable pub add_finalizer_root : RootScan → ℕ → Text → RootScan
  add_finalizer_root s ptr kind =
      if ptr == 0 then s else elim (find_object_containing (some g) ptr) [
        | none ↦ record s { unresolved = s.unresolved + 1 }
        | some target ↦ push_root s (record {
          object_id = target;
          ptr = ptr;
          slot_addr = 0;
          kind = kind;
          detail = [];
          frame = none;
        })
      ]

  unfoldable pub finalizer_roots : RootScan → List Snapshot.Finalizer → Text → RootScan
  unfolding add_finalizer_root
  finalizer_roots s [] kind = s
  finalizer_roots s (fin ∷ rest) kind =
      finalizer_roots
        (add_finalizer_root (add_finalizer_root s fin.object_addr kind) fin.func_val kind) rest kind
