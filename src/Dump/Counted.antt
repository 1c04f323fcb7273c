-- ===== src/Dump/Counted.antt =====
-- The changes that the record parsers (internal/heapdump/parser.go) make to the snapshot keep its
-- counters in step.
use bubblepprof.Common.{
  ℕ, ◌+◌, ◌<◌, ◌≡◌, refl, ap, List, [], ◌∷◌, ◌++◌, some, arith, length, total, length-append,
  length-modify, total-append, total-modify,
}
use bubblepprof.Dump.State.{Parser, on_stats}
use bubblepprof.Dump.Pointers.{Extraction}
use bubblepprof.Dump.Records.Memory.{
  SegmentKind, data_segment, bss_segment, append_object, kind_text, segment_globals, add_globals,
  append_segment,
}
use bubblepprof.Dump.Records.Goroutines.{append_goroutine, append_frame}
use bubblepprof.Snapshot
use bubblepprof.Snapshot.{HeapSnapshot, ParseStats}
use bubblepprof.Dump.Counts.{
  objects, object_pointers, goroutines, stack_frames, stack_pointers, data_segments, bss_segments,
  global_roots, finalizers, queued_finalizers, os_threads, mem_profiles, alloc_samples,
  object_words, frame_words, goroutine_frames, goroutine_words, IsCounted, HasCurrent,
}

pub append_object-IsCounted :
    (o : Snapshot.Object) (s : HeapSnapshot) → IsCounted s → IsCounted (append_object o s)
unfolding IsCounted append_object
append_object-IsCounted o s h objects = omega (arith, h objects, length-append s.objects (o ∷ []))
append_object-IsCounted o s h object_pointers =
    omega (arith, h object_pointers, total-append object_words s.objects (o ∷ []))
append_object-IsCounted o s h c = h c

length-segment_globals :
    (kind slots : List ℕ) (i : ℕ) (targets : List ℕ)
    → length (segment_globals kind slots i targets) ≡ length targets
unfolding segment_globals
length-segment_globals kind slots i [] = refl
length-segment_globals kind slots i (t ∷ rest) =
    omega (arith, length-segment_globals kind slots (i + 1) rest)

pub add_globals-IsCounted :
    (kind : SegmentKind) (x : Extraction) (s : HeapSnapshot)
    → IsCounted s
    → IsCounted (add_globals kind x s)
unfolding IsCounted add_globals
add_globals-IsCounted kind x s h global_roots = omega (
  arith,
  h global_roots,
  length-append s.globals (segment_globals (kind_text kind) x.slots 0 x.targets),
  length-segment_globals (kind_text kind) x.slots 0 x.targets,
)
add_globals-IsCounted kind x s h c = h c

pub append_segment-IsCounted :
    (kind : SegmentKind) (seg : Snapshot.DataSegment) (s : HeapSnapshot)
    → IsCounted s
    → IsCounted (append_segment kind seg s)
unfolding IsCounted append_segment
append_segment-IsCounted data_segment seg s h data_segments =
    omega (arith, h data_segments, length-append s.segments (seg ∷ []))
append_segment-IsCounted data_segment seg s h c = h c
append_segment-IsCounted bss_segment seg s h bss_segments =
    omega (arith, h bss_segments, length-append s.bss (seg ∷ []))
append_segment-IsCounted bss_segment seg s h c = h c

-- A goroutine is appended without frames.
pub append_goroutine-IsCounted :
    (g : Snapshot.Goroutine) (p : Parser)
    → g.frames ≡ []
    → IsCounted p.snap
    → IsCounted (append_goroutine g p).snap
unfolding IsCounted append_goroutine
append_goroutine-IsCounted g p none_yet h goroutines =
    omega (arith, h goroutines, length-append p.snap.goroutines (g ∷ []))
append_goroutine-IsCounted g p none_yet h stack_frames = omega (
  arith,
  h stack_frames,
  total-append goroutine_frames p.snap.goroutines (g ∷ []),
  ap length none_yet,
)
append_goroutine-IsCounted g p none_yet h stack_pointers = omega (
  arith,
  h stack_pointers,
  total-append goroutine_words p.snap.goroutines (g ∷ []),
  ap (total frame_words) none_yet,
)
append_goroutine-IsCounted g p none_yet h c = h c

pub append_goroutine-HasCurrent :
    (g : Snapshot.Goroutine) (p : Parser)
    → HasCurrent (append_goroutine g p).cur_g (append_goroutine g p).snap
unfolding append_goroutine
append_goroutine-HasCurrent g p = omega (arith, length-append p.snap.goroutines (g ∷ []))

pub append_frame-IsCounted :
    (i : ℕ) (f : Snapshot.StackFrame) (s : HeapSnapshot)
    → i < length s.goroutines
    → IsCounted s
    → IsCounted (append_frame i f s)
unfolding IsCounted append_frame
append_frame-IsCounted i f s lt h goroutines = omega (
  arith,
  h goroutines,
  length-modify s.goroutines i (λ g. record g { frames = g.frames ++ f ∷ [] }),
)
append_frame-IsCounted i f s lt h stack_frames = omega (
  arith,
  h stack_frames,
  total-modify goroutine_frames s.goroutines i (λ g. record g { frames = g.frames ++ f ∷ [] }) 1
      (λ g. length-append g.frames (f ∷ [])) lt,
)
append_frame-IsCounted i f s lt h stack_pointers = omega (
  arith,
  h stack_pointers,
  total-modify goroutine_words s.goroutines i (λ g. record g { frames = g.frames ++ f ∷ [] })
      (length f.pointer_addrs) (λ g. omega (arith, total-append frame_words g.frames (f ∷ []))) lt,
)
append_frame-IsCounted i f s lt h c = h c

pub append_frame-HasCurrent :
    (i : ℕ) (f : Snapshot.StackFrame) (s : HeapSnapshot)
    → i < length s.goroutines
    → HasCurrent (some i) (append_frame i f s)
unfolding append_frame
append_frame-HasCurrent i f s lt =
    omega (arith, length-modify s.goroutines i (λ g. record g { frames = g.frames ++ f ∷ [] }))

pub add_finalizer-IsCounted :
    (x : Snapshot.Finalizer) (s : HeapSnapshot)
    → IsCounted s
    → IsCounted (
        on_stats
          (λ t. record t { finalizer_count = t.finalizer_count + 1 })
          (record s { finalizers = s.finalizers ++ x ∷ [] }))
unfolding IsCounted
add_finalizer-IsCounted x s h finalizers =
    omega (arith, h finalizers, length-append s.finalizers (x ∷ []))
add_finalizer-IsCounted x s h c = h c

pub add_queued-IsCounted :
    (x : Snapshot.Finalizer) (s : HeapSnapshot)
    → IsCounted s
    → IsCounted (
        on_stats
          (λ t. record t { queued_finalizers = t.queued_finalizers + 1 })
          (record s { queued_finalizers = s.queued_finalizers ++ x ∷ [] }))
unfolding IsCounted
add_queued-IsCounted x s h queued_finalizers =
    omega (arith, h queued_finalizers, length-append s.queued_finalizers (x ∷ []))
add_queued-IsCounted x s h c = h c

pub add_thread-IsCounted :
    (x : Snapshot.OsThread) (s : HeapSnapshot)
    → IsCounted s
    → IsCounted (
        on_stats
          (λ t. record t { os_thread_count = t.os_thread_count + 1 })
          (record s { os_threads = s.os_threads ++ x ∷ [] }))
unfolding IsCounted
add_thread-IsCounted x s h os_threads =
    omega (arith, h os_threads, length-append s.os_threads (x ∷ []))
add_thread-IsCounted x s h c = h c

pub add_mem_profile-IsCounted :
    (x : Snapshot.MemProfile) (s : HeapSnapshot)
    → IsCounted s
    → IsCounted (
        on_stats
          (λ t. record t { mem_prof_count = t.mem_prof_count + 1 })
          (record s { mem_profiles = s.mem_profiles ++ x ∷ [] }))
unfolding IsCounted
add_mem_profile-IsCounted x s h mem_profiles =
    omega (arith, h mem_profiles, length-append s.mem_profiles (x ∷ []))
add_mem_profile-IsCounted x s h c = h c

pub add_alloc_sample-IsCounted :
    (x : Snapshot.AllocationSample) (s : HeapSnapshot)
    → IsCounted s
    → IsCounted (
        on_stats
          (λ t. record t { alloc_sample_count = t.alloc_sample_count + 1 })
          (record s { allocation_samples = s.allocation_samples ++ x ∷ [] }))
unfolding IsCounted
add_alloc_sample-IsCounted x s h alloc_samples =
    omega (arith, h alloc_samples, length-append s.allocation_samples (x ∷ []))
add_alloc_sample-IsCounted x s h c = h c

pub add_root-IsCounted :
    (x : Snapshot.Root) (s : HeapSnapshot)
    → IsCounted s
    → IsCounted (
        on_stats
          (λ t. record t {
            other_root_count = t.other_root_count + 1;
            global_root_count = t.global_root_count + 1;
          })
          (record s { globals = s.globals ++ x ∷ [] }))
unfolding IsCounted
add_root-IsCounted x s h global_roots =
    omega (arith, h global_roots, length-append s.globals (x ∷ []))
add_root-IsCounted x s h c = h c
