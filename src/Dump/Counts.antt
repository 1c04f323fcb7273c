-- ===== src/Dump/Counts.antt =====
-- The counters of ParseStats and what each of them counts (internal/heapsnapshot/model.go), and how
-- the record parsers (internal/heapdump/parser.go) keep them in step.
use bubblepprof.Common.{ℕ, ◌<◌, ◌≡◌, Option, some, none, length, total}
use bubblepprof.Snapshot
use bubblepprof.Snapshot.{HeapSnapshot, ParseStats}

pub data Counter : Type 0 where
  objects object_pointers goroutines stack_frames stack_pointers data_segments bss_segments :
      Counter
  global_roots finalizers queued_finalizers os_threads mem_profiles alloc_samples : Counter

abbrev pub counter : Counter → ParseStats → ℕ
counter objects t = t.object_count
counter object_pointers t = t.object_pointers
counter goroutines t = t.goroutine_count
counter stack_frames t = t.stack_frame_count
counter stack_pointers t = t.stack_pointers
counter data_segments t = t.data_count
counter bss_segments t = t.bss_count
counter global_roots t = t.global_root_count
counter finalizers t = t.finalizer_count
counter queued_finalizers t = t.queued_finalizers
counter os_threads t = t.os_thread_count
counter mem_profiles t = t.mem_prof_count
counter alloc_samples t = t.alloc_sample_count

abbrev pub object_words : Snapshot.Object → ℕ
object_words o = length o.pointer_addrs

abbrev pub frame_words : Snapshot.StackFrame → ℕ
frame_words f = length f.pointer_addrs

abbrev pub goroutine_frames : Snapshot.Goroutine → ℕ
goroutine_frames g = length g.frames

abbrev pub goroutine_words : Snapshot.Goroutine → ℕ
goroutine_words g = total frame_words g.frames

abbrev pub counted : Counter → HeapSnapshot → ℕ
counted objects s = length s.objects
counted object_pointers s = total object_words s.objects
counted goroutines s = length s.goroutines
counted stack_frames s = total goroutine_frames s.goroutines
counted stack_pointers s = total goroutine_words s.goroutines
counted data_segments s = length s.segments
counted bss_segments s = length s.bss
counted global_roots s = length s.globals
counted finalizers s = length s.finalizers
counted queued_finalizers s = length s.queued_finalizers
counted os_threads s = length s.os_threads
counted mem_profiles s = length s.mem_profiles
counted alloc_samples s = length s.allocation_samples

-- Every counter has the value that it counts.
unfoldable pub IsCounted : HeapSnapshot → Type 0
IsCounted s = (c : Counter) → counter c s.stats ≡ counted c s

abbrev pub HasCurrent : Option ℕ → HeapSnapshot → Type 0
HasCurrent none s = Unit
HasCurrent (some i) s = i < length s.goroutines

-- What is not counted may change.
pub IsCounted-update :
    (s t : HeapSnapshot) (u : ParseStats)
    → IsCounted s
    → IsCounted (record s {
      header = t.header;
      params = t.params;
      types = t.types;
      itabs = t.itabs;
      mem_stats = t.mem_stats;
      warnings = t.warnings;
      stats = record (s.stats) {
        object_bytes = u.object_bytes;
        type_count = u.type_count;
        itab_count = u.itab_count;
        other_root_count = u.other_root_count;
        data_pointers = u.data_pointers;
        bss_pointers = u.bss_pointers;
        defer_count = u.defer_count;
        panic_count = u.panic_count;
        unknown_records = u.unknown_records;
        interface_fields_decoded = u.interface_fields_decoded;
        eface_fields_decoded = u.eface_fields_decoded;
      };
    })
unfolding IsCounted
IsCounted-update s t u h objects = h objects
IsCounted-update s t u h c = h c
