-- ===== src/Snapshot.antt =====
-- internal/heapsnapshot/model.go: the normalised model of one heap dump. Addresses and sizes are
-- uint64 values as numbers; counters of Go's type int are numbers that do not wrap.
use bubblepprof.Common.{ℕ, Bool, List, Text}

pub record DumpParams : Type 0 where
  pub big_endian : Bool
  pub ptr_size : ℕ
  pub heap_start : ℕ
  pub heap_end : ℕ
  pub goarch : Text
  pub build_version : Text
  pub num_cpu : ℕ

-- `kind` is the raw tag: 0 ends a list, 1 is a pointer, 2 an iface, 3 an eface.
pub record Field : Type 0 where
  pub kind : ℕ
  pub offset : ℕ

-- The parser never sets `fields`.
pub record TypeInfo : Type 0 where
  pub addr : ℕ
  pub size : ℕ
  pub name : Text
  pub indirect_iface : Bool
  pub fields : List Field

pub record Itab : Type 0 where
  pub addr : ℕ
  pub type_addr : ℕ

abbrev pub field_kind_eol : ℕ
field_kind_eol = 0

abbrev pub field_kind_ptr : ℕ
field_kind_ptr = 1

abbrev pub field_kind_iface : ℕ
field_kind_iface = 2

abbrev pub field_kind_eface : ℕ
field_kind_eface = 3

pub record Object : Type 0 where
  pub addr : ℕ
  pub size : ℕ
  pub contents : List ℕ
  pub fields : List Field
  pub pointer_addrs : List ℕ
  pub pointer_offsets : List ℕ

pub record StackFrame : Type 0 where
  pub sp : ℕ
  pub depth : ℕ
  pub child_sp : ℕ
  pub entry_pc : ℕ
  pub current_pc : ℕ
  pub continue_pc : ℕ
  pub func_name : Text
  pub size : ℕ
  pub fields : List Field
  pub pointer_addrs : List ℕ
  pub pointer_slots : List ℕ

pub record Goroutine : Type 0 where
  pub addr : ℕ
  pub stack_top : ℕ
  pub id : ℕ
  pub go_pc : ℕ
  pub status : ℕ
  pub is_system : Bool
  pub is_background : Bool
  pub wait_since : ℕ
  pub wait_reason : Text
  pub context : ℕ
  pub m : ℕ
  pub defer : ℕ
  pub panic : ℕ
  pub frames : List StackFrame

pub record Root : Type 0 where
  pub kind : Text
  pub description : Text
  pub addr : ℕ
  pub pointer_addr : ℕ

pub record DataSegment : Type 0 where
  pub kind : Text
  pub addr : ℕ
  pub size : ℕ
  pub fields : List Field
  pub pointer_addrs : List ℕ
  pub pointer_slots : List ℕ

pub record Finalizer : Type 0 where
  pub object_addr : ℕ
  pub func_val : ℕ
  pub func_pc : ℕ
  pub type_addr : ℕ
  pub ptr_type_addr : ℕ

pub record OsThread : Type 0 where
  pub addr : ℕ
  pub id : ℕ
  pub os_id : ℕ

pub record AllocationFrame : Type 0 where
  pub function : Text
  pub file : Text
  pub line : ℕ

pub record MemProfile : Type 0 where
  pub bucket : ℕ
  pub size : ℕ
  pub frames : List AllocationFrame
  pub allocs : ℕ
  pub frees : ℕ

pub record AllocationSample : Type 0 where
  pub address : ℕ
  pub bucket : ℕ

pub record ParseStats : Type 0 where
  pub object_count : ℕ
  pub object_bytes : ℕ
  pub object_pointers : ℕ
  pub type_count : ℕ
  pub itab_count : ℕ
  pub goroutine_count : ℕ
  pub stack_frame_count : ℕ
  pub stack_pointers : ℕ
  pub other_root_count : ℕ
  pub data_count : ℕ
  pub data_pointers : ℕ
  pub bss_count : ℕ
  pub bss_pointers : ℕ
  pub global_root_count : ℕ
  pub finalizer_count : ℕ
  pub queued_finalizers : ℕ
  pub os_thread_count : ℕ
  pub defer_count : ℕ
  pub panic_count : ℕ
  pub mem_prof_count : ℕ
  pub alloc_sample_count : ℕ
  pub unknown_records : ℕ
  pub interface_fields_decoded : ℕ
  pub eface_fields_decoded : ℕ

-- The keys of the `MemStats` map: a name of `memStatsFields`, "pause_ns_<i>", or "num_gc".
pub data MemStatKey : Type 0 where
  stat_field : ℕ → MemStatKey
  pause_ns : ℕ → MemStatKey
  num_gc : MemStatKey

-- The messages that the parser appends to `Warnings`, with the values that they print. The text
-- that names the container (`context`) is left out of the pointer messages.
pub data ParseWarning : Type 0 where
  unknown_record_tag : ℕ → ℕ → ParseWarning
  object_before_params : ParseWarning
  frame_without_goroutine : Text → ℕ → ParseWarning
  unsupported_ptr_size : ℕ → ParseWarning
  slot_overflow : ParseWarning
  pointer_out_of_bounds : ℕ → ℕ → ParseWarning
  data_word_overflow : ParseWarning
  data_word_out_of_bounds : ℕ → ℕ → ParseWarning
  unknown_field_kind : ℕ → ℕ → ParseWarning

-- The maps `Types` and `Itabs` are association lists by address, the queued finalizers have the
-- fields of the finalizers.
pub record HeapSnapshot : Type 0 where
  pub header : Text
  pub params : DumpParams
  pub types : List (ℕ × TypeInfo)
  pub itabs : List (ℕ × Itab)
  pub objects : List Object
  pub goroutines : List Goroutine
  pub globals : List Root
  pub segments : List DataSegment
  pub bss : List DataSegment
  pub finalizers : List Finalizer
  pub queued_finalizers : List Finalizer
  pub os_threads : List OsThread
  pub mem_stats : List (MemStatKey × ℕ)
  pub mem_profiles : List MemProfile
  pub allocation_samples : List AllocationSample
  pub stats : ParseStats
  pub warnings : List ParseWarning
