-- ===== src/Dump/Parser.antt =====
-- The record loop of internal/heapdump/parser.go, and Parse. An io.Reader is its list of bytes, and
-- there is no context.
use bubblepprof.Common.{
  ℕ, zero, suc, ◌+◌, Bool, true, false, List, [], Option, some, none, ◌==◌, ◌||◌, if◌then◌else◌,
  length, Text, text, text_eq, String,
}
use bubblepprof.Common.Result.{Result, ok, err, stuck}
use bubblepprof.Dump.Errors.{
  DumpError, eof, eof_before_end, record_tag, record_at, field, unsupported_header,
}
use bubblepprof.Dump.Monad.{◌>>=◌, ◌>>◌, pure, fail, on_error, update}
use bubblepprof.Dump.Reader.{Limits, uvarint, read_line}
use bubblepprof.Dump.State.{Options, ContentRef, Parser, P, on_reader, on_snap, on_stats, warn}
use bubblepprof.Dump.Records.Types.{
  parse_params, parse_type, parse_other_root, parse_finalizer, parse_queued_finalizer, parse_itab,
  parse_os_thread,
}
use bubblepprof.Dump.Records.Memory.{data_segment, bss_segment, parse_object, parse_data_like}
use bubblepprof.Dump.Records.Goroutines.{
  parse_goroutine, parse_stack_frame, parse_defer, parse_panic,
}
use bubblepprof.Dump.Records.Profiles.{parse_mem_stats, parse_mem_prof, parse_alloc_sample}
use bubblepprof.Snapshot.{HeapSnapshot, unknown_record_tag}

-- The record parser of a tag and its name in errors; tag 0 ends the dump and has none.
unfoldable pub record_parser : Options → ℕ → Option (String × P (Unit {0}))
record_parser opts tag =
    if tag == 1
    then some ("object", parse_object opts)
    else if tag == 2
    then some ("otherroot", parse_other_root)
    else if tag == 3
    then some ("type", parse_type)
    else if tag == 4
    then some ("goroutine", parse_goroutine)
    else if tag == 5
    then some ("stack frame", parse_stack_frame opts)
    else if tag == 6
    then some ("params", parse_params)
    else if tag == 7
    then some ("finalizer", parse_finalizer)
    else if tag == 8
    then some ("itab", parse_itab)
    else if tag == 9
    then some ("osthread", parse_os_thread)
    else if tag == 10
    then some ("memstats", parse_mem_stats)
    else if tag == 11
    then some ("queued finalizer", parse_queued_finalizer)
    else if tag == 12
    then some ("data", parse_data_like opts data_segment)
    else if tag == 13
    then some ("bss", parse_data_like opts bss_segment)
    else if tag == 14
    then some ("defer", parse_defer)
    else if tag == 15
    then some ("panic", parse_panic)
    else if tag == 16
    then some ("mem prof", parse_mem_prof)
    else if tag == 17
    then some ("alloc sample", parse_alloc_sample)
    else none

-- Goroutine, stack frame, defer and panic records stay in the goroutine section.
abbrev pub keeps_goroutine : ℕ → Bool
keeps_goroutine tag = tag == 5 || (tag == 14 || (tag == 15 || tag == 4))

-- endGoroutine, for the tags that leave the section.
unfoldable pub leave_goroutine : ℕ → Parser → Parser
leave_goroutine tag p = if keeps_goroutine tag then p else record p { cur_g = none }

abbrev pub tag_error : ℕ → DumpError → DumpError
tag_error start eof = eof_before_end start
tag_error start e = record_tag start e

-- An unknown tag ends the parse, with what was read so far.
unfoldable pub unknown_tag : Options → ℕ → ℕ → P (Unit {0})
unfolding warn
unknown_tag opts tag start = do
  update (on_snap (on_stats (λ t. record t { unknown_records = t.unknown_records + 1 })))
  warn opts (unknown_record_tag tag start)

-- One record behind its tag: `true` if the loop goes on.
unfoldable pub parse_record : Options → ℕ → ℕ → P Bool
unfolding record_parser leave_goroutine unknown_tag
parse_record opts start tag = do
  update (leave_goroutine tag)
  if tag == 0 then pure false else elim (record_parser opts tag) [
    | none ↦ unknown_tag opts tag start >> pure false
    | some (name, m) ↦ on_error (record_at name start) m >> pure true
  ]

-- The loop of parseRecords. A record takes at least the byte of its tag, so the length of the
-- stream is enough fuel.
unfoldable pub parse_records_loop : ℕ → Options → P (Unit {0})
unfolding parse_record
parse_records_loop zero opts p = stuck
parse_records_loop (suc fuel) opts p = elim (on_reader uvarint p) [
  | err e ↦ err (tag_error p.reader.offset e)
  | stuck ↦ stuck
  | ok (tag, p1) ↦ elim (parse_record opts p.reader.offset tag p1) [
    | err e ↦ err e
    | stuck ↦ stuck
    | ok (false, p2) ↦ ok (tt, p2)
    | ok (true, p2) ↦ parse_records_loop fuel opts p2
  ]
]

unfoldable pub parse_records : Options → P (Unit {0})
unfolding parse_records_loop
parse_records opts p = parse_records_loop (length p.reader.input + 1) opts p

abbrev pub header : Text
header = text "go1.7 heap dump"

unfoldable pub check_header : Text → P (Unit {0})
check_header line =
    if text_eq line header
    then update (on_snap (λ s. record s { header = line }))
    else fail (unsupported_header line)

unfoldable pub parse_header : P (Unit {0})
unfolding check_header
parse_header = do
  line ← on_error (field "read heap dump header") (on_reader read_line)
  check_header line

-- A limit of zero means the default.
abbrev pub limits_of : Options → Limits
limits_of opts = record {
  max_string_bytes = if opts.max_string_bytes == 0 then 16777216 else opts.max_string_bytes;
  max_mem_range_size =
      if opts.max_mem_range_bytes == 0 then 1073741824 else opts.max_mem_range_bytes;
}

abbrev pub empty_snapshot : HeapSnapshot
empty_snapshot = record {
  header = [];
  params = record {
    big_endian = false;
    ptr_size = 0;
    heap_start = 0;
    heap_end = 0;
    goarch = [];
    build_version = [];
    num_cpu = 0;
  };
  types = [];
  itabs = [];
  objects = [];
  goroutines = [];
  globals = [];
  segments = [];
  bss = [];
  finalizers = [];
  queued_finalizers = [];
  os_threads = [];
  mem_stats = [];
  mem_profiles = [];
  allocation_samples = [];
  stats = record {
    object_count = 0;
    object_bytes = 0;
    object_pointers = 0;
    type_count = 0;
    itab_count = 0;
    goroutine_count = 0;
    stack_frame_count = 0;
    stack_pointers = 0;
    other_root_count = 0;
    data_count = 0;
    data_pointers = 0;
    bss_count = 0;
    bss_pointers = 0;
    global_root_count = 0;
    finalizer_count = 0;
    queued_finalizers = 0;
    os_thread_count = 0;
    defer_count = 0;
    panic_count = 0;
    mem_prof_count = 0;
    alloc_sample_count = 0;
    unknown_records = 0;
    interface_fields_decoded = 0;
    eface_fields_decoded = 0;
  };
  warnings = [];
}

abbrev pub new_parser : List ℕ → Options → Option (List ContentRef) → Parser
new_parser input opts tracker = record {
  reader = record { input = input; limits = limits_of opts; offset = 0 };
  snap = empty_snapshot;
  have_params = false;
  big_endian = false;
  cur_g = none;
  tracker = tracker;
}

-- parseInto, up to the tracker's `finalize`: the parser at the end of the dump.
unfoldable pub parse_into :
    List ℕ → Options → Option (List ContentRef) → Result DumpError (Unit {0} × Parser)
unfolding parse_header parse_records
parse_into input opts tracker =
    (do parse_header; parse_records opts) (new_parser input opts tracker)

-- Parse
unfoldable pub parse : List ℕ → Options → Result DumpError HeapSnapshot
unfolding parse_into
parse input opts = elim (parse_into input opts none) [
  | err e ↦ err e
  | stuck ↦ stuck
  | ok (_, p) ↦ ok p.snap
]
