-- ===== src/Examples/Dump.antt =====
-- The parser (internal/heapdump) on a concrete dump.
use bubblepprof.Common.{
  ℕ, ◌+◌, ◌≡◌, ◌≢◌, refl, true, false, List, [], ◌∷◌, ◌++◌, none, length, text, text_eq,
}
use bubblepprof.Common.Result.{ok, stuck}
use bubblepprof.Dump.Counts.{stack_pointers, counter, counted}
use bubblepprof.Dump.Laws.{parse_ends, parse_counts, parse_strict_quiet, parse_into_offset}
use bubblepprof.Dump.Monad.{update, on_error}
use bubblepprof.Dump.Parser.{limits_of, new_parser, empty_snapshot, parse_into, parse}
use bubblepprof.Dump.Reader.{
  read_line, bytes_with_file_offset, uvarint, string, bytes, bool, field_list,
}
use bubblepprof.Dump.Records.Types.{parse_params, parse_other_root}
use bubblepprof.Dump.Records.Memory.{parse_object}
use bubblepprof.Dump.Records.Goroutines.{parse_goroutine, parse_stack_frame}
use bubblepprof.Dump.State.{
  Options, Parser, on_reader, uvarint_as, bool_as, string_as, bytes_as, bytes_at_as, fields_as,
}
use bubblepprof.Snapshot.{Field, field_kind_ptr, HeapSnapshot}

abbrev zeros : List ℕ
zeros = 0 ∷ 0 ∷ 0 ∷ 0 ∷ 0 ∷ 0 ∷ 0 ∷ []

-- A params record with 8-byte little-endian words; objects of 16, 8 and 8 bytes at 16, 64 and 96,
-- the first points to the second and the second into the first; a goroutine whose frame points into
-- the first; an otherroot record for the second; and the end.
abbrev pub dump : List ℕ
dump =
    text "go1.7 heap dump"
    ++ (10 ∷ 6 ∷ 0 ∷ 8 ∷ 0 ∷ 0 ∷ 0 ∷ 0 ∷ 1 ∷ 1 ∷ 16 ∷ 16 ∷ 64 ∷ zeros
        ++ (0 ∷ zeros
            ++ (1 ∷ 0 ∷ 1 ∷ 8 ∷ 0 ∷ 1 ∷ 64 ∷ 8 ∷ 18 ∷ zeros
                ++ (1 ∷ 0 ∷ 0 ∷ 1 ∷ 96 ∷ 8 ∷ 0 ∷ zeros
                    ++ (0 ∷ 4 ∷ 1 ∷ 2 ∷ 7 ∷ 0 ∷ 4 ∷ 0 ∷ 0 ∷ 0 ∷ 0 ∷ 0 ∷ 0 ∷ 0 ∷ 0 ∷ 5 ∷ 100 ∷ 0 ∷ 0
                          ∷ 8 ∷ 24 ∷ zeros
                        ++ (0 ∷ 0 ∷ 0 ∷ 0 ∷ 1 ∷ 0 ∷ 0 ∷ 2 ∷ 0 ∷ 64 ∷ 0 ∷ []))))))

abbrev pub strict_options : Options
strict_options = record {
  keep_object_contents = false;
  keep_pointer_offsets = true;
  max_string_bytes = 0;
  max_mem_range_bytes = 0;
  strict = true;
}

abbrev pointer_at : ℕ → Field
pointer_at offset = record { kind = field_kind_ptr; offset = offset }

-- What the dump holds.
abbrev pub snapshot : HeapSnapshot
snapshot = record empty_snapshot {
  header = text "go1.7 heap dump";
  params = record {
    big_endian = false;
    ptr_size = 8;
    heap_start = 0;
    heap_end = 0;
    goarch = [];
    build_version = [];
    num_cpu = 1;
  };
  objects =
      record {
        addr = 16;
        size = 16;
        contents = [];
        fields = pointer_at 0 ∷ pointer_at 8 ∷ [];
        pointer_addrs = 64 ∷ [];
        pointer_offsets = 0 ∷ [];
      }
      ∷ record {
        addr = 64;
        size = 8;
        contents = [];
        fields = pointer_at 0 ∷ [];
        pointer_addrs = 18 ∷ [];
        pointer_offsets = 0 ∷ [];
      }
      ∷ record {
        addr = 96;
        size = 8;
        contents = [];
        fields = [];
        pointer_addrs = [];
        pointer_offsets = [];
      }
      ∷ [];
  goroutines =
      record {
        addr = 1;
        stack_top = 2;
        id = 7;
        go_pc = 0;
        status = 4;
        is_system = false;
        is_background = false;
        wait_since = 0;
        wait_reason = [];
        context = 0;
        m = 0;
        defer = 0;
        panic = 0;
        frames =
            record {
              sp = 100;
              depth = 0;
              child_sp = 0;
              entry_pc = 0;
              current_pc = 0;
              continue_pc = 0;
              func_name = [];
              size = 8;
              fields = pointer_at 0 ∷ [];
              pointer_addrs = 24 ∷ [];
              pointer_slots = 100 ∷ [];
            }
            ∷ [];
      }
      ∷ [];
  globals = record { kind = text "otherroot"; description = []; addr = 0; pointer_addr = 64 } ∷ [];
  stats = record (empty_snapshot.stats) {
    object_count = 3;
    object_bytes = 32;
    object_pointers = 2;
    goroutine_count = 1;
    stack_frame_count = 1;
    stack_pointers = 1;
    other_root_count = 1;
    global_root_count = 1;
  };
}

abbrev pub parser : Parser
parser = record (new_parser dump strict_options none) {
  reader = record { input = []; limits = limits_of strict_options; offset = length dump };
  snap = snapshot;
  have_params = true;
}

parsed_into : parse_into dump strict_options none ≡ ok (tt, parser)
unfolding parse_into on_error on_reader read_line text_eq update uvarint parse_params bool_as bool
    uvarint_as string_as string parse_object bytes_at_as bytes_with_file_offset fields_as field_list
    parse_goroutine parse_stack_frame bytes_as bytes parse_other_root
parsed_into = refl

parsed : parse dump strict_options ≡ ok snapshot
unfolding parse on_error on_reader read_line text_eq update uvarint parse_params bool_as bool
    uvarint_as string_as string parse_object bytes_at_as bytes_with_file_offset fields_as field_list
    parse_goroutine parse_stack_frame bytes_as bytes parse_other_root
parsed = refl

parse_ends_example : parse dump strict_options ≢ stuck
parse_ends_example = parse_ends dump strict_options

parse_counts_example : counter stack_pointers snapshot.stats ≡ counted stack_pointers snapshot
parse_counts_example = parse_counts dump strict_options snapshot stack_pointers parsed

parse_strict_quiet_example : snapshot.warnings ≡ []
parse_strict_quiet_example = parse_strict_quiet dump strict_options snapshot refl parsed

parse_into_offset_example :
    (parser.reader.offset + length parser.reader.input ≡ length dump)
    × (parser.reader.limits ≡ limits_of strict_options)
parse_into_offset_example = parse_into_offset dump strict_options none tt parser parsed_into
