-- ===== src/Dump/Records/Memory.antt =====
-- The records of parser.go that hold memory: heap objects, and the data and bss segments.
use bubblepprof.Common.{
  ℕ, ◌+◌, ◌-◌, true, List, [], ◌∷◌, ◌++◌, some, none, ltb, if◌then◌else◌, length, get_or, text,
  max_uint64, add_u64,
}
use bubblepprof.Common.Result.{ok}
use bubblepprof.Dump.Errors.{address_overflow}
use bubblepprof.Dump.Monad.{◌>>=◌, ◌>>◌, pure, fail, update}
use bubblepprof.Dump.Pointers.{Extraction, no_extraction}
use bubblepprof.Dump.State.{
  Options, ContentRef, Parser, P, uvarint_as, bytes_as, bytes_at_as, fields_as, on_snap, on_stats,
  warn, decode_pointers,
}
use bubblepprof.Snapshot
use bubblepprof.Snapshot.{HeapSnapshot, object_before_params}

-- (*ContentResolver).record
unfoldable pub track : ContentRef → Parser → Parser
track ref p = record p {
  tracker = elim p.tracker [ none ↦ none | some refs ↦ some (refs ++ ref ∷ []) ];
}

unfoldable pub append_object : Snapshot.Object → HeapSnapshot → HeapSnapshot
append_object o s =
    on_stats
      (λ t. record t {
        object_count = t.object_count + 1;
        object_bytes = add_u64 t.object_bytes o.size;
        object_pointers = t.object_pointers + length o.pointer_addrs;
      })
      (record s { objects = s.objects ++ o ∷ [] })

-- The pointers of an object. Before params there are none, and that is a warning.
unfoldable pub object_pointers : Options → List ℕ → List Snapshot.Field → P Extraction
unfolding warn decode_pointers
object_pointers opts contents fields p =
    if p.have_params
    then decode_pointers opts contents fields 0 opts.keep_pointer_offsets p
    else (do warn opts object_before_params; pure no_extraction) p

unfoldable pub finish_object :
    Options → ℕ → List ℕ → ℕ → List Snapshot.Field → Extraction → P (Unit {0})
unfolding track append_object
finish_object opts addr contents file_off fields x = update (λ p.
    let o : Snapshot.Object = record {
      addr = addr;
      size = length contents;
      contents = if opts.keep_object_contents then contents else [];
      fields = fields;
      pointer_addrs = x.targets;
      pointer_offsets = x.slots;
    } in
    on_snap (append_object o) (
      if ltb 0 (length contents)
      then track (record { addr = addr; file_off = file_off; length = length contents }) p
      else p))

unfoldable pub parse_object : Options → P (Unit {0})
unfolding object_pointers finish_object
parse_object opts = do
  addr ← uvarint_as "object addr"
  (contents, file_off) ← bytes_at_as "object contents"
  fields ← fields_as "object fields"
  (if ltb (max_uint64 - addr) (length contents) then fail address_overflow else pure tt)
  x ← object_pointers opts contents fields
  finish_object opts addr contents file_off fields x

-- `data` and `bss` records differ in the list and the counters that they add to.
pub data SegmentKind : Type 0 where
  data_segment bss_segment : SegmentKind

abbrev pub kind_text : SegmentKind → List ℕ
kind_text data_segment = text "data"
kind_text bss_segment = text "bss"

-- One root for each pointer, at its slot.
unfoldable pub segment_globals : List ℕ → List ℕ → ℕ → List ℕ → List Snapshot.Root
segment_globals kind slots i [] = []
segment_globals kind slots i (target ∷ rest) =
    record { kind = kind; description = []; addr = get_or slots i 0; pointer_addr = target }
    ∷ segment_globals kind slots (i + 1) rest

unfoldable pub add_globals : SegmentKind → Extraction → HeapSnapshot → HeapSnapshot
unfolding segment_globals
add_globals kind x s =
    on_stats
      (λ t. record t {
        global_root_count = t.global_root_count + length x.targets;
        data_pointers = elim kind [
          | data_segment ↦ t.data_pointers + length x.targets
          | bss_segment ↦ t.data_pointers
        ];
        bss_pointers = elim kind [
          | data_segment ↦ t.bss_pointers
          | bss_segment ↦ t.bss_pointers + length x.targets
        ];
      })
      (record s { globals = s.globals ++ segment_globals (kind_text kind) x.slots 0 x.targets })

unfoldable pub append_segment : SegmentKind → Snapshot.DataSegment → HeapSnapshot → HeapSnapshot
append_segment data_segment seg s =
    on_stats (λ t. record t { data_count = t.data_count + 1 })
      (record s { segments = s.segments ++ seg ∷ [] })
append_segment bss_segment seg s =
    on_stats (λ t. record t { bss_count = t.bss_count + 1 }) (record s { bss = s.bss ++ seg ∷ [] })

-- The pointers of a segment and their roots, once params are known.
unfoldable pub segment_pointers :
    Options → SegmentKind → ℕ → List ℕ → List Snapshot.Field → P Extraction
unfolding decode_pointers add_globals
segment_pointers opts kind addr contents fields p =
    if p.have_params
    then (do
      x ← decode_pointers opts contents fields addr true
      update (on_snap (add_globals kind x))
      pure x)
        p
    else ok (no_extraction, p)

unfoldable pub parse_data_like : Options → SegmentKind → P (Unit {0})
unfolding segment_pointers append_segment
parse_data_like opts kind = do
  addr ← uvarint_as "addr"
  contents ← bytes_as "contents"
  fields ← fields_as "fields"
  x ← segment_pointers opts kind addr contents fields
  update (
      on_snap (
        append_segment kind (record {
          kind = kind_text kind;
          addr = addr;
          size = length contents;
          fields = fields;
          pointer_addrs = x.targets;
          pointer_slots = x.slots;
        })))
