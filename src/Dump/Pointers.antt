-- ===== src/Dump/Pointers.antt =====
-- internal/heapdump/pointers.go: the pointers of a memory range, read by its field list.
use bubblepprof.Common.{
  ℕ, ◌+◌, ◌-◌, ◌*◌, Bool, List, [], ◌∷◌, ◌++◌, Option, some, none, ltb, ◌==◌, ◌||◌, if◌then◌else◌,
  length, take, drop, max_uint64,
}
use bubblepprof.Snapshot.{
  Field, ParseWarning, field_kind_ptr, field_kind_iface, field_kind_eface, unsupported_ptr_size,
  slot_overflow, pointer_out_of_bounds, data_word_overflow, data_word_out_of_bounds,
  unknown_field_kind,
}
use mathlib.Core.List.{reverse}

-- binary.ByteOrder: Uint32 and Uint64 of the slice.
unfoldable pub little_endian : List ℕ → ℕ
little_endian [] = 0
little_endian (b ∷ bs) = b + 256 * little_endian bs

unfoldable pub decode_word : Bool → List ℕ → ℕ
unfolding little_endian
decode_word big_endian slot =
    if big_endian then little_endian (reverse slot) else little_endian slot

unfoldable pub read_pointer : List ℕ → ℕ → ℕ → Bool → Option ℕ
unfolding decode_word
read_pointer contents offset ptr_size big_endian =
    if ltb (length contents) offset
    then none
    else if ltb (length contents - offset) ptr_size
    then none
    else if ptr_size == 4 || ptr_size == 8
    then some (decode_word big_endian (take ptr_size (drop offset contents)))
    else none

-- What extractPointers appends and counts. A warning that is passed to `warn` is kept here in
-- order; the caller reports them.
pub record Extraction : Type 0 where
  pub targets : List ℕ
  pub slots : List ℕ
  pub iface : ℕ
  pub eface : ℕ
  pub warnings : List ParseWarning

abbrev pub no_extraction : Extraction
no_extraction = record { targets = []; slots = []; iface = 0; eface = 0; warnings = [] }

abbrev pub add_warning : Extraction → ParseWarning → Extraction
add_warning x w = record x { warnings = x.warnings ++ w ∷ [] }

-- The closure `record`. Without a slot list there is no overflow check.
unfoldable pub record_pointer : Bool → ℕ → Extraction → ℕ → ℕ → Extraction
record_pointer with_slots container x ptr offset =
    if with_slots
    then if ltb (max_uint64 - container) offset then add_warning x slot_overflow else record x {
      targets = x.targets ++ ptr ∷ [];
      slots = x.slots ++ (container + offset) ∷ [];
    }
    else record x { targets = x.targets ++ ptr ∷ [] }

module _ (contents : List ℕ) (ptr_size : ℕ) (big_endian with_slots : Bool) (container : ℕ) where
  -- A word that was read: zero is skipped, and a read out of bounds is a warning.
  unfoldable pub take_word : Extraction → Option ℕ → ℕ → ParseWarning → Extraction
  unfolding record_pointer
  take_word x none offset w = add_warning x w
  take_word x (some ptr) offset w =
      if ptr == 0 then x else record_pointer with_slots container x ptr offset

  unfoldable pub extract_ptr : Extraction → Field → Extraction
  unfolding take_word read_pointer
  extract_ptr x f =
      take_word x (read_pointer contents f.offset ptr_size big_endian) f.offset
        (pointer_out_of_bounds f.offset (length contents))

  unfoldable pub extract_iface : Extraction → Field → Extraction
  unfolding take_word read_pointer
  extract_iface x f =
      let x =
        if f.kind == field_kind_iface
        then record x { iface = x.iface + 1 }
        else record x { eface = x.eface + 1 } in
      if ltb (max_uint64 - ptr_size) f.offset
      then add_warning x data_word_overflow
      else take_word x (read_pointer contents (f.offset + ptr_size) ptr_size big_endian)
          (f.offset + ptr_size) (data_word_out_of_bounds (f.offset + ptr_size) (length contents))

  -- One round of the loop over the fields.
  unfoldable pub extract_field : Extraction → Field → Extraction
  unfolding extract_ptr extract_iface
  extract_field x f =
      if f.kind == field_kind_ptr
      then extract_ptr x f
      else if f.kind == field_kind_iface || f.kind == field_kind_eface
      then extract_iface x f
      else add_warning x (unknown_field_kind f.kind f.offset)

  unfoldable pub extract_fields : Extraction → List Field → Extraction
  unfolding extract_field
  extract_fields x [] = x
  extract_fields x (f ∷ rest) = extract_fields (extract_field x f) rest

-- extractPointers. The targets are always collected; `with_slots` is `slots != nil`.
unfoldable pub extract_pointers : List ℕ → List Field → ℕ → Bool → ℕ → Bool → Extraction
unfolding extract_fields
extract_pointers contents fields ptr_size big_endian container with_slots =
    if ptr_size == 4 || ptr_size == 8
    then extract_fields contents ptr_size big_endian with_slots container no_extraction fields
    else add_warning no_extraction (unsupported_ptr_size ptr_size)
