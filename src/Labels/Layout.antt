-- ===== src/Labels/Layout.antt =====
-- internal/runtimelayout: the offsets of the runtime's structs, and internal/heaplabels/layout.go.
use bubblepprof.Common.{
  ℕ, ◌*◌, Bool, false, List, [], ◌∷◌, Option, some, none, not, ltb, ◌==◌, ◌&&◌, if◌then◌else◌,
  length, take, Text, text, text_eq,
}
use bubblepprof.Common.Result.{Result, ok, err}

pub data Source : Type 0 where
  table manual : Source

-- Layout
pub record Layout : Type 0 where
  pub source : Source
  pub go_version : Text
  pub goarch : Text
  pub ptr_size : ℕ
  pub big_endian : Bool
  pub g_labels_offset : ℕ
  pub label_map_set_offset : ℕ
  pub set_list_offset : ℕ
  pub slice_data_offset : ℕ
  pub slice_len_offset : ℕ
  pub slice_cap_offset : ℕ
  pub string_data_offset : ℕ
  pub string_len_offset : ℕ
  pub label_size : ℕ
  pub label_key_offset : ℕ
  pub label_value_offset : ℕ
  pub description : Text

pub record LookupInput : Type 0 where
  pub go_version : Text
  pub goarch : Text
  pub ptr_size : ℕ
  pub big_endian : Bool

-- withLittleEndianDefaults on a layout literal that sets the source, the labels
-- offset and the description only.
unfoldable pub with_little_endian_defaults : Source → Text → Text → ℕ → Text → ℕ → Layout
with_little_endian_defaults source go_version goarch g_labels_offset description ptr = record {
  source = source;
  go_version = go_version;
  goarch = goarch;
  ptr_size = ptr;
  big_endian = false;
  g_labels_offset = g_labels_offset;
  label_map_set_offset = 0;
  set_list_offset = 0;
  slice_data_offset = 0;
  slice_len_offset = ptr;
  slice_cap_offset = 2 * ptr;
  string_data_offset = 0;
  string_len_offset = ptr;
  label_size = 4 * ptr;
  label_key_offset = 0;
  label_value_offset = 2 * ptr;
  description = description;
}

pub data ManualError : Type 0 where
  unsupported_pointer_size big_endian_target : ManualError

abbrev pub manual_description : Text
manual_description = text "manual runtime.g.labels offset"

-- Manual
unfoldable pub manual_layout : LookupInput → ℕ → Result ManualError Layout
unfolding with_little_endian_defaults
manual_layout input g_labels_offset =
    if not (input.ptr_size == 4) && not (input.ptr_size == 8)
    then err unsupported_pointer_size
    else if input.big_endian
    then err big_endian_target
    else ok (
        with_little_endian_defaults manual input.go_version input.goarch g_labels_offset
          manual_description input.ptr_size)

-- TableEntry; every entry is little-endian, and its layout is made by the defaults for its width.
pub record TableEntry : Type 0 where
  pub version_prefix : Text
  pub ptr_size : ℕ
  pub big_endian : Bool
  pub g_labels_offset : ℕ
  pub description : Text

abbrev little_entry : Text → ℕ → ℕ → Text → TableEntry
little_entry prefix ptr offset description = record {
  version_prefix = prefix;
  ptr_size = ptr;
  big_endian = false;
  g_labels_offset = offset;
  description = description;
}

-- verifiedTable
abbrev pub verified_table : List TableEntry
verified_table =
    little_entry (text "go1.27") 8 0x160
      (text "go1.27 64-bit LE runtime.g.labels offset 0x160 (tested on linux/amd64 with go1.27rc2)")
    ∷ little_entry (text "go1.27") 4 0xd8
        (text "go1.27 32-bit LE runtime.g.labels offset 0xd8 (tested on linux/386 with go1.27rc2)")
    ∷ little_entry (text "go1.26.") 8 0x160 (
        text
          "verified go1.26.* 64-bit LE (linux, darwin, windows, freebsd) runtime.g.labels offset 0x160")
    ∷ little_entry (text "go1.26.") 4 0xd8
        (text "verified go1.26.* 32-bit LE (arm, 386, freebsd/386) runtime.g.labels offset 0xd8")
    ∷ little_entry (text "go1.25.") 8 0x158 (
        text
          "verified go1.25.* 64-bit LE (linux, darwin, windows, freebsd) runtime.g.labels offset 0x158")
    ∷ little_entry (text "go1.25.") 4 0xd0
        (text "verified go1.25.* 32-bit LE (arm, 386, freebsd/386) runtime.g.labels offset 0xd0")
    ∷ little_entry (text "go1.24.") 8 0x160 (
        text
          "verified go1.24.* 64-bit LE (linux, darwin, windows, freebsd) runtime.g.labels offset 0x160")
    ∷ little_entry (text "go1.24.") 4 0xd4
        (text "verified go1.24.* 32-bit LE (arm, 386, freebsd/386) runtime.g.labels offset 0xd4")
    ∷ little_entry (text "go1.28-devel") 8 0x160 (
        text
          "verified go1.28-devel 64-bit LE (linux/amd64) runtime.g.labels offset 0x160 (verified on commit e203fe5746)")
    ∷ little_entry (text "go1.28-devel") 4 0xd4 (
        text
          "verified go1.28-devel 32-bit LE (linux/386) runtime.g.labels offset 0xd4 (verified on commit e203fe5746)")
    ∷ []

-- hasVersionPrefix
unfoldable pub has_version_prefix : Text → Text → Bool
has_version_prefix version prefix =
    if ltb (length version) (length prefix)
    then false
    else text_eq (take (length prefix) version) prefix

-- The tests of the loop of Lookup.
unfoldable pub entry_matches : LookupInput → TableEntry → Bool
unfolding has_version_prefix
entry_matches input e =
    e.ptr_size == input.ptr_size
    && ((if e.big_endian then input.big_endian else not input.big_endian)
        && has_version_prefix input.go_version e.version_prefix)

unfoldable pub lookup_entry : LookupInput → List TableEntry → Option TableEntry
unfolding entry_matches
lookup_entry input [] = none
lookup_entry input (e ∷ es) = if entry_matches input e then some e else lookup_entry input es

-- Lookup
unfoldable pub lookup_layout : LookupInput → Option Layout
unfolding lookup_entry with_little_endian_defaults
lookup_layout input =
    if length input.go_version == 0 then none else elim (lookup_entry input verified_table) [
      | none ↦ none
      | some e ↦ some (
          with_little_endian_defaults table input.go_version input.goarch e.g_labels_offset
            e.description e.ptr_size)
    ]
