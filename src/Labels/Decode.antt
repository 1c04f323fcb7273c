-- ===== src/Labels/Decode.antt =====
-- internal/heaplabels/decode.go: from the bytes of runtime.g to a label map.
use bubblepprof.Common.{
  ℕ, zero, suc, ◌+◌, ◌*◌, ◌%◌, [], Option, some, none, ltb, ◌==◌, if◌then◌else◌, update_at, u64_mod,
  Text,
}
use bubblepprof.Common.Result.{Result, ok, err, ◌>>=◌, ◌>>◌, fail_if}
use bubblepprof.Space.{Reader, checked_add, checked_mul, read_string, read_uintptr}
use bubblepprof.Usage.Request.{Labels}
use bubblepprof.Labels.Layout.{Layout}
use bubblepprof.Labels.Memory.{Memory}

-- DecodeStatus
pub data DecodeStatus : Type 0 where
  decoded no_labels unsupported_runtime g_object_missing labels_object_missing : DecodeStatus
  label_array_missing string_missing malformed : DecodeStatus

-- Options; a nil reader or memory is `none`.
pub record Options : Type 0 where
  pub max_labels : ℕ
  pub max_string_len : ℕ
  pub extra_string_memory : Option Reader
  pub heap_memory : Option Memory

abbrev pub default_max_labels : ℕ
default_max_labels = 1024

abbrev pub default_max_string_len : ℕ
default_max_string_len = 1048576

-- normalizeOptions
unfoldable pub normalize_options : Options → Options
normalize_options o = record o {
  max_labels = if o.max_labels == 0 then default_max_labels else o.max_labels;
  max_string_len = if o.max_string_len == 0 then default_max_string_len else o.max_string_len;
}

-- `if !ok { return decodeError{status, ...} }`. An error is its status; its text is left out.
abbrev pub need {ℓ} : {A : Type ℓ} → DecodeStatus → Option A → Result DecodeStatus A
need status none = err status
need status (some a) = ok a

-- `opts = normalizeOptions(opts)`, with which DecodeString and DecodeLabelMap begin, stands where
-- they read the two limits.
module _ (structural body : Reader) (layout : Layout) (opts : Options) where
  -- ReadUintptr with the layout's width and byte order.
  abbrev pub word_at : ℕ → Option ℕ
  word_at addr = read_uintptr structural addr layout.ptr_size layout.big_endian

  -- The part of DecodeString behind the header.
  unfoldable pub string_body : ℕ → ℕ → Result DecodeStatus Text
  unfolding normalize_options
  string_body pointer size =
      if ltb (normalize_options opts).max_string_len size
      then err malformed
      else if size == 0
      then ok []
      else if pointer == 0
      then err string_missing
      else need string_missing
          (read_string body pointer size (normalize_options opts).max_string_len)

  -- DecodeString
  unfoldable pub decode_string : ℕ → Result DecodeStatus Text
  unfolding string_body
  decode_string header = do
    data_addr ← need malformed (checked_add header layout.string_data_offset)
    len_addr ← need malformed (checked_add header layout.string_len_offset)
    pointer ← need string_missing (word_at data_addr)
    size ← need string_missing (word_at len_addr)
    string_body pointer size

  -- The key and the value of the label at an address.
  unfoldable pub decode_label : ℕ → Result DecodeStatus (Text × Text)
  unfolding decode_string
  decode_label label_addr = do
    key_addr ← need malformed (checked_add label_addr layout.label_key_offset)
    value_addr ← need malformed (checked_add label_addr layout.label_value_offset)
    key ← decode_string key_addr
    value ← decode_string value_addr
    ok (key, value)

  -- The loop of DecodeLabelMap: `n` labels are left, from index `i` on.
  unfoldable pub decode_labels : ℕ → ℕ → ℕ → Labels → Result DecodeStatus Labels
  unfolding decode_label
  decode_labels zero pointer i labels = ok labels
  decode_labels (suc n) pointer i labels = do
    label_addr ← need malformed (checked_add pointer ((i * layout.label_size) % u64_mod))
    (key, value) ← decode_label label_addr
    decode_labels n pointer (i + 1) (update_at value (λ _. value) key labels)

  -- The slice header of the label list: its data pointer and length.
  unfoldable pub decode_slice : ℕ → Result DecodeStatus (ℕ × ℕ)
  unfolding normalize_options
  decode_slice header = do
    data_addr ← need malformed (checked_add header layout.slice_data_offset)
    len_addr ← need malformed (checked_add header layout.slice_len_offset)
    cap_addr ← need malformed (checked_add header layout.slice_cap_offset)
    pointer ← need labels_object_missing (word_at data_addr)
    size ← need labels_object_missing (word_at len_addr)
    capacity ← need labels_object_missing (word_at cap_addr)
    fail_if (ltb capacity size) malformed
    fail_if (ltb (normalize_options opts).max_labels size) malformed
    ok (pointer, size)

  -- The labels behind a slice header of positive length.
  unfoldable pub decode_array : ℕ → ℕ → Result DecodeStatus Labels
  unfolding decode_labels
  decode_array pointer size = do
    fail_if (pointer == 0) label_array_missing
    array_bytes ← need malformed (checked_mul size layout.label_size)
    _ ← need label_array_missing (structural pointer array_bytes)
    decode_labels size pointer 0 []

  -- DecodeLabelMap
  unfoldable pub decode_label_map : ℕ → Result DecodeStatus Labels
  unfolding decode_slice decode_array
  decode_label_map addr = do
    set_addr ← need malformed (checked_add addr layout.label_map_set_offset)
    header ← need malformed (checked_add set_addr layout.set_list_offset)
    (pointer, size) ← decode_slice header
    if size == 0 then ok [] else decode_array pointer size
