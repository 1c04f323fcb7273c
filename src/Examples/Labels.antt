-- ===== src/Examples/Labels.antt =====
-- The label decoder (internal/heaplabels) on a small memory: a goroutine with the label job=a.
use bubblepprof.Common.{
  ℕ, zero, suc, ◌+◌, ◌-◌, ◌≤◌, ◌≡◌, refl, false, inr, List, [], ◌∷◌, ◌++◌, some, none, length,
  arith, text, text_eq, get_elem?, take, drop, All, map, lookup, value_at, sort_by, insert_by,
  IsKeyed,
}
use bubblepprof.Common.Result.{ok}
use bubblepprof.Examples.Dump.{snapshot}
use bubblepprof.Graph.Search.{search}
use bubblepprof.Snapshot.{HeapSnapshot, Object}
use bubblepprof.Space.{Reader, IsReader, checked_add, read_uintptr}
use bubblepprof.Space.Composite.{read_composite, read_composite-IsReader}
use bubblepprof.Usage.Request.{Labels}
use bubblepprof.Labels.Layout.{
  Layout, LookupInput, table, manual, with_little_endian_defaults, manual_description,
  lookup_layout, manual_layout,
}
use bubblepprof.Labels.Memory.{object_ranges, range_precedes, last_range, new_memory, read_memory}
use bubblepprof.Labels.Ranges.{IsMapped, read_memory_sound, new_memory-IsReader}
use bubblepprof.Labels.Supported.{lookup_layout-manual_layout}
use bubblepprof.Labels.Decode.{Options, normalize_options, decode_label_map}
use bubblepprof.Labels.Decoded.{HoldsString, HoldsLabels, decode_label_map-HoldsLabels}
use bubblepprof.Labels.Results.{decode_goroutine, decode_all, body_reader, memory_for}
use bubblepprof.Labels.Accounts.{last_labels, decode_all_accounts}
use bubblepprof.Labels.Tallied.{Tallies}

-- A word of 8 bytes below 2 ^ 16.
abbrev word : ℕ → ℕ → List ℕ
word lo hi = lo ∷ hi ∷ 0 ∷ 0 ∷ 0 ∷ 0 ∷ 0 ∷ 0 ∷ []

abbrev object : ℕ → List ℕ → Object
object addr bytes = record {
  addr = addr;
  size = length bytes;
  contents = bytes;
  fields = [];
  pointer_addrs = [];
  pointer_offsets = [];
}

-- The label map, its array, and the two texts.
abbrev objects : List Object
objects =
    object 0x400 (text "job")
    ∷ object 0x200 (word 0 3 ++ word 1 0 ++ word 1 0)
    ∷ object 0x300 (word 0 4 ++ word 3 0 ++ word 0x10 4 ++ word 1 0)
    ∷ object 0x410 (text "a")
    ∷ []

abbrev job : Labels
job = (text "job", text "a") ∷ []

abbrev layout : Layout
layout = with_little_endian_defaults manual [] [] 8 manual_description 8

-- The limit on labels is left at its default.
abbrev limits : Options
limits = record {
  max_labels = 0;
  max_string_len = 16;
  extra_string_memory = none;
  heap_memory = none;
}

abbrev memory : Reader
memory = read_memory (new_memory objects)

objects-IsMapped : All IsMapped objects
objects-IsMapped = omega arith

new_memory-IsReader_example : IsReader memory
new_memory-IsReader_example = new_memory-IsReader objects objects-IsMapped

read_composite-IsReader_example : IsReader (read_composite (memory ∷ memory ∷ []))
read_composite-IsReader_example = read_composite-IsReader (memory ∷ memory ∷ []) (
  new_memory-IsReader objects objects-IsMapped,
  (new_memory-IsReader objects objects-IsMapped, tt),
)

reads_key : memory 0x401 2 ≡ some (text "ob")
unfolding read_memory new_memory range_precedes object_ranges last_range search checked_add sort_by
    insert_by
reads_key = refl

read_memory_sound_example :
    (i : ℕ) × (o : Object) × (get_elem? objects i ≡ some o)
    × (o.addr ≤ 0x401)
    × (0x401 + 2 ≤ o.addr + length o.contents)
    × (text "ob" ≡ take 2 (drop (0x401 - o.addr) o.contents))
read_memory_sound_example =
    read_memory_sound objects 0x401 2 (text "ob") objects-IsMapped (omega arith) (omega arith)
      (omega arith) reads_key

key_held : HoldsString memory memory layout limits 0x300 (text "job")
unfolding read_memory new_memory range_precedes object_ranges last_range search checked_add sort_by
    insert_by read_uintptr with_little_endian_defaults normalize_options
key_held = record {
  pointer = 0x400;
  pointer_fits = omega arith;
  size_fits = omega arith;
  pointer_word = refl;
  size_word = refl;
  short = omega arith;
  bytes = inr (λ e. omega (arith, e), refl);
}

value_held : HoldsString memory memory layout limits 0x310 (text "a")
unfolding read_memory new_memory range_precedes object_ranges last_range search checked_add sort_by
    insert_by read_uintptr with_little_endian_defaults normalize_options
value_held = record {
  pointer = 0x410;
  pointer_fits = omega arith;
  size_fits = omega arith;
  pointer_word = refl;
  size_word = refl;
  short = omega arith;
  bytes = inr (λ e. omega (arith, e), refl);
}

job_held : HoldsLabels memory memory layout limits 0x200 job
unfolding read_memory new_memory range_precedes object_ranges last_range search checked_add sort_by
    insert_by read_uintptr with_little_endian_defaults normalize_options
job_held = record {
  pointer = 0x300;
  capacity = 1;
  pointer_fits = omega arith;
  size_fits = omega arith;
  capacity_fits = omega arith;
  pointer_word = refl;
  size_word = refl;
  capacity_word = refl;
  within = omega arith;
  few = omega arith;
  array = inr (
    λ e. omega (arith, e),
    omega arith,
    (word 0 4 ++ word 3 0 ++ word 0x10 4 ++ word 1 0, refl),
    (omega arith, (omega arith, omega arith, key_held, value_held), tt),
  );
}

job-IsKeyed : IsKeyed job
unfolding value_at
job-IsKeyed = (refl, tt)

decode_label_map-HoldsLabels_example : decode_label_map memory memory layout limits 0x200 ≡ ok job
unfolding with_little_endian_defaults
decode_label_map-HoldsLabels_example =
    decode_label_map-HoldsLabels memory memory layout limits 0x200 job (omega arith) job_held
      job-IsKeyed

-- A body reader that gives as many zero bytes as it is asked for.
zeros : ℕ → List ℕ
zeros zero = []
zeros (suc n) = 0 ∷ zeros n

abbrev blank : Reader
blank addr size = some (zeros size)

abbrev blank_label : Labels
blank_label = (zeros 3, zeros 1) ∷ []

abbrev dump : HeapSnapshot
dump = record snapshot { objects = objects }

decode_all_accounts_example :
    let mem = memory_for dump none in
    let d = decode_all (some dump) layout limits in
    (d.goroutines
      ≡ map
          (decode_goroutine
            (read_memory mem)
            (body_reader mem none)
            layout
            (normalize_options limits))
          dump.goroutines)
    × (d.stats.goroutines_total ≡ length dump.goroutines)
    × Tallies d.stats d.goroutines
    × (d.stats.goroutines_total
        ≡ d.stats.goroutines_decoded + d.stats.goroutines_no_labels + d.stats.goroutines_unsupported
          + d.stats.goroutines_failed)
    × ((gid : ℕ) → lookup gid d.labels_by_gid ≡ last_labels gid d.goroutines)
decode_all_accounts_example = decode_all_accounts dump layout limits

abbrev current : LookupInput
current = record {
  go_version = text "go1.26.3";
  goarch = text "amd64";
  ptr_size = 8;
  big_endian = false;
}

abbrev known_layout : Layout
known_layout =
    with_little_endian_defaults table (text "go1.26.3") (text "amd64") 0x160
      (text
        "verified go1.26.* 64-bit LE (linux, darwin, windows, freebsd) runtime.g.labels offset 0x160")
      8

looked_up : lookup_layout current ≡ some known_layout
unfolding lookup_layout with_little_endian_defaults text_eq
looked_up = refl

lookup_layout-manual_layout_example :
    manual_layout current 0x160
    ≡ ok (record known_layout { source = manual; description = manual_description })
unfolding with_little_endian_defaults
lookup_layout-manual_layout_example = lookup_layout-manual_layout current known_layout looked_up
