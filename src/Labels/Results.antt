-- ===== src/Labels/Results.antt =====
-- internal/heaplabels/decode.go: the results for the goroutines of a snapshot.
use bubblepprof.Common.{
  ℕ, ◌+◌, Bool, true, false, List, [], ◌∷◌, ◌++◌, Option, some, none, not, ltb, ◌==◌, ◌&&◌,
  if◌then◌else◌, length, assign,
}
use bubblepprof.Common.Result.{Result, ok, err, stuck}
use bubblepprof.Snapshot.{Goroutine, HeapSnapshot}
use bubblepprof.Space.{Reader, checked_add}
use bubblepprof.Space.Composite.{read_composite}
use bubblepprof.Usage.Request.{Labels}
use bubblepprof.Labels.Layout.{Layout}
use bubblepprof.Labels.Memory.{Memory, new_memory, read_memory}
use bubblepprof.Labels.Decode.{
  DecodeStatus, decoded, no_labels, unsupported_runtime, g_object_missing, string_missing,
  malformed, Options, normalize_options, word_at, decode_label_map,
}

-- GoroutineResult; the text of an error is left out.
pub record GoroutineResult : Type 0 where
  pub gid : ℕ
  pub g_addr : ℕ
  pub labels_ptr : ℕ
  pub labels : Labels
  pub status : DecodeStatus

-- The status of an error, or `decoded` with the labels. No step of the decoder is stuck.
abbrev pub with_outcome : GoroutineResult → Result DecodeStatus Labels → GoroutineResult
with_outcome gr (ok labels) = record gr { status = decoded; labels = labels }
with_outcome gr (err status) = record gr { status = status }
with_outcome gr stuck = record gr { status = malformed }

-- DecodeLabelsForGoroutine
unfoldable pub decode_goroutine : Reader → Reader → Layout → Options → Goroutine → GoroutineResult
unfolding normalize_options decode_label_map
decode_goroutine structural body layout opts g =
    let gr : GoroutineResult = record {
      gid = g.id;
      g_addr = g.addr;
      labels_ptr = 0;
      labels = [];
      status = malformed;
    } in
    if not (layout.ptr_size == 4) && not (layout.ptr_size == 8)
    then record gr { status = unsupported_runtime }
    else elim (checked_add g.addr layout.g_labels_offset) [
      | none ↦ record gr { status = malformed }
      | some field_addr ↦ elim (word_at structural body layout opts field_addr) [
        | none ↦ record gr { status = g_object_missing }
        | some pointer ↦
            if pointer == 0
            then record gr { status = no_labels }
            else with_outcome (record gr { labels_ptr = pointer })
                (decode_label_map structural body layout (normalize_options opts) pointer)
      ]
    ]

pub record Stats : Type 0 where
  pub goroutines_total : ℕ
  pub goroutines_decoded : ℕ
  pub goroutines_no_labels : ℕ
  pub goroutines_unsupported : ℕ
  pub goroutines_failed : ℕ
  pub labels_total : ℕ
  pub strings_missing : ℕ

-- Result, and whether DecodeAll warned of a nil snapshot.
pub record Decoding : Type 0 where
  pub labels_by_gid : List (ℕ × Labels)
  pub goroutines : List GoroutineResult
  pub stats : Stats
  pub nil_snapshot : Bool

-- The cases of the switch of DecodeAll.
unfoldable pub count_status : Stats → GoroutineResult → DecodeStatus → Stats
count_status st gr decoded = record st {
  goroutines_decoded = st.goroutines_decoded + 1;
  labels_total = st.labels_total + length gr.labels;
}
count_status st gr no_labels = record st { goroutines_no_labels = st.goroutines_no_labels + 1 }
count_status st gr unsupported_runtime = record st {
  goroutines_unsupported = st.goroutines_unsupported + 1;
}
count_status st gr string_missing = record st {
  goroutines_failed = st.goroutines_failed + 1;
  strings_missing = st.strings_missing + 1;
}
count_status st gr _ = record st { goroutines_failed = st.goroutines_failed + 1 }

-- `res.LabelsByGID[gr.GID] = copyLabels(gr.Labels)`, for a decoded result with labels.
unfoldable pub keep_labels : List (ℕ × Labels) → GoroutineResult → DecodeStatus → List (ℕ × Labels)
unfolding assign
keep_labels by_gid gr decoded =
    if ltb 0 (length gr.labels) then assign gr.gid gr.labels by_gid else by_gid
keep_labels by_gid gr _ = by_gid

unfoldable pub add_result : Decoding → GoroutineResult → Decoding
unfolding count_status keep_labels
add_result d gr = record d {
  goroutines = d.goroutines ++ gr ∷ [];
  stats = count_status d.stats gr gr.status;
  labels_by_gid = keep_labels d.labels_by_gid gr gr.status;
}

module _ (structural body : Reader) (layout : Layout) (opts : Options) where
  unfoldable pub decode_each : Decoding → List Goroutine → Decoding
  unfolding decode_goroutine add_result
  decode_each d [] = d
  decode_each d (g ∷ gs) =
      decode_each (add_result d (decode_goroutine structural body layout opts g)) gs

-- composeStringBodyReader
unfoldable pub body_reader : Memory → Option Reader → Reader
unfolding read_composite read_memory
body_reader mem none = read_memory mem
body_reader mem (some extra) = read_composite (read_memory mem ∷ extra ∷ [])

abbrev pub no_stats : Stats
no_stats = record {
  goroutines_total = 0;
  goroutines_decoded = 0;
  goroutines_no_labels = 0;
  goroutines_unsupported = 0;
  goroutines_failed = 0;
  labels_total = 0;
  strings_missing = 0;
}

abbrev pub no_decoding : Decoding
no_decoding = record { labels_by_gid = []; goroutines = []; stats = no_stats; nil_snapshot = false }

-- The memory that DecodeAll reads.
abbrev pub memory_for : HeapSnapshot → Option Memory → Memory
memory_for snap none = new_memory snap.objects
memory_for snap (some mem) = mem

-- DecodeAll
unfoldable pub decode_all : Option HeapSnapshot → Layout → Options → Decoding
unfolding decode_each normalize_options body_reader new_memory
decode_all none layout opts = record no_decoding { nil_snapshot = true }
decode_all (some snap) layout opts =
    let mem = memory_for snap opts.heap_memory in
    decode_each (read_memory mem) (body_reader mem opts.extra_string_memory) layout
      (normalize_options opts)
      (record no_decoding { stats = record no_stats { goroutines_total = length snap.goroutines } })
      snap.goroutines

-- UnsupportedResult, without its message.
unfoldable pub unsupported_each : Decoding → List Goroutine → Decoding
unsupported_each d [] = d
unsupported_each d (g ∷ gs) =
    unsupported_each
      (record d {
        goroutines =
            d.goroutines
            ++ record {
              gid = g.id;
              g_addr = g.addr;
              labels_ptr = 0;
              labels = [];
              status = unsupported_runtime;
            }
              ∷ [];
        stats = record d.stats { goroutines_unsupported = d.stats.goroutines_unsupported + 1 };
      })
      gs

unfoldable pub unsupported_result : Option HeapSnapshot → Decoding
unfolding unsupported_each
unsupported_result none = no_decoding
unsupported_result (some snap) =
    unsupported_each
      (record no_decoding { stats = record no_stats { goroutines_total = length snap.goroutines } })
      snap.goroutines
