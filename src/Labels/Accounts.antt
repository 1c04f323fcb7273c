-- ===== src/Labels/Accounts.antt =====
-- What DecodeAll (internal/heaplabels/decode.go) reports of the goroutines.
use bubblepprof.Common.{
  ℕ, length-map, ◌+◌, ◌≡◌, refl, sym, ap, ◌∙◌, List, [], ◌∷◌, ◌++◌, Option, some, none, arith, ltb,
  ◌==◌, if◌then◌else◌, length, lookup, lookup-assign, map,
}
use mathlib.Core.List.{append_assoc, append-nil}
use bubblepprof.Snapshot.{Goroutine, HeapSnapshot}
use bubblepprof.Space.{Reader}
use bubblepprof.Usage.Request.{Labels}
use bubblepprof.Labels.Layout.{Layout}
use bubblepprof.Labels.Memory.{read_memory}
use bubblepprof.Labels.Decode.{
  DecodeStatus, decoded, no_labels, unsupported_runtime, g_object_missing, labels_object_missing,
  label_array_missing, string_missing, malformed, Options, normalize_options,
}
use bubblepprof.Labels.Tallied.{Tallies, count_status_adds, count_of_kinds, add_result-Tallies}
use bubblepprof.Labels.Results.{
  GoroutineResult, Decoding, keep_labels, add_result, decode_goroutine, decode_each, no_decoding,
  no_stats, body_reader, memory_for, decode_all,
}

-- The labels of a result, if it decoded some.
abbrev found_labels : DecodeStatus → Labels → Option Labels
found_labels decoded labels = if ltb 0 (length labels) then some labels else none
found_labels _ labels = none

abbrev otherwise : Option Labels → Option Labels → Option Labels
otherwise none d = d
otherwise (some ls) d = some ls

abbrev labels_for : ℕ → GoroutineResult → Option Labels
labels_for gid gr = if gr.gid == gid then found_labels gr.status gr.labels else none

-- The labels of the last result with the id that decoded some.
abbrev pub last_labels : ℕ → List GoroutineResult → Option Labels
last_labels gid [] = none
last_labels gid (gr ∷ rest) = otherwise (last_labels gid rest) (labels_for gid gr)

keep_labels-lookup :
    (gid : ℕ) (by_gid : List (ℕ × Labels)) (gr : GoroutineResult) (status : DecodeStatus)
    → lookup gid (keep_labels by_gid gr status)
      ≡ otherwise
          (if gr.gid == gid then found_labels status gr.labels else none)
          (lookup gid by_gid)
unfolding keep_labels
keep_labels-lookup gid by_gid gr decoded = ground (arith, lookup-assign gr.gid gid gr.labels by_gid)
keep_labels-lookup gid by_gid gr no_labels = ground arith
keep_labels-lookup gid by_gid gr unsupported_runtime = ground arith
keep_labels-lookup gid by_gid gr string_missing = ground arith
keep_labels-lookup gid by_gid gr g_object_missing = ground arith
keep_labels-lookup gid by_gid gr labels_object_missing = ground arith
keep_labels-lookup gid by_gid gr label_array_missing = ground arith
keep_labels-lookup gid by_gid gr malformed = ground arith

otherwise-none : (a : Option Labels) → otherwise a none ≡ a
otherwise-none none = refl
otherwise-none (some ls) = refl

otherwise_assoc :
    (a b c : Option Labels) → otherwise a (otherwise b c) ≡ otherwise (otherwise a b) c
otherwise_assoc none b c = refl
otherwise_assoc (some ls) b c = refl

module _ (structural body : Reader) (layout : Layout) (opts : Options) where
  abbrev pub result_of : Goroutine → GoroutineResult
  result_of g = decode_goroutine structural body layout opts g

  decode_each-goroutines :
      (d : Decoding) (gs : List Goroutine)
      → (decode_each structural body layout opts d gs).goroutines ≡ d.goroutines ++ map result_of gs
  unfolding decode_each add_result
  decode_each-goroutines d [] = sym (append-nil d.goroutines)
  decode_each-goroutines d (g ∷ gs) =
      decode_each-goroutines (add_result d (result_of g)) gs
      ∙ append_assoc d.goroutines (result_of g ∷ []) (map result_of gs)

  decode_each-lookup :
      (gid : ℕ) (d : Decoding) (gs : List Goroutine)
      → lookup gid (decode_each structural body layout opts d gs).labels_by_gid
        ≡ otherwise (last_labels gid (map result_of gs)) (lookup gid d.labels_by_gid)
  unfolding decode_each add_result
  decode_each-lookup gid d [] = refl
  decode_each-lookup gid d (g ∷ gs) =
      decode_each-lookup gid (add_result d (result_of g)) gs
      ∙ ap (otherwise (last_labels gid (map result_of gs)))
          (keep_labels-lookup gid d.labels_by_gid (result_of g) (result_of g).status)
      ∙ otherwise_assoc (last_labels gid (map result_of gs)) (labels_for gid (result_of g))
          (lookup gid d.labels_by_gid)

  decode_each-Tallies :
      (d : Decoding) (gs : List Goroutine)
      → Tallies d.stats d.goroutines
      → Tallies
          (decode_each structural body layout opts d gs).stats
          (decode_each structural body layout opts d gs).goroutines
  unfolding decode_each
  decode_each-Tallies d [] h = h
  decode_each-Tallies d (g ∷ gs) h =
      decode_each-Tallies (add_result d (result_of g)) gs (add_result-Tallies d (result_of g) h)

  decode_each-goroutines_total :
      (d : Decoding) (gs : List Goroutine)
      → (decode_each structural body layout opts d gs).stats.goroutines_total
        ≡ d.stats.goroutines_total
  unfolding decode_each add_result
  decode_each-goroutines_total d [] = refl
  decode_each-goroutines_total d (g ∷ gs) =
      let (_, _, _, _, _, _, t) = count_status_adds d.stats (result_of g) (result_of g).status in
      decode_each-goroutines_total (add_result d (result_of g)) gs ∙ t

-- Decoding a snapshot gives one result for each goroutine, in order; each counter of the statistics
-- is the number of results with its outcome: decoded, without labels, unsupported, failed, and of
-- the failed those with a missing string; the labels counted are those of the decoded results; the
-- first four counters sum up to the number of goroutines; and a goroutine id has the labels of the
-- last result with that id that decoded some.
pub decode_all_accounts :
    (snap : HeapSnapshot) (layout : Layout) (opts : Options)
    → let mem = memory_for snap opts.heap_memory in
      let d = decode_all (some snap) layout opts in
      (d.goroutines
        ≡ map
            (decode_goroutine
              (read_memory mem)
              (body_reader mem opts.extra_string_memory)
              layout
              (normalize_options opts))
            snap.goroutines)
      × (d.stats.goroutines_total ≡ length snap.goroutines)
      × Tallies d.stats d.goroutines
      × (d.stats.goroutines_total
          ≡ d.stats.goroutines_decoded + d.stats.goroutines_no_labels
            + d.stats.goroutines_unsupported + d.stats.goroutines_failed)
      × ((gid : ℕ) → lookup gid d.labels_by_gid ≡ last_labels gid d.goroutines)
unfolding decode_all lookup
decode_all_accounts snap layout opts =
    let structural = read_memory (memory_for snap opts.heap_memory) in
    let body = body_reader (memory_for snap opts.heap_memory) opts.extra_string_memory in
    let normal = normalize_options opts in
    let start : Decoding = record no_decoding {
      stats = record no_stats { goroutines_total = length snap.goroutines };
    } in
    let results = decode_each-goroutines structural body layout normal start snap.goroutines in
    let counts =
      decode_each-Tallies structural body layout normal start snap.goroutines
        (refl, refl, refl, refl, refl, refl) in
    let t = decode_each-goroutines_total structural body layout normal start snap.goroutines in
    let d = decode_each structural body layout normal start snap.goroutines in
    let several : length d.goroutines ≡ length snap.goroutines =
      ap length results ∙ length-map (result_of structural body layout normal) snap.goroutines in
    (
      results,
      t,
      counts,
      omega (arith, t, counts, count_of_kinds d.goroutines, several),
      λ gid.
          decode_each-lookup structural body layout normal gid start snap.goroutines
          ∙ otherwise-none
              (last_labels gid (map (result_of structural body layout normal) snap.goroutines))
          ∙ ap (last_labels gid) (sym results),
    )
