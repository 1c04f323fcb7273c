-- ===== src/Labels/Tallied.antt =====
-- What the counters of DecodeAll (internal/heaplabels/decode.go) count.
use bubblepprof.Common.{
  ℕ, Bool, true, false, total, total-append, ◌+◌, ◌≡◌, refl, List, [], ◌∷◌, ◌++◌, arith,
  if◌then◌else◌, length,
}
use bubblepprof.Labels.Decode.{
  DecodeStatus, decoded, no_labels, unsupported_runtime, g_object_missing, labels_object_missing,
  label_array_missing, string_missing, malformed,
}
use bubblepprof.Labels.Results.{GoroutineResult, Decoding, Stats, count_status, add_result}

abbrev is_decoded : DecodeStatus → Bool
is_decoded decoded = true
is_decoded _ = false

abbrev is_no_labels : DecodeStatus → Bool
is_no_labels no_labels = true
is_no_labels _ = false

abbrev is_unsupported : DecodeStatus → Bool
is_unsupported unsupported_runtime = true
is_unsupported _ = false

abbrev is_string_missing : DecodeStatus → Bool
is_string_missing string_missing = true
is_string_missing _ = false

-- Every other outcome, a missing string among them, is a failure.
abbrev is_failed : DecodeStatus → Bool
is_failed decoded = false
is_failed no_labels = false
is_failed unsupported_runtime = false
is_failed _ = true

-- The number of the results whose status is of a kind.
abbrev count_of : (DecodeStatus → Bool) → List GoroutineResult → ℕ
count_of is results = total (λ r. if is r.status then 1 else 0) results

-- Each counter is the number of results with its outcome, and `labels_total` that of their labels.
abbrev pub Tallies : Stats → List GoroutineResult → Type 0
Tallies st results =
    (st.goroutines_decoded ≡ count_of is_decoded results)
    × (st.goroutines_no_labels ≡ count_of is_no_labels results)
    × (st.goroutines_unsupported ≡ count_of is_unsupported results)
    × (st.goroutines_failed ≡ count_of is_failed results)
    × (st.strings_missing ≡ count_of is_string_missing results)
    × (st.labels_total ≡ total (λ r. if is_decoded r.status then length r.labels else 0) results)

-- What one result adds to the counters.
pub count_status_adds :
    (st : Stats) (gr : GoroutineResult) (status : DecodeStatus)
    → let st' = count_status st gr status in
      (st'.goroutines_decoded ≡ st.goroutines_decoded + (if is_decoded status then 1 else 0))
      × (st'.goroutines_no_labels
          ≡ st.goroutines_no_labels + (if is_no_labels status then 1 else 0))
      × (st'.goroutines_unsupported
          ≡ st.goroutines_unsupported + (if is_unsupported status then 1 else 0))
      × (st'.goroutines_failed ≡ st.goroutines_failed + (if is_failed status then 1 else 0))
      × (st'.strings_missing ≡ st.strings_missing + (if is_string_missing status then 1 else 0))
      × (st'.labels_total ≡ st.labels_total + (if is_decoded status then length gr.labels else 0))
      × (st'.goroutines_total ≡ st.goroutines_total)
unfolding count_status
count_status_adds st gr decoded = omega arith
count_status_adds st gr no_labels = omega arith
count_status_adds st gr unsupported_runtime = omega arith
count_status_adds st gr string_missing = omega arith
count_status_adds st gr g_object_missing = omega arith
count_status_adds st gr labels_object_missing = omega arith
count_status_adds st gr label_array_missing = omega arith
count_status_adds st gr malformed = omega arith

-- Each result is of one of four kinds.
pub count_of_kinds :
    (results : List GoroutineResult)
    → length results
      ≡ count_of is_decoded results
        + count_of is_no_labels results
        + count_of is_unsupported results
        + count_of is_failed results
count_of_kinds [] = refl
count_of_kinds (r ∷ rest) = omega (arith, count_of_kinds rest, one_kind r.status)
  where
    one_kind :
        (status : DecodeStatus)
        → (if is_decoded status then 1 else 0)
            + (if is_no_labels status then 1 else 0)
            + (if is_unsupported status then 1 else 0)
            + (if is_failed status then 1 else 0)
          ≡ 1
    one_kind decoded = refl
    one_kind no_labels = refl
    one_kind unsupported_runtime = refl
    one_kind string_missing = refl
    one_kind g_object_missing = refl
    one_kind labels_object_missing = refl
    one_kind label_array_missing = refl
    one_kind malformed = refl

total-snoc :
    (f : GoroutineResult → ℕ) (results : List GoroutineResult) (gr : GoroutineResult)
    → total f (results ++ gr ∷ []) ≡ total f results + f gr
total-snoc f results gr = omega (arith, total-append f results (gr ∷ []))

pub add_result-Tallies :
    (d : Decoding) (gr : GoroutineResult)
    → Tallies d.stats d.goroutines
    → Tallies (add_result d gr).stats (add_result d gr).goroutines
unfolding add_result
add_result-Tallies d gr (h1, h2, h3, h4, h5, h6) =
    let (e1, e2, e3, e4, e5, e6, _) = count_status_adds d.stats gr gr.status in
    let grown = λ (is : DecodeStatus → Bool).
      total-snoc (λ r. if is r.status then 1 else 0) d.goroutines gr in
    (
      omega (arith, h1, e1, grown is_decoded),
      omega (arith, h2, e2, grown is_no_labels),
      omega (arith, h3, e3, grown is_unsupported),
      omega (arith, h4, e4, grown is_failed),
      omega (arith, h5, e5, grown is_string_missing),
      omega (
        arith,
        h6,
        e6,
        total-snoc (λ r. if is_decoded r.status then length r.labels else 0) d.goroutines gr,
      ),
    )
