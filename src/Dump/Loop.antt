-- ===== src/Dump/Loop.antt =====
-- The record loop and the header (internal/heapdump/parser.go) are steps of the parser, and the
-- loop has enough fuel.
use bubblepprof.Common.{
  ℕ, zero, suc, ◌+◌, ◌≤◌, ◌<◌, refl, ◌==◌, Bool, true, false, List, Option, some, none, arith,
  length, String, Text, if◌then◌else◌,
}
use bubblepprof.Common.Result.{Result, ok, err, stuck}
use bubblepprof.Dump.Counts.{IsCounted-update}
use bubblepprof.Dump.Errors.{DumpError, unsupported_header, record_at}
use bubblepprof.Dump.Monad.{◌>>◌, pure, on_error}
use bubblepprof.Dump.Moves.{Moves-refl, Takes, uvarint-Takes}
use bubblepprof.Dump.Payloads.{read_line-MovesBy}
use bubblepprof.Dump.Parser.{
  record_parser, keeps_goroutine, leave_goroutine, unknown_tag, tag_error, parse_record,
  parse_records_loop, parse_records, check_header, parse_header, new_parser, parse_into,
}
use bubblepprof.Dump.Reader.{Reader, uvarint}
use bubblepprof.Dump.Records.Memory.{data_segment, bss_segment}
use bubblepprof.Dump.RecordSteps.{
  parse_itab-Runs, parse_os_thread-Runs, parse_finalizer-Runs, parse_queued_finalizer-Runs,
  parse_type-Runs, parse_other_root-Runs, parse_params-Runs, parse_mem_stats-Runs,
  parse_mem_prof-Runs, parse_alloc_sample-Runs,
}
use bubblepprof.Dump.SectionSteps.{
  parse_object-Runs, parse_data_like-Runs, parse_goroutine-Runs, parse_stack_frame-Runs,
  parse_defer-Runs, parse_panic-Runs,
}
use bubblepprof.Dump.Safe.{
  Outcome, Outcome-ok, Outcome-err, Outcome-value, Outcome-not-stuck, Outcome-shift, Safe-if,
}
use bubblepprof.Dump.State.{Options, ContentRef, Parser, P, with_reader, on_reader}
use bubblepprof.Dump.Steps.{
  Step, Step-refl, Step-trans, Runs, Runs-pure, Runs-fail, Runs-bind, Runs-on_error, Runs-on_reader,
  Runs-update, Runs-on_snap, Runs-warn,
}
use bubblepprof.Snapshot.{unknown_record_tag}

module _ (opts : Options) where
  abbrev Chosen : Option (String × P (Unit {0})) → Type 0
  Chosen none = Unit
  Chosen (some (name, m)) = Runs opts m

  choose :
      (b : Bool) (x y : Option (String × P (Unit {0})))
      → Chosen x
      → Chosen y
      → Chosen (if b then x else y)
  choose true x y h k = h
  choose false x y h k = k

  record_parser-Runs : (tag : ℕ) → Chosen (record_parser opts tag)
  unfolding record_parser
  record_parser-Runs tag =
      (choose (tag == 1) _ _ (parse_object-Runs opts) (
        choose (tag == 2) _ _ (parse_other_root-Runs opts) (
          choose (tag == 3) _ _ (parse_type-Runs opts) (
            choose (tag == 4) _ _ (parse_goroutine-Runs opts) (
              choose (tag == 5) _ _ (parse_stack_frame-Runs opts) (
                choose (tag == 6) _ _ (parse_params-Runs opts) (
                  choose (tag == 7) _ _ (parse_finalizer-Runs opts) (
                    choose (tag == 8) _ _ (parse_itab-Runs opts) (
                      choose (tag == 9) _ _ (parse_os_thread-Runs opts) (
                        choose (tag == 10) _ _ (parse_mem_stats-Runs opts) (
                          choose (tag == 11) _ _ (parse_queued_finalizer-Runs opts) (
                            choose (tag == 12) _ _ (parse_data_like-Runs opts data_segment) (
                              choose (tag == 13) _ _ (parse_data_like-Runs opts bss_segment) (
                                choose (tag == 14) _ _ (parse_defer-Runs opts) (
                                  choose (tag == 15) _ _ (parse_panic-Runs opts) (
                                    choose (tag == 16) _ _ (parse_mem_prof-Runs opts) (
                                      choose (tag == 17) _ _ (parse_alloc_sample-Runs opts)
                                        tt)))))))))))))))))

  leave_goroutine-Step : (tag : ℕ) (p : Parser) → Step opts p (leave_goroutine tag p)
  unfolding leave_goroutine
  leave_goroutine-Step tag p = left (keeps_goroutine tag)
    where
      left : (b : Bool) → Step opts p (if b then p else record p { cur_g = none })
      left true = Step-refl opts p
      left false = record {
        moves = Moves-refl p.reader;
        keeps = λ c. record { counts = c.counts; current = tt };
        quiet = λ s. refl;
      }

  unknown_tag-Runs : (tag start : ℕ) → Runs opts (unknown_tag opts tag start)
  unfolding unknown_tag
  unknown_tag-Runs tag start =
      Runs-bind opts _ _
        (Runs-on_snap opts _
          (λ s h.
            IsCounted-update s s
              (record (s.stats) { unknown_records = s.stats.unknown_records + 1 }) h)
          (λ s. omega arith) (λ s. refl))
        (λ _. Runs-warn opts (unknown_record_tag tag start))

  parse_record-Runs : (start tag : ℕ) → Runs opts (parse_record opts start tag)
  unfolding parse_record
  parse_record-Runs start tag =
      Runs-bind opts _ _ (Runs-update opts (leave_goroutine tag) (leave_goroutine-Step tag)) (λ _.
        Safe-if (Step opts) (tag == 0) _ _ (Runs-pure opts false)
          (known (record_parser opts tag) (record_parser-Runs tag)))
    where
      known :
          (o : Option (String × P (Unit {0})))
          → Chosen o
          → Runs opts (elim o [
            | none ↦ unknown_tag opts tag start >> pure false
            | some (name, m) ↦ on_error (record_at name start) m >> pure true
          ])
      known none h = Runs-bind opts _ _ (unknown_tag-Runs tag start) (λ _. Runs-pure opts false)
      known (some (name, m)) h =
          Runs-bind opts _ _ (Runs-on_error opts _ m h) (λ _. Runs-pure opts true)

  -- The loop with more fuel than bytes.
  parse_records_loop-Step :
      (fuel : ℕ) (p : Parser)
      → length p.reader.input < fuel
      → Outcome (Step opts) p (parse_records_loop fuel opts p)
  unfolding parse_records_loop on_reader
  parse_records_loop-Step zero p h = absurd (omega arith)
  parse_records_loop-Step (suc fuel) p h =
      tags (uvarint p.reader) (uvarint-Takes p.reader) (λ q. parse_records_loop-Step fuel q)
    where
      after : Parser → Result DumpError (Bool × Parser) → Result DumpError (Unit {0} × Parser)
      after q r = elim r [
        | err e ↦ err e
        | stuck ↦ stuck
        | ok (false, p2) ↦ ok (tt, p2)
        | ok (true, p2) ↦ parse_records_loop fuel opts p2
      ]

      goes_on :
          (q : Parser) (r : Result DumpError (Bool × Parser))
          → Outcome (Step opts) q r
          → ((u : Parser)
              → length u.reader.input ≤ length q.reader.input
              → Outcome (Step opts) u (parse_records_loop fuel opts u))
          → Outcome (Step opts) q (after q r)
      goes_on q (err e) k go = Outcome-err _ (Step opts) q e
      goes_on q stuck k go = absurd (Outcome-not-stuck _ (Step opts) q k)
      goes_on q (ok (false, u)) k go =
          Outcome-ok (Step opts) q u tt (Outcome-value (Step opts) q u false k)
      goes_on q (ok (true, u)) k go =
          let m = Outcome-value (Step opts) q u true k in
          Outcome-shift (Step opts) (Step opts) q u _ (λ v n. Step-trans opts q u v m n)
            (go u (m.moves).shorter)

      tags :
          (r : Result DumpError (ℕ × Reader))
          → Outcome Takes p.reader r
          → ((q : Parser)
              → length q.reader.input < fuel
              → Outcome (Step opts) q (parse_records_loop fuel opts q))
          → Outcome (Step opts) p (elim (with_reader p r) [
            | err e ↦ err (tag_error p.reader.offset e)
            | stuck ↦ stuck
            | ok (tag, p1) ↦ after p1 (parse_record opts p.reader.offset tag p1)
          ])
      tags (err e) k go = Outcome-err _ (Step opts) p (tag_error p.reader.offset e)
      tags stuck k go = absurd (Outcome-not-stuck _ Takes p.reader k)
      tags (ok (tag, r)) k go =
          let (m, less) = Outcome-value Takes p.reader r tag k in
          let p1 = record p { reader = r } in
          Outcome-shift (Step opts) (Step opts) p p1 _
            (λ v n.
              Step-trans opts p p1 v
                (record {
                  moves = m;
                  keeps = λ c. record { counts = c.counts; current = c.current };
                  quiet = λ s. refl;
                })
                n)
            (goes_on p1 (parse_record opts p.reader.offset tag p1)
              ((parse_record-Runs p.reader.offset tag).at p1)
              (λ u shorter. go u (omega (arith, shorter, less))))

  parse_records-Runs : Runs opts (parse_records opts)
  unfolding parse_records
  parse_records-Runs = record {
    at = λ p. parse_records_loop-Step (length p.reader.input + 1) p (omega arith);
  }

  check_header-Runs : (line : Text) → Runs opts (check_header line)
  unfolding check_header
  check_header-Runs line =
      Safe-if (Step opts) _ _ _
        (Runs-on_snap opts _ (λ s h. IsCounted-update s (record s { header = _ }) s.stats h)
          (λ s. omega arith) (λ s. refl))
        (Runs-fail opts (unsupported_header line))

  parse_header-Runs : Runs opts parse_header
  unfolding parse_header
  parse_header-Runs =
      Runs-bind opts _ _ (Runs-on_error opts _ _ (Runs-on_reader opts _ read_line-MovesBy))
        (λ line. check_header-Runs line)

  pub parse_into-Step :
      (input : List ℕ) (tracker : Option (List ContentRef))
      → Outcome (Step opts) (new_parser input opts tracker) (parse_into input opts tracker)
  unfolding parse_into
  parse_into-Step input tracker =
      (Runs-bind opts _ _ parse_header-Runs (λ _. parse_records-Runs)).at
        (new_parser input opts tracker)
