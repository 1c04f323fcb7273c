-- ===== src/Dump/SectionSteps.antt =====
-- The record parsers of objects, segments and the goroutine section (internal/heapdump/parser.go)
-- are steps of the parser too.
use bubblepprof.Common.{
  ℕ, ◌+◌, ◌-◌, ◌≡◌, refl, sym, inl, inr, Option-cases, Bool, true, false, List, [], ◌∷◌, some,
  arith, length, String, if◌then◌else◌, ltb, max_uint64,
}
use mathlib.Core.Path.{subst}
use bubblepprof.Common.Result.{ok}
use bubblepprof.Dump.Counted.{
  append_object-IsCounted, add_globals-IsCounted, append_segment-IsCounted,
  append_goroutine-IsCounted, append_goroutine-HasCurrent, append_frame-IsCounted,
  append_frame-HasCurrent,
}
use bubblepprof.Dump.Counts.{IsCounted-update, HasCurrent}
use bubblepprof.Dump.Errors.{address_overflow}
use bubblepprof.Dump.Monad.{update}
use bubblepprof.Dump.Moves.{Moves-refl}
use bubblepprof.Dump.Pointers.{Extraction, no_extraction}
use bubblepprof.Dump.Records.Memory.{
  track, append_object, object_pointers, finish_object, parse_object, SegmentKind, data_segment,
  bss_segment, add_globals, append_segment, segment_pointers, parse_data_like,
}
use bubblepprof.Dump.Records.Goroutines.{
  append_goroutine, parse_goroutine, append_frame, attach_frame, frame_pointers, parse_stack_frame,
  skip_fields, parse_defer, parse_panic,
}
use bubblepprof.Dump.RecordSteps.{uvarint_then, bool_then, string_then}
use bubblepprof.Dump.Safe.{Outcome-ok, Outcome-if, Outcome-eq, Safe-if}
use bubblepprof.Dump.State.{Options, ContentRef, Parser, on_snap, warn}
use bubblepprof.Dump.Steps.{
  Step, Step-refl, Step-trans, Runs, Runs-pure, Runs-fail, Runs-bind, Runs-bytes_as,
  Runs-bytes_at_as, Runs-fields_as, Runs-update, on_snap-Step, Runs-on_snap, Runs-warn,
  Runs-decode_pointers,
}
use bubblepprof.Snapshot
use bubblepprof.Snapshot.{Field, HeapSnapshot, object_before_params, frame_without_goroutine}

module _ (opts : Options) where
  object_pointers-Runs :
      (contents : List ℕ) (fields : List Field) → Runs opts (object_pointers opts contents fields)
  unfolding object_pointers
  object_pointers-Runs contents fields = record {
    at = λ p.
        Outcome-if (Step opts) p p.have_params _ _
          ((Runs-decode_pointers opts contents fields 0 opts.keep_pointer_offsets).at p)
          ((Runs-bind opts _ _ (Runs-warn opts object_before_params)
              (λ _. Runs-pure opts no_extraction)).at
            p);
  }

  track-Step :
      (b : Bool) (ref : ContentRef) (p : Parser) → Step opts p (if b then track ref p else p)
  unfolding track
  track-Step true ref p = record {
    moves = Moves-refl p.reader;
    keeps = λ c. record { counts = c.counts; current = c.current };
    quiet = λ s. refl;
  }
  track-Step false ref p = Step-refl opts p

  append_object-Step :
      (o : Snapshot.Object) (p : Parser) → Step opts p (on_snap (append_object o) p)
  unfolding append_object
  append_object-Step o p =
      on_snap-Step opts (append_object o) (append_object-IsCounted o) (λ s. omega arith) (λ s. refl)
        p

  finish_object-Runs :
      (addr : ℕ) (contents : List ℕ) (file_off : ℕ) (fields : List Field) (x : Extraction)
      → Runs opts (finish_object opts addr contents file_off fields x)
  unfolding finish_object
  finish_object-Runs addr contents file_off fields x = Runs-update opts _ (λ p.
      Step-trans opts p _ _
        (track-Step (ltb 0 (length contents))
          (record { addr = addr; file_off = file_off; length = length contents }) p)
        (append_object-Step _ _))

  pub parse_object-Runs : Runs opts (parse_object opts)
  unfolding parse_object
  parse_object-Runs = uvarint_then opts _ _ (λ addr.
      Runs-bind opts _ _ (Runs-bytes_at_as opts _) (λ (contents, file_off).
        Runs-bind opts _ _ (Runs-fields_as opts _) (λ fields.
          Runs-bind opts _ _
            (Safe-if (Step opts) (ltb (max_uint64 - addr) (length contents)) _ _
              (Runs-fail opts address_overflow) (Runs-pure opts tt))
            (λ _.
              Runs-bind opts _ _ (object_pointers-Runs contents fields)
                (λ x. finish_object-Runs addr contents file_off fields x)))))

  segment_pointers-Runs :
      (kind : SegmentKind) (addr : ℕ) (contents : List ℕ) (fields : List Field)
      → Runs opts (segment_pointers opts kind addr contents fields)
  unfolding segment_pointers add_globals
  segment_pointers-Runs kind addr contents fields = record {
    at = λ p.
        Outcome-if (Step opts) p p.have_params _ _
          ((Runs-bind opts _ _ (Runs-decode_pointers opts contents fields addr true) (λ x.
              Runs-bind opts _ _
                (Runs-on_snap opts _ (add_globals-IsCounted kind x) (λ s. omega arith) (λ s. refl))
                (λ _. Runs-pure opts x))).at
            p)
          (Outcome-ok (Step opts) p p no_extraction (Step-refl opts p));
  }

  append_segment-Runs :
      (kind : SegmentKind) (seg : Snapshot.DataSegment)
      → Runs opts (update (on_snap (append_segment kind seg)))
  unfolding append_segment
  append_segment-Runs data_segment seg =
      Runs-on_snap opts _ (append_segment-IsCounted data_segment seg) (λ s. omega arith) (λ s. refl)
  append_segment-Runs bss_segment seg =
      Runs-on_snap opts _ (append_segment-IsCounted bss_segment seg) (λ s. omega arith) (λ s. refl)

  pub parse_data_like-Runs : (kind : SegmentKind) → Runs opts (parse_data_like opts kind)
  unfolding parse_data_like
  parse_data_like-Runs kind = uvarint_then opts _ _ (λ addr.
      Runs-bind opts _ _ (Runs-bytes_as opts _) (λ contents.
        Runs-bind opts _ _ (Runs-fields_as opts _) (λ fields.
          Runs-bind opts _ _ (segment_pointers-Runs kind addr contents fields)
            (λ x. append_segment-Runs kind _))))

  append_goroutine-Step :
      (g : Snapshot.Goroutine) → g.frames ≡ [] → (p : Parser) → Step opts p (append_goroutine g p)
  unfolding append_goroutine
  append_goroutine-Step g none_yet p = record {
    moves = Moves-refl p.reader;
    keeps = λ c. record {
      counts = append_goroutine-IsCounted g p none_yet c.counts;
      current = append_goroutine-HasCurrent g p;
    };
    quiet = λ s. refl;
  }

  pub parse_goroutine-Runs : Runs opts parse_goroutine
  unfolding parse_goroutine
  parse_goroutine-Runs = uvarint_then opts _ _ (λ _. uvarint_then opts _ _ (λ _.
      uvarint_then opts _ _ (λ _. uvarint_then opts _ _ (λ _. uvarint_then opts _ _ (λ _.
        bool_then opts _ _ (λ _. bool_then opts _ _ (λ _. uvarint_then opts _ _ (λ _.
          string_then opts _ _ (λ _. uvarint_then opts _ _ (λ _. uvarint_then opts _ _ (λ _.
            uvarint_then opts _ _ (λ _.
              uvarint_then opts _ _
                (λ _. Runs-update opts _ (λ p. append_goroutine-Step _ refl p))))))))))))))

  append_frame-Step :
      (i : ℕ) (f : Snapshot.StackFrame) (p : Parser)
      → p.cur_g ≡ some i
      → Step opts p (on_snap (append_frame i f) p)
  unfolding append_frame
  append_frame-Step i f p e = record {
    moves = Moves-refl p.reader;
    keeps = λ c.
        let lt = subst (λ o. HasCurrent o p.snap) e c.current in
        record {
          counts = append_frame-IsCounted i f p.snap lt c.counts;
          current =
              subst (λ o. HasCurrent o (append_frame i f p.snap)) (sym e)
                (append_frame-HasCurrent i f p.snap lt);
        };
    quiet = λ s. refl;
  }

  attach_frame-Runs : (f : Snapshot.StackFrame) → Runs opts (attach_frame opts f)
  unfolding attach_frame
  attach_frame-Runs f = record {
    at = λ p. elim (Option-cases p.cur_g) [
      | inl e ↦
          Outcome-eq (Step opts) p _ (warn opts (frame_without_goroutine f.func_name f.sp) p)
            (ground arith) ((Runs-warn opts (frame_without_goroutine f.func_name f.sp)).at p)
      | inr (i, e) ↦
          Outcome-eq (Step opts) p _ (ok (tt, on_snap (append_frame i f) p)) (ground arith)
            (Outcome-ok (Step opts) p _ tt (append_frame-Step i f p e))
    ];
  }

  frame_pointers-Runs :
      (sp : ℕ) (contents : List ℕ) (fields : List Field)
      → Runs opts (frame_pointers opts sp contents fields)
  unfolding frame_pointers
  frame_pointers-Runs sp contents fields = record {
    at = λ p.
        Outcome-if (Step opts) p p.have_params _ _
          ((Runs-decode_pointers opts contents fields sp true).at p)
          (Outcome-ok (Step opts) p p no_extraction (Step-refl opts p));
  }

  pub parse_stack_frame-Runs : Runs opts (parse_stack_frame opts)
  unfolding parse_stack_frame
  parse_stack_frame-Runs = uvarint_then opts _ _ (λ sp. uvarint_then opts _ _ (λ _.
      uvarint_then opts _ _ (λ _. Runs-bind opts _ _ (Runs-bytes_as opts _) (λ contents.
        uvarint_then opts _ _ (λ _. uvarint_then opts _ _ (λ _. uvarint_then opts _ _ (λ _.
          string_then opts _ _ (λ _. Runs-bind opts _ _ (Runs-fields_as opts _) (λ fields.
            Runs-bind opts _ _ (frame_pointers-Runs sp contents fields)
              (λ x. attach_frame-Runs _))))))))))

  skip_fields-Runs : (names : List String) → Runs opts (skip_fields names)
  unfolding skip_fields
  skip_fields-Runs [] = Runs-pure opts tt
  skip_fields-Runs (name ∷ rest) = uvarint_then opts _ _ (λ _. skip_fields-Runs rest)

  pub parse_defer-Runs : Runs opts parse_defer
  unfolding parse_defer
  parse_defer-Runs =
      Runs-bind opts _ _
        (skip_fields-Runs ("d" ∷ "gp" ∷ "sp" ∷ "pc" ∷ "fn" ∷ "fn_pc" ∷ "link" ∷ []))
        (λ _.
          Runs-on_snap opts _
            (λ s h.
              IsCounted-update s s (record (s.stats) { defer_count = s.stats.defer_count + 1 }) h)
            (λ s. omega arith) (λ s. refl))

  pub parse_panic-Runs : Runs opts parse_panic
  unfolding parse_panic
  parse_panic-Runs =
      Runs-bind opts _ _
        (skip_fields-Runs ("p" ∷ "gp" ∷ "arg_type" ∷ "arg_data" ∷ "reserved" ∷ "link" ∷ []))
        (λ _.
          Runs-on_snap opts _
            (λ s h.
              IsCounted-update s s (record (s.stats) { panic_count = s.stats.panic_count + 1 }) h)
            (λ s. omega arith) (λ s. refl))
