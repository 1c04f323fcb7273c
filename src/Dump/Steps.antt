-- ===== src/Dump/Steps.antt =====
-- What every action of the parser (internal/heapdump/parser.go) does to it: the reader moves
-- forward, the counters stay in step, and in strict mode no warning is added.
use bubblepprof.Common.{
  ℕ, ◌+◌, ◌∙◌, ◌≤◌, ◌≡◌, refl, inl, inr, Bool-cases, Bool, true, false, List, [], ◌∷◌, ◌++◌, Option,
  some, none, arith, length, String,
}
use bubblepprof.Common.Result.{Result, ok, err, stuck}
use bubblepprof.Dump.Counts.{IsCounted, IsCounted-update, HasCurrent}
use bubblepprof.Dump.Errors.{DumpError, strict_warning}
use bubblepprof.Dump.Monad.{M, ◌>>=◌, pure, fail, on_error, update}
use bubblepprof.Dump.Moves.{Moves, Moves-refl, Moves-trans, MovesBy, uvarint-MovesBy, bool-MovesBy}
use bubblepprof.Dump.Payloads.{
  bytes-MovesBy, string-MovesBy, bytes_with_file_offset-MovesBy, field_list-MovesBy,
}
use bubblepprof.Dump.Pointers.{extract_pointers}
use bubblepprof.Dump.Reader.{Reader}
use bubblepprof.Dump.Safe.{
  Outcome, Outcome-ok, Outcome-err, Outcome-eq, Safe, Safe-pure, Safe-fail, Safe-bind, Safe-update,
  Safe-on_error,
}
use bubblepprof.Dump.State.{
  Options, Parser, P, with_reader, on_reader, uvarint_as, bool_as, string_as, bytes_as, bytes_at_as,
  fields_as, on_snap, warn, warn_all, decode_pointers,
}
use bubblepprof.Snapshot.{Field, HeapSnapshot, ParseWarning}

pub record IsConsistent (p : Parser) : Type 0 where
  pub counts : IsCounted p.snap
  pub current : HasCurrent p.cur_g p.snap

pub record Step (opts : Options) (p q : Parser) : Type 0 where
  pub moves : Moves p.reader q.reader
  pub keeps : IsConsistent p → IsConsistent q
  pub quiet : opts.strict ≡ true → q.snap.warnings ≡ p.snap.warnings

pub HasCurrent-mono :
    (c : Option ℕ) (s t : HeapSnapshot)
    → length s.goroutines ≤ length t.goroutines
    → HasCurrent c s
    → HasCurrent c t
HasCurrent-mono none s t h k = tt
HasCurrent-mono (some i) s t h k = omega (arith, h, k)

module _ (opts : Options) where
  pub Step-refl : (p : Parser) → Step opts p p
  Step-refl p = record { moves = Moves-refl p.reader; keeps = λ h. h; quiet = λ h. refl }

  pub Step-trans : (p q r : Parser) → Step opts p q → Step opts q r → Step opts p r
  Step-trans p q r h k = record {
    moves = Moves-trans p.reader q.reader r.reader h.moves k.moves;
    keeps = λ c. k.keeps (h.keeps c);
    quiet = λ s. k.quiet s ∙ h.quiet s;
  }

  abbrev pub Runs : {A : Type 0} → P A → Type 0
  Runs m = Safe (Step opts) m

  pub Runs-pure : {A : Type 0} (a : A) → Runs (pure a)
  Runs-pure a = Safe-pure (Step opts) Step-refl Step-trans a

  pub Runs-fail : {A : Type 0} (e : DumpError) → Runs (fail {A = A} e)
  Runs-fail e = Safe-fail (Step opts) Step-refl Step-trans e

  pub Runs-bind :
      {A B : Type 0} (m : P A) (f : A → P B) → Runs m → ((a : A) → Runs (f a)) → Runs (m >>= f)
  Runs-bind m f h k = Safe-bind (Step opts) Step-refl Step-trans m f h k

  pub Runs-on_error :
      {A : Type 0} (f : DumpError → DumpError) (m : P A) → Runs m → Runs (on_error f m)
  Runs-on_error f m h = Safe-on_error (Step opts) Step-refl Step-trans f m h

  -- A read changes the reader only.
  pub Runs-on_reader : {A : Type 0} (m : M Reader A) → MovesBy m → Runs (on_reader m)
  unfolding on_reader Outcome
  Runs-on_reader m h = record { at = λ p. lifted p (m p.reader) (h.at p.reader) }
    where
      lifted :
          {A : Type 0} (p : Parser) (r : Result DumpError (A × Reader))
          → Outcome Moves p.reader r
          → Outcome (Step opts) p (with_reader p r)
      lifted p (ok (a, r)) h = record {
        moves = h;
        keeps = λ c. record { counts = c.counts; current = c.current };
        quiet = λ s. refl;
      }
      lifted p (err e) h = tt
      lifted p stuck h = h

  pub Runs-uvarint_as : (name : String) → Runs (uvarint_as name)
  unfolding uvarint_as
  Runs-uvarint_as name = Runs-on_error _ _ (Runs-on_reader _ uvarint-MovesBy)

  pub Runs-bool_as : (name : String) → Runs (bool_as name)
  unfolding bool_as
  Runs-bool_as name = Runs-on_error _ _ (Runs-on_reader _ bool-MovesBy)

  pub Runs-string_as : (name : String) → Runs (string_as name)
  unfolding string_as
  Runs-string_as name = Runs-on_error _ _ (Runs-on_reader _ string-MovesBy)

  pub Runs-bytes_as : (name : String) → Runs (bytes_as name)
  unfolding bytes_as
  Runs-bytes_as name = Runs-on_error _ _ (Runs-on_reader _ bytes-MovesBy)

  pub Runs-bytes_at_as : (name : String) → Runs (bytes_at_as name)
  unfolding bytes_at_as
  Runs-bytes_at_as name = Runs-on_error _ _ (Runs-on_reader _ bytes_with_file_offset-MovesBy)

  pub Runs-fields_as : (name : String) → Runs (fields_as name)
  unfolding fields_as
  Runs-fields_as name = Runs-on_error _ _ (Runs-on_reader _ field_list-MovesBy)

  -- A change of the snapshot that keeps the counters in step and adds no warning.
  pub on_snap-Step :
      (f : HeapSnapshot → HeapSnapshot)
      → ((s : HeapSnapshot) → IsCounted s → IsCounted (f s))
      → ((s : HeapSnapshot) → length s.goroutines ≤ length (f s).goroutines)
      → ((s : HeapSnapshot) → (f s).warnings ≡ s.warnings)
      → (p : Parser) → Step opts p (on_snap f p)
  on_snap-Step f counts grows quiet p = record {
    moves = Moves-refl p.reader;
    keeps = λ c. record {
      counts = counts p.snap c.counts;
      current = HasCurrent-mono p.cur_g p.snap (f p.snap) (grows p.snap) c.current;
    };
    quiet = λ s. quiet p.snap;
  }

  pub Runs-update : (f : Parser → Parser) → ((p : Parser) → Step opts p (f p)) → Runs (update f)
  Runs-update f h = Safe-update (Step opts) Step-refl Step-trans f h

  pub Runs-on_snap :
      (f : HeapSnapshot → HeapSnapshot)
      → ((s : HeapSnapshot) → IsCounted s → IsCounted (f s))
      → ((s : HeapSnapshot) → length s.goroutines ≤ length (f s).goroutines)
      → ((s : HeapSnapshot) → (f s).warnings ≡ s.warnings)
      → Runs (update (on_snap f))
  Runs-on_snap f counts grows quiet = Runs-update (on_snap f) (on_snap-Step f counts grows quiet)

  warn-Step :
      (w : ParseWarning) (p : Parser)
      → opts.strict ≡ false
      → Step opts p (on_snap (λ s. record s { warnings = s.warnings ++ w ∷ [] }) p)
  warn-Step w p lax = record {
    moves = Moves-refl p.reader;
    keeps = λ c. record {
      counts =
          let t = record (p.snap) { warnings = p.snap.warnings ++ w ∷ [] } in
          IsCounted-update p.snap t t.stats c.counts;
      current =
          HasCurrent-mono p.cur_g p.snap (record (p.snap) { warnings = p.snap.warnings ++ w ∷ [] })
            (omega arith) c.current;
    };
    quiet = λ s. cc;
  }

  pub Runs-warn : (w : ParseWarning) → Runs (warn opts w)
  unfolding warn
  Runs-warn w = record {
    at = λ p. elim (Bool-cases opts.strict) [
      | inl e ↦
          Outcome-eq (Step opts) p _ _ (ground arith)
            (Outcome-err _ (Step opts) p (strict_warning w))
      | inr e ↦
          Outcome-eq (Step opts) p _ _ (ground arith)
            (Outcome-ok (Step opts) p _ tt (warn-Step w p e))
    ];
  }

  pub Runs-warn_all : (ws : List ParseWarning) → Runs (warn_all opts ws)
  unfolding warn_all
  Runs-warn_all [] = Runs-pure tt
  Runs-warn_all (w ∷ ws) = Runs-bind _ _ (Runs-warn w) (λ _. Runs-warn_all ws)

  pub Runs-decode_pointers :
      (contents : List ℕ) (fields : List Field) (container : ℕ) (with_slots : Bool)
      → Runs (decode_pointers opts contents fields container with_slots)
  unfolding decode_pointers
  Runs-decode_pointers contents fields container with_slots = record {
    at = λ p.
        let x =
          extract_pointers contents fields p.snap.params.ptr_size p.big_endian container
            with_slots in
        (Runs-bind _ _ (Runs-warn_all x.warnings) (λ _.
            Runs-bind _ _
              (Runs-on_snap _
                (λ s h.
                  let t = record (s.stats) {
                    interface_fields_decoded = s.stats.interface_fields_decoded + x.iface;
                    eface_fields_decoded = s.stats.eface_fields_decoded + x.eface;
                  } in
                  IsCounted-update s s t h)
                (λ s. omega arith) (λ s. refl))
              (λ _. Runs-pure x))).at
          p;
  }
