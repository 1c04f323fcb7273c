-- ===== src/Dump/Laws.antt =====
-- What a parse guarantees (internal/heapdump/parser.go).
use bubblepprof.Common.{ℕ, ◌+◌, ◌≡◌, ◌≢◌, refl, true, List, [], Option, none, arith, length}
use bubblepprof.Common.Result.{Result, ok, err, stuck}
use bubblepprof.Dump.Counts.{objects, Counter, counter, counted, IsCounted}
use bubblepprof.Dump.Errors.{DumpError}
use bubblepprof.Dump.Loop.{parse_into-Step}
use bubblepprof.Dump.Parser.{new_parser, empty_snapshot, parse_into, parse}
use bubblepprof.Dump.Safe.{Outcome, Outcome-value, Outcome-not-stuck}
use bubblepprof.Dump.State.{Options, ContentRef, Parser}
use bubblepprof.Dump.Steps.{Step}
use bubblepprof.Snapshot.{HeapSnapshot}
use mathlib.Core.Path.{subst}

empty_snapshot-IsCounted : IsCounted empty_snapshot
unfolding IsCounted
empty_snapshot-IsCounted objects = refl
empty_snapshot-IsCounted c = refl

-- A successful parse is a step from the new parser.
parse_into_related :
    (input : List ℕ) (opts : Options) (tracker : Option (List ContentRef)) {u : Unit {0}}
    {p : Parser}
    → parse_into input opts tracker ≡ ok (u, p)
    → Step opts (new_parser input opts tracker) p
parse_into_related input opts tracker {u} {p} e =
    Outcome-value (Step opts) (new_parser input opts tracker) p u (
      subst (λ r. Outcome (Step opts) (new_parser input opts tracker) r) e
        (parse_into-Step opts input tracker))

parse_snapshot :
    (input : List ℕ) (opts : Options) {s : HeapSnapshot}
    → parse input opts ≡ ok s
    → (u : Unit {0}) × (p : Parser) × (parse_into input opts none ≡ ok (u, p)) × (p.snap ≡ s)
unfolding parse
parse_snapshot input opts {s} e = found (parse_into input opts none) refl e
  where
    found :
        (r : Result DumpError (Unit {0} × Parser))
        → parse_into input opts none ≡ r
        → elim r [ err e ↦ err e | stuck ↦ stuck | ok (_, p) ↦ ok p.snap ] ≡ ok s
        → (u : Unit {0}) × (p : Parser) × (parse_into input opts none ≡ ok (u, p)) × (p.snap ≡ s)
    found (ok (u, p)) f e = (u, p, f, cc)
    found (err x) f e = cc
    found stuck f e = cc

-- Parsing ends on every input, with a snapshot or an error: the fuel of each loop is enough.
pub parse_ends : (input : List ℕ) (opts : Options) → parse input opts ≢ stuck
unfolding parse
parse_ends input opts e = found (parse_into input opts none) (parse_into-Step opts input none) e
  where
    found :
        (r : Result DumpError (Unit {0} × Parser))
        → Outcome (Step opts) (new_parser input opts none) r
        → ◌≡◌ {A = Result DumpError HeapSnapshot}
            (elim r [ err e ↦ err e | stuck ↦ stuck | ok (_, p) ↦ ok p.snap ])
            stuck
        → ⊥
    found (ok (u, p)) h e = cc
    found (err x) h e = cc
    found stuck h e = Outcome-not-stuck _ (Step opts) (new_parser input opts none) h

-- In a snapshot that parsing returns, each counter of the statistics is the number of what it
-- counts: objects and their pointers, goroutines, stack frames and their pointers, data and bss
-- segments, global roots, finalizers, queued finalizers, threads, profile buckets and samples.
pub parse_counts :
    (input : List ℕ) (opts : Options) (s : HeapSnapshot) (c : Counter)
    → parse input opts ≡ ok s
    → counter c s.stats ≡ counted c s
unfolding IsCounted
parse_counts input opts s c e =
    let (u, p, f, g) = parse_snapshot input opts e in
    let kept =
      (parse_into_related input opts none f).keeps
        (record { counts = empty_snapshot-IsCounted; current = tt }) in
    subst (λ t. counter c t.stats ≡ counted c t) g (kept.counts c)

-- A snapshot that parsing returns in strict mode has no warnings.
pub parse_strict_quiet :
    (input : List ℕ) (opts : Options) (s : HeapSnapshot)
    → opts.strict ≡ true
    → parse input opts ≡ ok s
    → s.warnings ≡ []
parse_strict_quiet input opts s strict e =
    let (u, p, f, g) = parse_snapshot input opts e in
    let quiet = (parse_into_related input opts none f).quiet strict in cc

-- After a successful parse the offset of the reader is the number of bytes it has taken, whichever
-- tracker is given, and the limits of the reader are unchanged.
pub parse_into_offset :
    (input : List ℕ) (opts : Options) (tracker : Option (List ContentRef)) (u : Unit {0})
    (p : Parser)
    → parse_into input opts tracker ≡ ok (u, p)
    → (p.reader.offset + length p.reader.input ≡ length input)
      × (p.reader.limits ≡ (new_parser input opts tracker).reader.limits)
parse_into_offset input opts tracker u p e =
    let moves = (parse_into_related input opts tracker e).moves in
    (omega (arith, moves.offset), moves.limits)
