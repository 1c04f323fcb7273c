-- ===== src/Dump/Payloads.antt =====
-- The methods of the reader that return lists of bytes or fields (internal/heapdump/reader.go) move
-- forward over its stream, and their loops have enough fuel.
use bubblepprof.Common.{
  ℕ, zero, suc, ◌+◌, ◌-◌, ◌*◌, ◌/◌, ◌≤◌, ◌<◌, ◌≡◌, refl, Bool-cases, List, [], ◌∷◌, ◌++◌, inl, inr,
  arith, length, take, drop, List-cases, length-take, length-drop, ltb-false→le, ltb, ◌⊎◌, ◌==◌,
  ◌&&◌, not, if◌then◌else◌, min,
}
use bubblepprof.Common.Result.{Result, ok, err, stuck}
use bubblepprof.Dump.Errors.{
  DumpError, eof, unexpected_eof, mem_range_limit, string_limit, allocation_bound, header_too_long,
}
use bubblepprof.Dump.Monad.{M, ◌>>=◌}
use bubblepprof.Dump.Reader.{
  Reader, read_byte, read_full, uvarint, chunk_size, within_payload, read_payload_loop, max_int,
  read_payload, payload_of, bytes_with_file_offset, bytes, string_of, string, field_list_loop,
  field_list, read_line_loop, read_line,
}
use bubblepprof.Dump.Safe.{
  Outcome, Outcome-ok, Outcome-value, Outcome-not-stuck, Outcome-err, Outcome-eq, Outcome-shift,
  Outcome-if, Outcome-continue,
}
use bubblepprof.Snapshot.{Field, field_kind_eol}
use bubblepprof.Dump.Moves.{
  Moves, Moves-refl, Moves-trans, Takes, MovesBy, MovesBy-pure, MovesBy-bind, read_byte-cases,
  uvarint-Takes, uvarint-MovesBy,
}

-- A full read takes just the bytes that it returns.
read_full-cases :
    (n : ℕ) (r : Reader)
    → ((e : DumpError) × (read_full n r ≡ err e))
      ⊎ ((part : List ℕ) × (r' : Reader) × (read_full n r ≡ ok (part, r'))
          × Moves r r'
          × (length part ≡ n))
unfolding read_full
read_full-cases n r = elim (Bool-cases (ltb (length r.input) n)) [
  | inl e ↦ elim (List-cases r.input) [
    | inl f ↦ inl (eof, ground arith)
    | inr (b, rest, f) ↦ inl (unexpected_eof, ground arith)
  ]
  | inr e ↦
      let fits = ltb-false→le (length r.input) n e in
      inr (
        take n r.input,
        record r { input = drop n r.input; offset = r.offset + n },
        ground arith,
        record {
          shorter = omega (arith, length-drop n r.input fits);
          offset = omega (arith, length-drop n r.input fits);
          limits = refl;
        },
        length-take n r.input fits,
      )
]

abbrev payload_step : ℕ → ℕ → List ℕ → List ℕ → Reader → Result DumpError (List ℕ × Reader)
payload_step fuel n buf part r' =
    let more = read_payload_loop fuel (suc n - length part) (buf ++ part) r' in
    if not (ltb chunk_size (suc n)) && length buf == 0 then ok (part, r') else more

read_payload_loop-read :
    (fuel n : ℕ) (buf : List ℕ) (r : Reader) (part : List ℕ) (r' : Reader)
    → read_full (min (suc n) chunk_size) r ≡ ok (part, r')
    → read_payload_loop (suc fuel) (suc n) buf r ≡ payload_step fuel n buf part r'
unfolding read_payload_loop
read_payload_loop-read fuel n buf r part r' e = ground arith

read_payload_loop-fails :
    (fuel n : ℕ) (buf : List ℕ) (r : Reader) (e : DumpError)
    → read_full (min (suc n) chunk_size) r ≡ err e
    → read_payload_loop (suc fuel) (suc n) buf r ≡ err (within_payload e)
unfolding read_payload_loop
read_payload_loop-fails fuel n buf r e f = ground arith

read_payload_loop-Moves :
    (fuel n : ℕ) (buf : List ℕ) (r : Reader)
    → n ≤ fuel * chunk_size
    → Outcome Moves r (read_payload_loop fuel n buf r)
unfolding read_payload_loop
read_payload_loop-Moves fuel zero buf r h = Outcome-ok Moves r _ _ (Moves-refl r)
read_payload_loop-Moves zero (suc n) buf r h = absurd (omega (arith, h))
read_payload_loop-Moves (suc fuel) (suc n) buf r h =
    elim (read_full-cases (min (suc n) chunk_size) r) [
      | inl (e, f) ↦
          Outcome-eq Moves r _ _ (read_payload_loop-fails fuel n buf r e f)
            (Outcome-err _ Moves r _)
      | inr (part, r', f, k, l) ↦
          let more =
            Outcome-shift Moves Moves r r' _ (λ u m. Moves-trans r r' u k m)
              (read_payload_loop-Moves fuel (suc n - length part) (buf ++ part) r' (omega arith)) in
          Outcome-eq Moves r _ _ (read_payload_loop-read fuel n buf r part r' f)
            (Outcome-if Moves r _ _ _ (Outcome-ok Moves r _ _ k) more)
    ]

read_payload-MovesBy : (n : ℕ) → MovesBy (read_payload n)
unfolding read_payload
read_payload-MovesBy n = record {
  at = λ r. read_payload_loop-Moves (n / chunk_size + 1) n [] r (omega arith);
}

payload_of-MovesBy : (n : ℕ) → MovesBy (payload_of n)
unfolding payload_of
payload_of-MovesBy n = record {
  at = λ r.
      Outcome-if Moves r
        (not (r.limits.max_mem_range_size == 0) && ltb r.limits.max_mem_range_size n) _ _
        (Outcome-err _ Moves r (mem_range_limit n r.limits.max_mem_range_size))
        (Outcome-if Moves r (ltb max_int n) _ _ (Outcome-err _ Moves r (allocation_bound n)) (
          Outcome-if Moves r (n == 0) _ _ (Outcome-ok Moves r r ([], r.offset) (Moves-refl r)) (
            (MovesBy-bind (read_payload n) _ (read_payload-MovesBy n)
                (λ buf. MovesBy-pure (buf, r.offset))).at
              r)));
}

pub bytes_with_file_offset-MovesBy : MovesBy bytes_with_file_offset
unfolding bytes_with_file_offset
bytes_with_file_offset-MovesBy = MovesBy-bind uvarint payload_of uvarint-MovesBy payload_of-MovesBy

pub bytes-MovesBy : MovesBy bytes
unfolding bytes
bytes-MovesBy =
    MovesBy-bind bytes_with_file_offset _ bytes_with_file_offset-MovesBy
      (λ (buf, _). MovesBy-pure buf)

string_of-MovesBy : (n : ℕ) → MovesBy (string_of n)
unfolding string_of
string_of-MovesBy n = record {
  at = λ r.
      Outcome-if Moves r (not (r.limits.max_string_bytes == 0) && ltb r.limits.max_string_bytes n) _
        _ (Outcome-err _ Moves r (string_limit n r.limits.max_string_bytes))
        (Outcome-if Moves r (n == 0) _ _ (Outcome-ok Moves r r [] (Moves-refl r)) (
          Outcome-if Moves r (ltb max_int n) _ _ (Outcome-err _ Moves r (allocation_bound n))
            ((read_payload-MovesBy n).at r)));
}

pub string-MovesBy : MovesBy string
unfolding string
string-MovesBy = MovesBy-bind uvarint string_of uvarint-MovesBy string_of-MovesBy

abbrev field_step : ℕ → List Field → ℕ → Reader → Result DumpError (List Field × Reader)
field_step fuel fields kind r' =
    let more : M Reader (List Field) = uvarint >>= λ off.
    field_list_loop fuel (fields ++ record { kind = kind; offset = off } ∷ []) in
    if kind == field_kind_eol then ok (fields, r') else more r'

field_list_loop-Moves :
    (fuel : ℕ) (fields : List Field) (r : Reader)
    → length r.input < fuel
    → Outcome Moves r (field_list_loop fuel fields r)
unfolding field_list_loop
field_list_loop-Moves zero fields r h = absurd (omega arith)
field_list_loop-Moves (suc fuel) fields r h =
    kinds (λ fs u. field_list_loop-Moves fuel fs u) (uvarint r) (uvarint-Takes r)
  where
    kinds :
        ((fs : List Field) (u : Reader)
          → length u.input < fuel
          → Outcome Moves u (field_list_loop fuel fs u))
        → (q : Result DumpError (ℕ × Reader)) → Outcome Takes r q
        → Outcome Moves r (elim q [
          | err e ↦ err e
          | stuck ↦ stuck
          | ok (kind, r') ↦ field_step fuel fields kind r'
        ])
    kinds go (err e) k = Outcome-err _ Moves r e
    kinds go stuck k = absurd (Outcome-not-stuck _ Takes r k)
    kinds go (ok (kind, r')) k =
        let (m, less) = Outcome-value Takes r r' kind k in
        Outcome-shift Moves Moves r r' _ (λ u n. Moves-trans r r' u m n)
          (Outcome-if Moves r' (kind == field_kind_eol) _ _
            (Outcome-ok Moves r' r' fields (Moves-refl r'))
            (Outcome-continue Moves Moves-refl Moves-trans r' (uvarint r') _ (uvarint-MovesBy.at r')
              (λ off u n. go _ u (omega (arith, n.shorter, less)))))

pub field_list-MovesBy : MovesBy field_list
unfolding field_list
field_list-MovesBy = record {
  at = λ r. field_list_loop-Moves (length r.input + 1) [] r (omega arith);
}

read_line_loop-read :
    (left : ℕ) (line : List ℕ) (r : Reader) (b : ℕ) (r' : Reader)
    → read_byte r ≡ ok (b, r')
    → read_line_loop (suc left) line r
      ≡ (if b == 10 then ok (line, r') else read_line_loop left (line ++ b ∷ []) r')
unfolding read_line_loop
read_line_loop-read left line r b r' e = ground arith

read_line_loop-fails :
    (left : ℕ) (line : List ℕ) (r : Reader)
    → read_byte r ≡ err eof
    → read_line_loop (suc left) line r
      ≡ (if ltb 0 (length line) then err unexpected_eof else err eof)
unfolding read_line_loop
read_line_loop-fails left line r e = ground arith

read_line_loop-Moves :
    (left : ℕ) (line : List ℕ) (r : Reader) → Outcome Moves r (read_line_loop left line r)
unfolding read_line_loop
read_line_loop-Moves zero line r = Outcome-err _ Moves r header_too_long
read_line_loop-Moves (suc left) line r = elim (read_byte-cases r) [
  | inl e ↦
      Outcome-eq Moves r _ _ (read_line_loop-fails left line r e)
        (Outcome-if Moves r _ _ _ (Outcome-err _ Moves r _) (Outcome-err _ Moves r _))
  | inr (b, r', e, h) ↦ Outcome-eq Moves r _ _ (read_line_loop-read left line r b r' e) (
      Outcome-if Moves r _ _ _ (Outcome-ok Moves r _ _ h.0) (
        Outcome-shift Moves Moves r r' _ (λ u m. Moves-trans r r' u h.0 m)
          (read_line_loop-Moves left (line ++ b ∷ []) r')))
]

pub read_line-MovesBy : MovesBy read_line
unfolding read_line
read_line-MovesBy = record { at = read_line_loop-Moves 1024 [] }
