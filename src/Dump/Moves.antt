-- ===== src/Dump/Moves.antt =====
-- Every method of the reader (internal/heapdump/reader.go) moves forward over its stream.
use bubblepprof.Common.{
  ℕ, zero, suc, ◌+◌, ◌*◌, ◌%◌, ◌^◌, ◌≤◌, ◌<◌, ◌≡◌, refl, true, false, inl, inr, arith, length,
  List-cases, ltb, ◌⊎◌, ◌==◌, ◌&&◌, not, if◌then◌else◌,
}
use bubblepprof.Common.Result.{Result, ok, err}
use bubblepprof.Dump.Errors.{DumpError, eof, unexpected_eof, uvarint_overflow, invalid_bool}
use bubblepprof.Dump.Monad.{M, ◌>>=◌, pure, fail}
use bubblepprof.Dump.Reader.{Reader, read_byte, uvarint_loop, uvarint, bool_of, bool}
use bubblepprof.Dump.Safe.{
  Outcome, Outcome-ok, Outcome-err, Outcome-eq, Safe, Safe-pure, Safe-fail, Safe-bind, Safe-if,
  Outcome-shift, Outcome-if,
}
use Prim.Native.Nat.{bit_and, bit_or}

-- The offset grows by what the stream loses.
pub record Moves (r r' : Reader) : Type 0 where
  pub shorter : length r'.input ≤ length r.input
  pub offset : r'.offset + length r'.input ≡ r.offset + length r.input
  pub limits : r'.limits ≡ r.limits

pub Moves-refl : (r : Reader) → Moves r r
Moves-refl r = record { shorter = omega arith; offset = refl; limits = refl }

pub Moves-trans : (r s t : Reader) → Moves r s → Moves s t → Moves r t
Moves-trans r s t h k = record {
  shorter = omega (arith, h.shorter, k.shorter);
  offset = omega (arith, h.offset, k.offset);
  limits = cc (h.limits, k.limits);
}

-- At least one byte is taken.
abbrev pub Takes : Reader → Reader → Type 0
Takes r r' = Moves r r' × (length r'.input < length r.input)

abbrev pub MovesBy : {A : Type 0} → M Reader A → Type 0
MovesBy m = Safe Moves m

Takes-trans : (r s t : Reader) → Takes r s → Moves s t → Takes r t
Takes-trans r s t (h, hs) k = (Moves-trans r s t h k, omega (arith, hs, k.shorter))

pub read_byte-cases :
    (r : Reader)
    → (read_byte r ≡ err eof) ⊎ ((b : ℕ) × (r' : Reader) × (read_byte r ≡ ok (b, r')) × Takes r r')
unfolding read_byte
read_byte-cases r = elim (List-cases r.input) [
  | inl e ↦ inl (ground arith)
  | inr (b, rest, e) ↦ inr (
    b,
    record r { input = rest; offset = r.offset + 1 },
    ground arith,
    (
      record { shorter = ground (arith, e); offset = ground (arith, e); limits = refl },
      ground (arith, e),
    ),
  )
]

abbrev uvarint_step : ℕ → ℕ → ℕ → ℕ → Reader → Result DumpError (ℕ × Reader)
uvarint_step left x shift b r' =
    let more = uvarint_loop left (bit_or x (bit_and b 0x7f * 2 ^ shift % 2 ^ 64)) (shift + 7) r' in
    if ltb b 0x80
    then if left == 0 && ltb 1 b
      then err uvarint_overflow
      else ok (bit_or x (b * 2 ^ shift % 2 ^ 64), r')
    else more

uvarint_loop-read :
    (left x shift : ℕ) (r : Reader) (b : ℕ) (r' : Reader)
    → read_byte r ≡ ok (b, r')
    → uvarint_loop (suc left) x shift r ≡ uvarint_step left x shift b r'
unfolding uvarint_loop
uvarint_loop-read left x shift r b r' e = ground arith

uvarint_loop-fails :
    (left x shift : ℕ) (r : Reader)
    → read_byte r ≡ err eof
    → uvarint_loop (suc left) x shift r ≡ (if not (left == 9) then err unexpected_eof else err eof)
unfolding uvarint_loop
uvarint_loop-fails left x shift r e = ground arith

uvarint_loop-Takes : (left x shift : ℕ) (r : Reader) → Outcome Takes r (uvarint_loop left x shift r)
unfolding uvarint_loop
uvarint_loop-Takes zero x shift r = Outcome-err _ Takes r uvarint_overflow
uvarint_loop-Takes (suc left) x shift r = elim (read_byte-cases r) [
  | inl e ↦
      Outcome-eq Takes r _ _ (uvarint_loop-fails left x shift r e)
        (Outcome-if Takes r _ _ _ (Outcome-err _ Takes r _) (Outcome-err _ Takes r _))
  | inr (b, r', e, h) ↦
      let more =
        Outcome-shift Takes Takes r r' _ (λ u k. Takes-trans r r' u h k.0)
          (uvarint_loop-Takes left (bit_or x (bit_and b 0x7f * 2 ^ shift % 2 ^ 64)) (shift + 7)
            r') in
      Outcome-eq Takes r _ _ (uvarint_loop-read left x shift r b r' e) (
        Outcome-if Takes r _ _ _
          (Outcome-if Takes r _ _ _ (Outcome-err _ Takes r _) (Outcome-ok Takes r _ _ h)) more)
]

pub uvarint-Takes : (r : Reader) → Outcome Takes r (uvarint r)
unfolding uvarint
uvarint-Takes r = uvarint_loop-Takes 10 0 0 r

pub uvarint-MovesBy : MovesBy uvarint
uvarint-MovesBy = record {
  at = λ r. Outcome-shift Takes Moves r r _ (λ u h. h.0) (uvarint-Takes r);
}

pub MovesBy-pure : {A : Type 0} (a : A) → MovesBy (pure a)
MovesBy-pure a = Safe-pure Moves Moves-refl Moves-trans a

pub MovesBy-fail : {A : Type 0} (e : DumpError) → MovesBy (fail {A = A} e)
MovesBy-fail e = Safe-fail Moves Moves-refl Moves-trans e

pub MovesBy-bind :
    {A B : Type 0} (m : M Reader A) (f : A → M Reader B)
    → MovesBy m
    → ((a : A) → MovesBy (f a))
    → MovesBy (m >>= f)
MovesBy-bind m f h k = Safe-bind Moves Moves-refl Moves-trans m f h k

bool_of-MovesBy : (v : ℕ) → MovesBy (bool_of v)
unfolding bool_of
bool_of-MovesBy v =
    Safe-if Moves (v == 0) _ _ (MovesBy-pure false)
      (Safe-if Moves (v == 1) _ _ (MovesBy-pure true) (MovesBy-fail (invalid_bool v)))

pub bool-MovesBy : MovesBy bool
unfolding bool
bool-MovesBy = MovesBy-bind uvarint bool_of uvarint-MovesBy bool_of-MovesBy
