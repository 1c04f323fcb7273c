-- ===== src/Dump/Reader.antt =====
-- internal/heapdump/reader.go: the primitive stream reader. The stream is the list of the bytes
-- that are still to come; it fails only at its end. There is no context, so no cancellation, and
-- the platform's int has 64 bits.
use bubblepprof.Common.{
  ℕ, zero, suc, ◌+◌, ◌-◌, ◌*◌, ◌/◌, ◌%◌, ◌^◌, min, Bool, true, false, List, [], ◌∷◌, ◌++◌, ltb,
  ◌==◌, ◌&&◌, not, if◌then◌else◌, length, take, drop, Text,
}
use bubblepprof.Common.Result.{ok, err, stuck}
use bubblepprof.Dump.Errors.{
  DumpError, eof, unexpected_eof, uvarint_overflow, header_too_long, invalid_bool, mem_range_limit,
  string_limit, allocation_bound,
}
use bubblepprof.Dump.Monad.{M, ◌>>=◌, pure, fail}
use bubblepprof.Snapshot.{Field, field_kind_eol}
use Prim.Native.Nat.{bit_and, bit_or}

pub record Limits : Type 0 where
  pub max_string_bytes : ℕ
  pub max_mem_range_size : ℕ

pub record Reader : Type 0 where
  pub input : List ℕ
  pub limits : Limits
  pub offset : ℕ

unfoldable pub read_byte : M Reader ℕ
read_byte r = elim r.input [
  | [] ↦ err eof
  | b ∷ rest ↦ ok (b, record r { input = rest; offset = r.offset + 1 })
]

-- io.ReadFull of `n` bytes: io.EOF if none is left, io.ErrUnexpectedEOF if some are.
unfoldable pub read_full : ℕ → M Reader (List ℕ)
read_full n r =
    if ltb (length r.input) n
    then elim r.input [ [] ↦ err eof | _ ∷ _ ↦ err unexpected_eof ]
    else ok (take n r.input, record r { input = drop n r.input; offset = r.offset + n })

-- The loop of Uvarint, with the rounds left: `i` is 10 less those. `first` is `i == 0`.
unfoldable pub uvarint_loop : ℕ → ℕ → ℕ → M Reader ℕ
unfolding read_byte
uvarint_loop zero x shift r = err uvarint_overflow
uvarint_loop (suc left) x shift r = elim (read_byte r) [
  | err e ↦ if not (left == 9) then err unexpected_eof else err e
  | stuck ↦ stuck
  | ok (b, r') ↦
      let more =
        uvarint_loop left (bit_or x (bit_and b 0x7f * 2 ^ shift % 2 ^ 64)) (shift + 7) r' in
      if ltb b 0x80
      then if left == 0 && ltb 1 b
        then err uvarint_overflow
        else ok (bit_or x (b * 2 ^ shift % 2 ^ 64), r')
      else more
]

unfoldable pub uvarint : M Reader ℕ
unfolding uvarint_loop
uvarint = uvarint_loop 10 0 0

unfoldable pub bool_of : ℕ → M Reader Bool
bool_of v = if v == 0 then pure false else if v == 1 then pure true else fail (invalid_bool v)

unfoldable pub bool : M Reader Bool
unfolding uvarint bool_of
bool = do v ← uvarint; bool_of v

abbrev pub chunk_size : ℕ
chunk_size = 65536

-- io.EOF in the middle of a payload is reported as io.ErrUnexpectedEOF.
abbrev pub within_payload : DumpError → DumpError
within_payload eof = unexpected_eof
within_payload e = e

-- The loop of readPayload: `n` bytes are still wanted. A round takes a chunk, or all that is wanted.
unfoldable pub read_payload_loop : ℕ → ℕ → List ℕ → M Reader (List ℕ)
unfolding read_full
read_payload_loop fuel zero buf r = ok (buf, r)
read_payload_loop zero (suc n) buf r = stuck
read_payload_loop (suc fuel) (suc n) buf r = elim (read_full (min (suc n) chunk_size) r) [
  | err e ↦ err (within_payload e)
  | stuck ↦ stuck
  | ok (part, r') ↦
      let more = read_payload_loop fuel (suc n - length part) (buf ++ part) r' in
      if not (ltb chunk_size (suc n)) && length buf == 0 then ok (part, r') else more
]

unfoldable pub read_payload : ℕ → M Reader (List ℕ)
unfolding read_payload_loop
read_payload n = read_payload_loop (n / chunk_size + 1) n []

-- `uint64(^uint(0)>>1)`
abbrev pub max_int : ℕ
max_int = 9223372036854775807

-- The payload behind a length: its bytes and the offset at which they start.
unfoldable pub payload_of : ℕ → M Reader (List ℕ × ℕ)
unfolding read_payload
payload_of n r =
    let body : M Reader (List ℕ × ℕ) = read_payload n >>= (λ buf. pure (buf, r.offset)) in
    if not (r.limits.max_mem_range_size == 0) && ltb r.limits.max_mem_range_size n
    then err (mem_range_limit n r.limits.max_mem_range_size)
    else if ltb max_int n
    then err (allocation_bound n)
    else if n == 0
    then ok (([], r.offset), r)
    else body r

unfoldable pub bytes_with_file_offset : M Reader (List ℕ × ℕ)
unfolding uvarint payload_of
bytes_with_file_offset = do n ← uvarint; payload_of n

unfoldable pub bytes : M Reader (List ℕ)
unfolding bytes_with_file_offset
bytes = do (buf, _) ← bytes_with_file_offset; pure buf

unfoldable pub string_of : ℕ → M Reader Text
unfolding read_payload
string_of n r =
    if not (r.limits.max_string_bytes == 0) && ltb r.limits.max_string_bytes n
    then err (string_limit n r.limits.max_string_bytes)
    else if n == 0
    then ok ([], r)
    else if ltb max_int n
    then err (allocation_bound n)
    else read_payload n r

unfoldable pub string : M Reader Text
unfolding uvarint string_of
string = do n ← uvarint; string_of n

-- The loop of FieldList. A round reads at least two bytes or ends, so the length of the stream is
-- enough fuel.
unfoldable pub field_list_loop : ℕ → List Field → M Reader (List Field)
unfolding uvarint
field_list_loop zero fields r = stuck
field_list_loop (suc fuel) fields r = elim (uvarint r) [
  | err e ↦ err e
  | stuck ↦ stuck
  | ok (kind, r') ↦
      let more : M Reader (List Field) = uvarint >>= λ off.
      field_list_loop fuel (fields ++ record { kind = kind; offset = off } ∷ []) in
      if kind == field_kind_eol then ok (fields, r') else more r'
]

unfoldable pub field_list : M Reader (List Field)
unfolding field_list_loop
field_list r = field_list_loop (length r.input + 1) [] r

-- The loop of readLine: `left` bytes of the 1024 are still free.
unfoldable pub read_line_loop : ℕ → Text → M Reader Text
unfolding read_byte
read_line_loop zero line r = err header_too_long
read_line_loop (suc left) line r = elim (read_byte r) [
  | err e ↦ if ltb 0 (length line) then err unexpected_eof else err e
  | stuck ↦ stuck
  | ok (b, r') ↦
      let more = read_line_loop left (line ++ b ∷ []) r' in if b == 10 then ok (line, r') else more
]

unfoldable pub read_line : M Reader Text
unfolding read_line_loop
read_line = read_line_loop 1024 []
