-- ===== src/Dump/State.antt =====
-- The parser of internal/heapdump/parser.go: its options, its state and the reads with their labels.
use bubblepprof.Common.{ℕ, ◌+◌, Bool, List, [], ◌∷◌, ◌++◌, Option, if◌then◌else◌, Text, String}
use bubblepprof.Common.Result.{Result, ok, err, stuck}
use bubblepprof.Dump.Errors.{DumpError, field, strict_warning}
use bubblepprof.Dump.Monad.{M, ◌>>◌, pure, on_error, update}
use bubblepprof.Dump.Reader.{
  Reader, uvarint, bool, string, bytes, bytes_with_file_offset, field_list,
}
use bubblepprof.Dump.Pointers.{Extraction, extract_pointers}
use bubblepprof.Snapshot.{Field, HeapSnapshot, ParseStats, ParseWarning}

pub record Options : Type 0 where
  pub keep_object_contents : Bool
  pub keep_pointer_offsets : Bool
  pub max_string_bytes : ℕ
  pub max_mem_range_bytes : ℕ
  pub strict : Bool

-- contentRef (contentresolver.go)
pub record ContentRef : Type 0 where
  pub addr : ℕ
  pub file_off : ℕ
  pub length : ℕ

-- `big_endian` is the byte order. `cur_g` is the index of the goroutine that *curG points to: the
-- pointer is set to the last goroutine and is cleared before that list grows again. `tracker` is
-- the list that the content tracker appends to, if there is one.
pub record Parser : Type 0 where
  pub reader : Reader
  pub snap : HeapSnapshot
  pub have_params : Bool
  pub big_endian : Bool
  pub cur_g : Option ℕ
  pub tracker : Option (List ContentRef)

abbrev pub P : Type 0 → Type 0
P A = M Parser A

abbrev pub with_reader :
    {A : Type 0} → Parser → Result DumpError (A × Reader) → Result DumpError (A × Parser)
with_reader p (ok (a, r)) = ok (a, record p { reader = r })
with_reader p (err e) = err e
with_reader p stuck = stuck

-- A method of the reader, called as `p.r.m()`.
unfoldable pub on_reader : {A : Type 0} → M Reader A → P A
on_reader m p = with_reader p (m p.reader)

-- `v, err := p.r.m(); if err != nil { return fmt.Errorf("name: %w", err) }`
unfoldable pub uvarint_as : String → P ℕ
uvarint_as name = on_error (field name) (on_reader uvarint)

unfoldable pub bool_as : String → P Bool
bool_as name = on_error (field name) (on_reader bool)

unfoldable pub string_as : String → P Text
string_as name = on_error (field name) (on_reader string)

unfoldable pub bytes_as : String → P (List ℕ)
bytes_as name = on_error (field name) (on_reader bytes)

unfoldable pub bytes_at_as : String → P (List ℕ × ℕ)
bytes_at_as name = on_error (field name) (on_reader bytes_with_file_offset)

unfoldable pub fields_as : String → P (List Field)
fields_as name = on_error (field name) (on_reader field_list)

abbrev pub on_snap : (HeapSnapshot → HeapSnapshot) → Parser → Parser
on_snap f p = record p { snap = f p.snap }

abbrev pub on_stats : (ParseStats → ParseStats) → HeapSnapshot → HeapSnapshot
on_stats f s = record s { stats = f s.stats }

-- (*parser).warn: an error in strict mode, else a line of the snapshot.
unfoldable pub warn : Options → ParseWarning → P (Unit {0})
warn opts w p =
    if opts.strict
    then err (strict_warning w)
    else ok (tt, on_snap (λ s. record s { warnings = s.warnings ++ w ∷ [] }) p)

-- The warnings of extractPointers: in strict mode the first is the error.
unfoldable pub warn_all : Options → List ParseWarning → P (Unit {0})
unfolding warn
warn_all opts [] = pure tt
warn_all opts (w ∷ ws) = do warn opts w; warn_all opts ws

-- extractPointers as the record parsers call it: the warnings are reported, then the interface
-- counters grow.
unfoldable pub decode_pointers : Options → List ℕ → List Field → ℕ → Bool → P Extraction
unfolding extract_pointers warn_all
decode_pointers opts contents fields container with_slots p =
    let x =
      extract_pointers contents fields p.snap.params.ptr_size p.big_endian container with_slots in
    (do
      warn_all opts x.warnings
      update (
          on_snap (
            on_stats (λ s. record s {
              interface_fields_decoded = s.interface_fields_decoded + x.iface;
              eface_fields_decoded = s.eface_fields_decoded + x.eface;
            })))
      pure x)
      p
