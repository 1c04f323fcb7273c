-- ===== src/Dump/Errors.antt =====
-- The errors of internal/heapdump, with the values that their messages print.
use bubblepprof.Common.{ℕ, Text, String}
use bubblepprof.Snapshot.{ParseWarning}

pub data DumpError : Type 0 where
  eof unexpected_eof uvarint_overflow header_too_long : DumpError
  invalid_bool : ℕ → DumpError
  mem_range_limit string_limit : ℕ → ℕ → DumpError
  allocation_bound : ℕ → DumpError
  unsupported_header : Text → DumpError
  unsupported_pointer_size : ℕ → DumpError
  address_overflow : DumpError
  eof_before_end : ℕ → DumpError
  record_tag : ℕ → DumpError → DumpError
  record_at : String → ℕ → DumpError → DumpError
  field : String → DumpError → DumpError
  field_at : String → ℕ → DumpError → DumpError
  strict_warning : ParseWarning → DumpError
