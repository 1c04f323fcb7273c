-- ===== src/Dump/Records.antt =====
-- The record parsers of internal/heapdump/parser.go, one function for each kind of record.
pub mod Types
pub mod Memory
pub mod Goroutines
pub mod Profiles
