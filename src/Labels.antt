-- ===== src/Labels.antt =====
-- internal/heaplabels: the pprof labels of goroutines, decoded from the bytes of a heap dump.
pub mod Memory
pub mod Ranges
pub mod Layout
pub mod Supported
pub mod Decode
pub mod Decoded
pub mod Bounded
pub mod Results
pub mod Tallied
pub mod Accounts
