-- ===== src/Examples.antt =====
-- Tests, and the theorems at a concrete dump: a header, the parameters, three objects, a goroutine
-- with one frame, and a global root.
pub mod Dump
pub mod Analysis
pub mod Memory
pub mod Session
pub mod Labels
