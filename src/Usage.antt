-- ===== src/Usage.antt =====
-- internal/memusage: how much memory is reachable from the goroutines that carry given labels.
pub mod Request
pub mod Sets
pub mod Compute
pub mod Validation
pub mod Failures
pub mod Totals
pub mod Overlap
pub mod Success
pub mod Response
pub mod Cache
