-- ===== src/Dump.antt =====
-- internal/heapdump: the parser of the heap dump format.
pub mod Errors
pub mod Monad
pub mod Reader
pub mod Pointers
pub mod State
pub mod Records
pub mod Parser
pub mod Safe
pub mod Moves
pub mod Payloads
pub mod Counts
pub mod Counted
pub mod Steps
pub mod RecordSteps
pub mod SectionSteps
pub mod Loop
pub mod Laws
