-- ===== src/Session.antt =====
-- internal/memusage/snapshot.go and multibubble.go: queries that compare groups of goroutines of one
-- loaded snapshot. A call holds the session's lock, so a call is one function of the session. The
-- context is live: the repeated `ctx.Err()` returns nil.
pub mod State
pub mod Sets
pub mod Splits
pub mod Measured
pub mod Walked
pub mod Compare
pub mod Cut
pub mod SetOf
pub mod Compared
pub mod Listed
pub mod Exclusive
pub mod Others
pub mod Parted
pub mod Owned
pub mod Top
pub mod Grouped
pub mod Hits
pub mod Classes
pub mod Backdrop
pub mod Covered
pub mod RowOrder
pub mod Rows
pub mod RowSets
pub mod Ranked
pub mod Accounted
pub mod Query
pub mod Ids
pub mod Indexed
pub mod Answered
