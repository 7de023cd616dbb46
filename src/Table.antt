-- ===== src/Table.antt =====
-- The keyed tables that the relay keeps: redb's tables (on disk, behind transactions) and
-- `DashMap`s (in memory). Neither crate is part of the repository, so a table is an interface: the
-- operations that the relay calls, and the documented laws that it relies on. A key has at most one
-- value, an insert replaces it, and iteration visits each key once, in no assumed order.
mod Rows
mod Entries
mod Laws
pub mod ByList
unfoldable pub use Rows.{lookup, without}
pub use Rows.{Assoc, Distinct, share, lookup-without, without-Distinct}
unfoldable pub use Entries.*
unfoldable pub use Laws.*
