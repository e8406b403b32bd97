-- ===== src/Base/Table.antt =====
-- Relational tables as lists of rows: the WHERE clause of a query is a Boolean test on a row.
mod Queries
mod Keyed
mod Constraint
unfoldable pub use Queries.*
unfoldable pub use Keyed.*
unfoldable pub use Constraint.*
