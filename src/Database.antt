-- ===== src/Database.antt =====
-- The database as the code sees it: tables of rows, and transactions over them.
mod Status
mod Rows
mod Transactions
mod Postcondition
pub use Status.*
pub use Rows.*
pub use Transactions.*
unfoldable pub use Transactions.{◌>>=◌, ◌>>◌, require, or_fail}
pub use Postcondition.*
