-- ===== src/Common.antt =====
-- The names that the other modules share: library names passed on, and those of four children.
mod Base
mod Lists
pub mod Strings
mod Containers
pub mod Decimal
pub mod Sets
pub use Base.*
pub use Lists.*
unfoldable pub use Strings.*
unfoldable pub use Containers.*
