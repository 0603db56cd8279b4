-- ===== src/Prelude.antt =====
-- The names that all modules share: the libraries', passed on, and those of the modules below.
pub mod Base
pub mod Lists
pub mod Rows
pub mod Texts
pub mod Maps
pub mod Integers
pub use Base.*
pub use Lists.*
