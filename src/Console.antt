-- ===== src/Console.antt =====
-- The command line (src/console.c).
pub mod Parsing
pub mod Words
pub mod Reports
pub mod Screens
pub mod Tty
pub mod RawMode
pub mod Commands
pub mod Interaction
pub mod Monitor
pub mod Refusal
pub mod Marks
pub mod DiskMap
unfoldable pub use Parsing.*
unfoldable pub use Commands.*
unfoldable pub use Interaction.*
