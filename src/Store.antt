-- ===== src/Store.antt =====
-- crates/autofork-core/src/store.rs: the daemon's state, one module for each group of statements.
mod Tables
mod Sessions
mod Roster
mod Runs
mod Spawns
mod Pending
pub mod Keys
pub mod Latch
pub mod Pauses
pub mod Close
pub mod Completion
pub mod Held
pub mod Tests
unfoldable pub use Tables.*
unfoldable pub use Sessions.*
unfoldable pub use Roster.*
unfoldable pub use Runs.*
unfoldable pub use Spawns.*
unfoldable pub use Pending.*
