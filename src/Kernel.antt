-- ===== src/Kernel.antt =====
-- The kernel as a whole: the steps that its threads and its console take (src/kernel/core.c), and what
-- holds after any number of them.
pub mod Frame
pub mod Owners
pub mod Keeping
pub mod Transfers
pub mod Rounds
pub mod Creation
pub mod Admission
pub mod Start
pub mod Session
pub mod Console
pub mod Entry
pub mod Steps
pub mod Privacy
pub mod Held
pub mod Saved
pub mod Reserved
pub mod Interleaving
pub mod Counts
pub mod Ending
pub mod Resuming
pub mod Threads
pub mod Programs
use project_lucario.Base.{ℕ}
