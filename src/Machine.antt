-- ===== src/Machine.antt =====
-- The state of the virtual machine and of the kernel (inc/definitions.h and the static variables of
-- the modules under src/).
mod Codes
mod Constants
mod State
mod Registers
pub use Constants.*
pub use Codes.*
pub use State.*
pub use Registers.*
