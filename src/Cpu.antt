-- ===== src/Cpu.antt =====
-- The processor (src/hardware/cpu.c): fetch, decode and execute. Each instruction handler returns
-- its status and the machine after it.
mod Operand
mod Arithmetic
mod Movement
mod Branching
mod DmaInstructions
mod Execute
unfoldable pub use Operand.*
unfoldable pub use Arithmetic.*
unfoldable pub use Movement.*
unfoldable pub use Branching.*
unfoldable pub use DmaInstructions.*
unfoldable pub use Execute.*
