-- ===== src/Machine/State.antt =====
-- The records of inc/definitions.h, and one record of all the global variables.
--
-- RAM, DISK and PROCESS_TABLE are functions of the index: every access of RAM is checked against its
-- size first, and what the code does at an index outside the others is not defined. The 16 bits of
-- `interruptBitmap` are the set of pending interrupt codes, of which there are nine. An `int` and a
-- `word` are integers, and the code's sums on them are wrapped (`add32`, `sub32`).
use project_lucario.Base.{ℕ, Bool, false, Option, List}
use project_lucario.Base.Int.{ℤ, pos}
use project_lucario.Machine.Codes.{
  ConditionCode, cc_zero, OpMode, mode_user, AddressingMode, OpCode, InterruptCode, ProcessState,
}

-- `PSW_t`; `interruptEnable` is true for ITR_ENABLED.
pub record Psw : Type 0 where
  pub condition_code : ConditionCode
  pub mode : OpMode
  pub interrupt_enable : Bool
  pub pc : ℤ

-- `CPU_t`
pub record Cpu : Type 0 where
  pub ac : ℤ
  pub mar : ℤ
  pub mdr : ℤ
  pub ir : ℤ
  pub rb : ℤ
  pub rl : ℤ
  pub rx : ℤ
  pub sp : ℤ
  pub psw : Psw
  pub timer_limit : ℕ
  pub cycles_counter : ℕ

-- `(CPU_t){0}`
abbrev pub zero_cpu : Cpu
zero_cpu = record {
  ac = pos 0;
  mar = pos 0;
  mdr = pos 0;
  ir = pos 0;
  rb = pos 0;
  rl = pos 0;
  rx = pos 0;
  sp = pos 0;
  psw = record { condition_code = cc_zero; mode = mode_user; interrupt_enable = false; pc = pos 0 };
  timer_limit = 0;
  cycles_counter = 0;
}

-- `Instruction_t`
pub record Instruction : Type 0 where
  pub op_code : OpCode
  pub direction : AddressingMode
  pub value : ℕ

-- `DMA_t`; `ioDirection` is 0 to read from the disk and 1 to write to it.
pub record Dma : Type 0 where
  pub track : ℕ
  pub cylinder : ℕ
  pub sector : ℕ
  pub io_direction : ℕ
  pub mem_addr : ℤ
  pub status : ℕ
  pub active : Bool
  pub pending : Bool

-- `(DMA_t){0}`
abbrev pub zero_dma : Dma
zero_dma = record {
  track = 0;
  cylinder = 0;
  sector = 0;
  io_direction = 0;
  mem_addr = pos 0;
  status = 0;
  active = false;
  pending = false;
}

-- A text is the list of its bytes.
abbrev pub Text : Type 0
Text = List ℕ

-- `PCB_t`
pub record Pcb : Type 0 where
  pub pid : ℤ
  pub state : ProcessState
  pub context : Cpu
  pub program_name : Text
  pub start_block : ℤ
  pub block_count : ℤ
  pub sleep_tics : ℤ

-- DISK[track][cylinder][sector]
abbrev pub Disk : Type 0
Disk = ℕ → ℕ → ℕ → ℤ

abbrev pub ProcessTable : Type 0
ProcessTable = ℕ → Pcb

-- A line of the monitor, as the process and the number that it reports.
pub data Message : Type 0 where
  output : ℤ → ℤ → Message
  input_read : ℤ → ℤ → Message
  input_truncated : ℤ → Message
  bad_sleep : ℤ → ℤ → Message

-- The global variables that the instructions, the interrupts and the scheduler work on. `current` is
-- `currentActiveProcess`, with `none` for -1.
pub record Machine : Type 0 where
  pub cpu : Cpu
  pub ram : ℕ → ℤ
  pub disk : Disk
  pub dma : Dma
  pub pending : InterruptCode → Bool
  pub interrupt_value : ℤ
  pub table : ProcessTable
  pub current : Option ℕ
  pub os_yield : Bool
  pub monitor_active : Bool
  pub free_partitions : ℕ → Bool
  pub next_pid : ℤ
  pub history : List Message

-- What one step takes from outside the program: the numbers that the user types at the prompt, and
-- the values that local variables hold where the code reads them uninitialised.
pub data Typing : Type 0 where
  rejected : Typing → Typing
  accepted : ℤ → Typing

pub record Outside : Type 0 where
  pub typing : Typing
  pub load_data : ℤ
  pub dma_data : ℤ
  pub saved_pc_word : ℤ
