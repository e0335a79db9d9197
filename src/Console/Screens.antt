-- ===== src/Console/Screens.antt =====
-- What the console shows beside its tables (src/console.c): the names of the states, the registers, the
-- manual and the files of the directory. Colours and layout are left out.
use project_lucario.Base.{Bool, ◌||◌, Option, none, some, List, [], ◌∷◌, if◌then◌else◌}
use project_lucario.Base.Int.{ℤ, pos, tdiv, tmod}
use project_lucario.Machine.{
  Cpu, ConditionCode, OpMode, Text, ProcessState, new, ready, executing, blocked, blocked_io,
  finished,
}
use project_lucario.Words.{word_to_int}
use project_lucario.Vfs.{same_text}
use project_lucario.Logger.{codes}
use project_lucario.Console.Parsing.{CommandStatus, cmd_success, cmd_runtime_error}

unfoldable pub state_to_string : ProcessState → Text
state_to_string new = codes "NEW"
state_to_string ready = codes "READY"
state_to_string executing = codes "EXECUTING"
state_to_string blocked = codes "BLOCKED"
state_to_string blocked_io = codes "BLOCKED_IO"
state_to_string finished = codes "FINISHED"

-- What `printFullRegisters` prints, in its order.
pub record RegisterScreen : Type 0 where
  pub pc : ℤ
  pub ac : ℤ
  pub ac_value : ℤ
  pub ir : ℤ
  pub op_code : ℤ
  pub addressing_mode : ℤ
  pub value : ℤ
  pub mdr : ℤ
  pub mar : ℤ
  pub rb : ℤ
  pub rl : ℤ
  pub sp : ℤ
  pub rx : ℤ
  pub interrupt_enable : Bool
  pub condition_code : ConditionCode
  pub mode : OpMode

unfoldable pub print_full_registers : Cpu → RegisterScreen
unfolding word_to_int
print_full_registers cpu = record {
  pc = cpu.psw.pc;
  ac = cpu.ac;
  ac_value = word_to_int cpu.ac;
  ir = cpu.ir;
  op_code = tdiv cpu.ir (pos 1_000_000);
  addressing_mode = tmod (tdiv cpu.ir (pos 100_000)) (pos 10);
  value = tmod cpu.ir (pos 100_000);
  mdr = cpu.mdr;
  mar = cpu.mar;
  rb = cpu.rb;
  rl = cpu.rl;
  sp = cpu.sp;
  rx = cpu.rx;
  interrupt_enable = cpu.psw.interrupt_enable;
  condition_code = cpu.psw.condition_code;
  mode = cpu.psw.mode;
}

-- The commands that the manual lists, with what it says of each.
unfoldable pub print_help_list : List (Text × Text)
print_help_list =
    (codes "run <file1> [file2]...", codes "Executes up to 20 programs in Normal Mode.")
    ∷ (
      codes "debug <file>",
      codes "Executes a single program in Debug Mode with step-by-step control.",
    )
    ∷ (codes "ps", codes "Displays all active processes (PID, state, memory, name).")
    ∷ (codes "memstat", codes "Shows physical memory content and current usage percentage.")
    ∷ (codes "diskstat", codes "Shows physical disk content and current programs saved.")
    ∷ (codes "monitor", codes "Opens a secondary terminal for program Input/Output.")
    ∷ (codes "list", codes "Lists all files available in the current directory.")
    ∷ (codes "restart", codes "Reboots the Lucario System.")
    ∷ (codes "shutdown", codes "Safely shuts down the system and exits the simulator.")
    ∷ (codes "help", codes "Displays this manual with all available commands.")
    ∷ []

-- What `readdir` gives, and whether `realloc` finds room for one name more.
pub record DirEntry : Type 0 where
  pub name : Text
  pub is_directory : Bool
  pub room : Bool

abbrev pub is_skipped : DirEntry → Bool
is_skipped e =
    same_text e.name (b'.' ∷ []) || (same_text e.name (b'.' ∷ b'.' ∷ []) || e.is_directory)

-- The loop over the directory; `none` where the list cannot grow.
unfoldable pub collect_names : List DirEntry → Option (List Text)
collect_names [] = some []
collect_names (e ∷ entries) =
    let rest = collect_names entries in
    if is_skipped e
    then rest
    else if e.room
    then (elim rest [ none ↦ none | some names ↦ some (e.name ∷ names) ])
    else none

abbrev pub listing : Option (List Text) → CommandStatus × List Text
listing none = (cmd_runtime_error, [])
listing (some names) = (cmd_success, names)

-- The status, and the names that are printed; `none` for a directory that cannot be opened.
unfoldable pub print_files_list : Option (List DirEntry) → CommandStatus × List Text
unfolding collect_names
print_files_list none = (cmd_runtime_error, [])
print_files_list (some entries) = listing (collect_names entries)
