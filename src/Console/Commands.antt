-- ===== src/Console/Commands.antt =====
-- The commands of the console (src/console.c): `handleLoadCommand`, `handleRunCommand`,
-- `handleDebugCommand`, the monitor session, and one line of `consoleStart`. What is printed is left
-- out, up to the tables, the names and the registers that the commands show.
use project_lucario.Base.{
  ℕ, Bool, true, false, not, Option, none, some, List, [], ◌∷◌, ◌++◌, ltb, ◌==◌, length,
  if◌then◌else◌,
}
use project_lucario.Machine.{Machine, Text, Outside, OsStatus, max_processes}
use project_lucario.Step.{cpu_step, cpu_reset}
use project_lucario.Vfs.{Host, same_text}
use project_lucario.Vfs.Program.{LoadStatus, load_success, load_program}
use project_lucario.Core.{System, create_process, handle_restart_command}
use project_lucario.Console.Parsing.{
  CommandStatus, cmd_success, cmd_empty, cmd_missing_args, cmd_load_error, cmd_runtime_error,
  Parsed, parse_input, trim_whitespace, cut_newline,
}
use project_lucario.Console.Screens.{
  DirEntry, print_files_list, print_help_list, RegisterScreen, print_full_registers,
}
use project_lucario.Logger.{codes}
use project_lucario.Base.Int.{ℤ}
use project_lucario.Console.Reports.{
  ProcessRow, process_rows, BlockRow, block_rows, memory_usage, DiskReport, disk_report,
}

-- What a line of the console takes from outside: the host's files, whether the terminal's raw
-- mode can be had, what the directory lists, the pointer that the argument array holds where no argument was parsed, and
-- the lines typed to the debugger, each with what its step takes.
pub record Terminal : Type 0 where
  pub host : Host
  pub raw_mode : Bool
  pub directory : Option (List DirEntry)
  pub stale_argument : Text
  pub debug_lines : List (Text × Outside)

abbrev pub loaded_status : LoadStatus → CommandStatus
loaded_status load_success = cmd_success
loaded_status _ = cmd_load_error

unfoldable pub handle_load_command : Host → Text → Machine → CommandStatus × Machine
handle_load_command host [] m = (cmd_missing_args, m)
handle_load_command host (c ∷ rest) m =
    let (info, loaded) = load_program host (c ∷ rest) m in (loaded_status info.status, loaded)

-- The loop over the arguments, with the status of each creation.
unfoldable pub create_all : Host → List Text → System → List OsStatus × System
create_all host [] s = ([], s)
create_all host (name ∷ names) s =
    let (status, s') = create_process host name s in
    let (statuses, s'') = create_all host names s' in (status ∷ statuses, s'')

-- One line of the debugger; false to leave it.
unfoldable pub debug_line : Text → Outside → Machine → Bool × Machine
debug_line [] o m = cpu_step o m
debug_line (c ∷ rest) o m =
    if same_text (c ∷ rest) (b's' ∷ b't' ∷ b'e' ∷ b'p' ∷ [])
    then cpu_step o m
    else (not (same_text (c ∷ rest) (b'q' ∷ b'u' ∷ b'i' ∷ b't' ∷ [])), m)

-- The debugger's loop, until its input ends.
unfoldable pub debug_loop : List (Text × Outside) → Machine → Machine
debug_loop [] m = m
debug_loop ((line, o) ∷ lines) m =
    let (going, m') = debug_line (trim_whitespace (cut_newline line)) o m in
    let last = debug_loop lines m' in if going then last else m'

-- What the debugger prints for a line: the step with the address, the instruction and the accumulator,
-- the registers, its end, or that it does not know the line.
pub data DebugScreen : Type 0 where
  executed : ℤ → ℤ → ℤ → DebugScreen
  program_halted : DebugScreen
  registers : RegisterScreen → DebugScreen
  leaving : DebugScreen
  unknown_debug_command : DebugScreen

unfoldable pub step_screens : ℤ → Bool × Machine → List DebugScreen
step_screens current_pc (active, m) =
    executed current_pc m.cpu.ir m.cpu.ac ∷ (if active then [] else program_halted ∷ [])

unfoldable pub debug_screens : Text → Outside → Machine → List DebugScreen
unfolding step_screens
debug_screens [] o m = step_screens m.cpu.psw.pc (cpu_step o m)
debug_screens (c ∷ rest) o m =
    if same_text (c ∷ rest) (codes "step")
    then step_screens m.cpu.psw.pc (cpu_step o m)
    else if same_text (c ∷ rest) (codes "regs")
    then registers (print_full_registers m.cpu) ∷ []
    else if same_text (c ∷ rest) (codes "quit")
    then leaving ∷ []
    else unknown_debug_command ∷ []

-- All that the loop prints.
unfoldable pub debug_transcript : List (Text × Outside) → Machine → List DebugScreen
unfolding debug_screens debug_line
debug_transcript [] m = []
debug_transcript ((line, o) ∷ lines) m =
    let command = trim_whitespace (cut_newline line) in
    let (going, m') = debug_line command o m in
    let rest = debug_transcript lines m' in
    debug_screens command o m ++ (if going then rest else [])

abbrev pub debug_loaded : List (Text × Outside) → CommandStatus × Machine → CommandStatus × Machine
debug_loaded lines (cmd_success, m) = (cmd_success, debug_loop lines m)
debug_loaded lines (status, m) = (status, m)

unfoldable pub handle_debug_command :
    Host → Text → List (Text × Outside) → Machine → CommandStatus × Machine
handle_debug_command host argument lines m =
    debug_loaded lines (handle_load_command host argument (cpu_reset m))

-- `startMonitorSession` up to its loop, and its end.
unfoldable pub start_monitor_session : Bool → Machine → CommandStatus × Machine
start_monitor_session raw_mode m =
    if raw_mode
    then (cmd_success, record m { monitor_active = true })
    else (cmd_runtime_error, record m { monitor_active = false })

unfoldable pub end_monitor_session : Machine → Machine
end_monitor_session m = record m { monitor_active = false }

pub data Command : Type 0 where
  run debug shutdown restart list_files help monitor ps memstat diskstat unknown : Command

-- The chain of `strcmp`.
unfoldable pub command_of : Text → Command
command_of c =
    if same_text c (b'r' ∷ b'u' ∷ b'n' ∷ [])
    then run
    else if same_text c (b'd' ∷ b'e' ∷ b'b' ∷ b'u' ∷ b'g' ∷ [])
    then debug
    else if same_text c (b's' ∷ b'h' ∷ b'u' ∷ b't' ∷ b'd' ∷ b'o' ∷ b'w' ∷ b'n' ∷ [])
    then shutdown
    else if same_text c (b'r' ∷ b'e' ∷ b's' ∷ b't' ∷ b'a' ∷ b'r' ∷ b't' ∷ [])
    then restart
    else if same_text c (b'l' ∷ b'i' ∷ b's' ∷ b't' ∷ [])
    then list_files
    else if same_text c (b'h' ∷ b'e' ∷ b'l' ∷ b'p' ∷ [])
    then help
    else if same_text c (b'm' ∷ b'o' ∷ b'n' ∷ b'i' ∷ b't' ∷ b'o' ∷ b'r' ∷ [])
    then monitor
    else if same_text c (b'p' ∷ b's' ∷ [])
    then ps
    else if same_text c (b'm' ∷ b'e' ∷ b'm' ∷ b's' ∷ b't' ∷ b'a' ∷ b't' ∷ [])
    then memstat
    else if same_text c (b'd' ∷ b'i' ∷ b's' ∷ b'k' ∷ b's' ∷ b't' ∷ b'a' ∷ b't' ∷ [])
    then diskstat
    else unknown

-- The messages with which the loop refuses a line
pub data Complaint : Type 0 where
  too_many_arguments missing_arguments unknown_command : Complaint

-- What a line leads to: nothing, a refusal, a status, the statuses of the creations, a table, the names
-- of the files, the manual, or the end of the session.
pub data Reply : Type 0 where
  blank : Reply
  refused : Complaint → Reply
  done : CommandStatus → Reply
  ran : List OsStatus → Reply
  processes : List ProcessRow → Reply
  memory : List BlockRow → ℕ → Reply
  disk : DiskReport → Reply
  files : CommandStatus → List Text → Reply
  manual : List (Text × Text) → Reply
  closed : Reply

-- The argument of `debug` is used also where their number is wrong.
abbrev pub first_argument : Text → List Text → Text
first_argument stale [] = stale
first_argument stale (a ∷ args) = a

abbrev pub on_machine : System → CommandStatus × Machine → Reply × System
on_machine s (status, m) = (done status, record s { machine = m })

-- The command's branch, once the number of its arguments has passed.
unfoldable pub obey : Command → Terminal → List Text → System → Reply × System
obey run t args s = let (statuses, s') = create_all t.host args s in (ran statuses, s')
obey debug t args s =
    on_machine s
      (handle_debug_command t.host (first_argument t.stale_argument args) t.debug_lines s.machine)
obey shutdown t args s = (closed, s)
obey restart t args s = (done cmd_success, record s { machine = handle_restart_command s.machine })
obey list_files t args s =
    let (status, names) = print_files_list t.directory in (files status names, s)
obey help t args s = (manual print_help_list, s)
obey monitor t args s = on_machine s (start_monitor_session t.raw_mode s.machine)
obey ps t args s = (processes (process_rows max_processes 0 s.machine.table), s)
obey memstat t args s = (
  memory (block_rows max_processes 0 s.machine.free_partitions)
      (memory_usage s.machine.free_partitions),
  s,
)
obey diskstat t args s = (disk (disk_report s.vfs), s)
obey unknown t args s = (refused unknown_command, s)

-- The check of the number of arguments; `none` to go on. A wrong number is only reported for `debug`.
unfoldable pub check_arguments : Command → ℕ → Option Complaint
check_arguments run n =
    if ltb max_processes n
    then some too_many_arguments
    else if n == 0
    then some missing_arguments
    else none
check_arguments debug n = none
check_arguments unknown n = none
check_arguments _ n = if ltb 0 n then some too_many_arguments else none

abbrev pub checked : Option Complaint → Reply × System → System → Reply × System
checked none result s = result
checked (some complaint) result s = (refused complaint, s)

abbrev pub on_parsed : Terminal → Parsed → System → Reply × System
on_parsed t p s =
    let c = command_of p.command in
    checked (check_arguments c (length p.args)) (obey c t p.args s) s

-- One round of the loop of `consoleStart`.
unfoldable pub console_line : Terminal → Text → System → Reply × System
console_line t input s = elim (parse_input input).status [
  | cmd_empty ↦ (blank, s)
  | _ ↦ on_parsed t (parse_input input) s
]
