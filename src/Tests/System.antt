-- ===== src/Tests/System.antt =====
-- The theorems on the kernel as a whole, its console, its waiting processes and the programs' memory,
-- at concrete inputs.
use project_lucario.Base.{
  ℕ, ◌≤◌, ◌<◌, ◌≡◌, ◌≢◌, refl, arith, true, false, none, some, update, [], ◌∷◌, ◌++◌,
}
use project_lucario.Base.Int.{pos, tdiv, add32, sub32, int32, ◌+ℤ◌, ◌-ℤ◌}
use project_lucario.Machine.{
  Machine, Text, Outside, accepted, ic_syscall, set_pc, max_processes, os_success, is_finished,
  blocked, output,
}
use project_lucario.Words.{word_to_int, int_to_word}
use project_lucario.Memory.{read_memory, write_memory, is_valid_instruction}
use project_lucario.Memory.Refinement.{
  RunsIn, load, store, view, read_memory-view, write_memory-view,
}
use project_lucario.Mmu.{calculate_required_blocks, allocate_memory, allocate_from, mmu_init}
use project_lucario.Scheduler.{each_process}
use project_lucario.Scheduler.Waiting.{ticks, ticks-runs}
use project_lucario.Context.Saving.{HasRoom, saved}
use project_lucario.Syscalls.{monitor_save_history, current_pid, scan_number}
use project_lucario.Step.{service, worker_round}
use project_lucario.Step.Services.{service-print}
use project_lucario.Step.Reading.{service-read}
use project_lucario.Step.Restart.{waiting, service-waits}
use project_lucario.Interrupt.{set_bit}
use project_lucario.Vfs.{
  Host, HostFile, FileMeta, Vfs, vfs_file_exists, vfs_load_to_disk, load_file, vfs_register_file,
  vfs_get_metadata, linear, same_text,
}
use project_lucario.Core.{
  System, create_process, init_os, get_free_pcb_index, free_pcb_from, ensure_loaded,
  create_from_disk, place_process,
}
use project_lucario.Kernel.Owners.{IsSound}
use project_lucario.Kernel.Start.{TakesRun, Starts, create_process-Starts}
use project_lucario.Vfs.Catalog.{entry}
use project_lucario.Kernel.Steps.{work, create, enter, IsReachable, boot, step, IsReachable-IsSound}
use project_lucario.Console.{
  Terminal, parse_input, parsed_of, tokens, is_space, cut_newline, console_line,
}
use project_lucario.Console.{no_key, key, monitor_session}
use project_lucario.Console.Tty.{Termios, raw, change_modes}
use project_lucario.Console.RawMode.{sessions, cut_session, sessions-restore, cut_session-stays_raw}
use project_lucario.Console.Monitor.{presses_escape, closed_if, monitor_session_lem}
use project_lucario.Console.Words.{parse_input_lem}
use project_lucario.Tests.{user_cpu, user_machine, quiet, two_processes, free_pcb}

-- A host with one program of two words.
abbrev pub one_program : HostFile
one_program = record {
  start_pc = pos 1;
  word_count = pos 2;
  program_name = b'p' ∷ [];
  lines = [] ∷ [] ∷ [];
}

abbrev pub one_host : Host
one_host = record { open_file = λ _. some one_program; scan_int = λ _. some (pos 4) }

abbrev pub fresh_vfs : Vfs
fresh_vfs = record { catalog = []; free_place = record { track = 0; cylinder = 0; sector = 0 } }

abbrev pub machine_only : System
machine_only = record { machine = user_machine; vfs = fresh_vfs }

abbrev pub booted : System
booted = record machine_only { machine = init_os user_machine }

abbrev pub with_program : System
with_program = (create_process one_host (b'p' ∷ []) booted).1

-- The line " run  p"
abbrev run_p : Text
run_p = 32 ∷ b'r' ∷ b'u' ∷ b'n' ∷ 32 ∷ 32 ∷ b'p' ∷ 10 ∷ []

abbrev terminal : Terminal
terminal = record {
  host = one_host;
  raw_mode = true;
  directory = none;
  stale_argument = [];
  debug_lines = [];
}

-- A program is created, the worker makes two rounds, and a line is typed.
abbrev busy : System
busy = record with_program {
  machine = worker_round quiet (worker_round quiet with_program.machine);
}

busy-IsReachable : IsReachable (console_line terminal run_p busy).1
busy-IsReachable =
    step
      (step
        (step (step (boot machine_only) (create one_host (b'p' ∷ []) booted))
          (work quiet with_program))
        (work quiet (record with_program { machine = worker_round quiet with_program.machine })))
      (enter terminal run_p busy)

IsReachable-IsSound_example : IsSound (console_line terminal run_p busy).1.machine
IsReachable-IsSound_example =
    IsReachable-IsSound (console_line terminal run_p busy).1 busy-IsReachable

pub creation-success : (create_process one_host (b'p' ∷ []) booted).0 ≡ os_success
unfolding create_process get_free_pcb_index free_pcb_from ensure_loaded vfs_file_exists
    vfs_load_to_disk load_file vfs_register_file create_from_disk vfs_get_metadata place_process
    calculate_required_blocks allocate_memory allocate_from init_os mmu_init each_process linear
    ◌-ℤ◌ ◌+ℤ◌ add32 tdiv same_text sub32
creation-success = refl

-- The entry of the catalogue for the program.
abbrev its_entry : FileMeta
its_entry = entry (b'p' ∷ []) (b'p' ∷ []) fresh_vfs.free_place (pos 2) (pos 1)

catalogued : vfs_get_metadata (b'p' ∷ []) with_program.vfs ≡ some its_entry
unfolding create_process get_free_pcb_index free_pcb_from ensure_loaded vfs_file_exists
    vfs_load_to_disk load_file vfs_register_file create_from_disk vfs_get_metadata place_process
    calculate_required_blocks allocate_memory allocate_from init_os mmu_init each_process linear
    ◌-ℤ◌ ◌+ℤ◌ add32 tdiv same_text sub32
catalogued = refl

create_process-Starts_example :
    (k : ℕ) × (start : ℕ) × (n : ℕ) × (k < max_processes)
    × (is_finished (booted.machine.table k).state ≡ true)
    × TakesRun 2 start n booted.machine.free_partitions with_program.machine.free_partitions
    × Starts 2 start n booted.machine.next_pid its_entry (with_program.machine.table k)
    × ((j : ℕ) → j ≢ k → with_program.machine.table j ≡ booted.machine.table j)
create_process-Starts_example =
    create_process-Starts one_host (b'p' ∷ []) 2 its_entry booted creation-success catalogued refl
      (omega arith)

parse_input_lem_example : parse_input run_p ≡ parsed_of (tokens is_space [] (cut_newline run_p))
parse_input_lem_example = parse_input_lem run_p

ticks-runs_example : (n : ℕ) × (n ≤ max_processes) × ((ticks n user_machine).current ≡ some 4)
ticks-runs_example = ticks-runs user_machine 4 (omega arith) refl

-- Process 6 sleeps for five tics.
abbrev sleeping_machine : Machine
sleeping_machine = record user_machine {
  table = update two_processes 6 (record free_pcb { state = blocked; sleep_tics = pos 5 });
}

user_machine-RunsIn : RunsIn 300 384 user_machine
user_machine-RunsIn = record {
  user = refl;
  base = refl;
  limit = refl;
  order = omega arith;
  inside = omega arith;
}

read_memory-view_example : (read_memory user_machine (pos 5)).1 ≡ load (view 300 384 user_machine) 5
read_memory-view_example = read_memory-view 300 384 5 user_machine user_machine-RunsIn (omega arith)

write_memory-view_example :
    view 300 384 (write_memory (pos 5) (pos 9) user_machine).1
    ≡ store (view 300 384 user_machine) 5 (pos 9)
write_memory-view_example =
    write_memory-view 300 384 5 (pos 9) user_machine user_machine-RunsIn (omega arith)

-- A program with the number of a service in its accumulator.
abbrev calling : ℕ → Machine → Machine
calling service_code m = record m { cpu = record user_cpu { ac = pos service_code } }

calling-HasRoom :
    (service_code : ℕ) (m : Machine)
    → service_code < 10
    → HasRoom 300 384 77 (calling service_code m)
unfolding is_valid_instruction tdiv
calling-HasRoom service_code m h = record {
  place = record { user = refl; base = refl; limit = refl; inside = omega arith };
  stack = refl;
  fits = omega arith;
  ac = ground arith;
  rx = refl;
  pc = refl;
  code = tt;
}

-- A program that calls service 3, and the number 25 at the prompt.
abbrev reading_machine : Machine
reading_machine = calling 3 user_machine

abbrev types_25 : Outside
types_25 = record quiet { typing = accepted (pos 25) }

three : word_to_int reading_machine.cpu.ac ≡ pos 3
unfolding word_to_int
three = refl

typed_valid : is_valid_instruction (int_to_word (int32 (scan_number types_25.typing))).0 ≡ true
unfolding is_valid_instruction tdiv int_to_word int32 scan_number
typed_valid = refl

service-read_example :
    ((service ic_syscall types_25 reading_machine).0 ≡ true)
    × ((service ic_syscall types_25 reading_machine).1.cpu.ac
        ≡ (int_to_word (int32 (scan_number types_25.typing))).0)
service-read_example =
    service-read types_25 300 384 77 reading_machine (calling-HasRoom 3 user_machine (omega arith))
      three refl typed_valid

-- Service 3 with the monitor closed
abbrev waiting_machine : Machine
waiting_machine = calling 3 (record user_machine { monitor_active = false })

service-waits_example : service ic_syscall quiet waiting_machine ≡ (
  true,
  record (waiting 1 (set_pc (pos 2) waiting_machine)) {
    ram = (saved 300 77 (set_pc (pos 2) waiting_machine)).ram;
    pending = set_bit ic_syscall false waiting_machine.pending;
    os_yield = true;
  },
)
service-waits_example =
    service-waits quiet 300 384 77 2 1 waiting_machine
      (calling-HasRoom 3 waiting_machine (omega arith)) refl refl refl (omega arith) three refl

-- Service 2, with the word 41 on top of the stack
abbrev printing_machine : Machine
printing_machine = calling 2 (record user_machine { ram = update user_machine.ram 384 (pos 41) })

two : word_to_int printing_machine.cpu.ac ≡ pos 2
unfolding word_to_int
two = refl

service-print_example : service ic_syscall quiet printing_machine ≡ (
  true,
  monitor_save_history
      (output (current_pid printing_machine) (word_to_int (printing_machine.ram 384)))
      (record printing_machine {
        ram = (saved 300 77 printing_machine).ram;
        pending = set_bit ic_syscall false printing_machine.pending;
      }),
)
service-print_example =
    service-print quiet 300 384 77 printing_machine
      (calling-HasRoom 2 printing_machine (omega arith)) (omega arith) refl two refl

-- No key, then a backspace, then ESC
monitor_session_lem_example :
    monitor_session true (no_key ∷ key 127 ∷ key 27 ∷ []) user_machine
    ≡ closed_if (presses_escape (no_key ∷ key 127 ∷ key 27 ∷ [])) user_machine
monitor_session_lem_example = monitor_session_lem true (no_key ∷ key 127 ∷ key 27 ∷ []) user_machine

-- The settings of a terminal that reads lines.
abbrev cooked : Termios
cooked = record { echo = true; icanon = true; vmin = 1; vtime = 0 }

sessions-restore_example :
    (change_modes
      (sessions (1 ∷ 3 ∷ []))
      (record { settings = cooked; orig_termios = cooked })).settings
    ≡ cooked
sessions-restore_example =
    sessions-restore (1 ∷ 3 ∷ []) (record { settings = cooked; orig_termios = cooked })

cut_session-stays_raw_example :
    (change_modes
      (cut_session 1 ++ sessions (2 ∷ []))
      (record { settings = cooked; orig_termios = cooked })).settings
    ≡ raw cooked
cut_session-stays_raw_example =
    cut_session-stays_raw 1 (2 ∷ []) (record { settings = cooked; orig_termios = cooked })
