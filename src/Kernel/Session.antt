-- ===== src/Kernel/Session.antt =====
-- What the console (src/console.c) can do to the kernel's tables.
use project_lucario.Base.{
  ℕ, zero, suc, ◌+◌, ◌≡◌, refl, ◌∙◌, arith, Bool, true, false, Option, none, some, List, [], ◌∷◌,
  length, not, if◌then◌else◌,
}
use project_lucario.Base.Int.{pos, pos_part, add32, ltb_ℤ}
use project_lucario.Machine.{
  Machine, Text, Outside, MemoryStatus, mem_success, mem_err_out_of_bounds, mem_err_protection,
  mem_err_invalid_data, set_mode, mode_kernel, os_reserved_size, min_stack_size, ram_size,
}
use project_lucario.Memory.{write_memory}
use project_lucario.Step.{cpu_step, cpu_reset}
use project_lucario.Vfs.{Host, HostFile, same_text, read_program_word}
use project_lucario.Vfs.Program.{
  ProgramInfo, write_program, load_program, load_opened, start_program, finish_program, info_of,
  load_file_error,
}
use project_lucario.Core.{System, create_process, handle_restart_command}
use project_lucario.Console.{
  Terminal, Complaint, CommandStatus, cmd_success, handle_load_command, handle_debug_command,
  debug_line, debug_loop, debug_loaded, create_all, obey, console_line, Command,
  start_monitor_session, on_parsed, check_arguments, checked, Reply, command_of, parse_input,
  cmd_empty, blank, run, debug, restart, monitor, first_argument, trim_whitespace, cut_newline,
}
use project_lucario.Kernel.Frame.{tables, tables-write_memory}
use project_lucario.Kernel.Owners.{IsSound, RunsLive}
use project_lucario.Kernel.Keeping.{Kept, Kept-tables, Kept-trans, Kept-cpu_step, RunsLive-Kept}
use project_lucario.Kernel.Rounds.{IsPartitioned-Kept}
use project_lucario.Kernel.Admission.{IsSound-tables, create_process-IsSound, init_os-IsSound}

continued :
    (r : MemoryStatus × Machine) (next : Machine → MemoryStatus × Machine) (m : Machine)
    → tables r.1 ≡ tables m
    → ((x : Machine) → tables (next x).1 ≡ tables x)
    → tables
        (elim r.0 as (λ _. MemoryStatus × Machine) [
          | mem_success ↦ next r.1
          | other ↦ (other, r.1)
        ]).1
      ≡ tables m
continued (mem_success, x) next m h k = k x ∙ h
continued (mem_err_out_of_bounds, x) next m h k = h
continued (mem_err_protection, x) next m h k = h
continued (mem_err_invalid_data, x) next m h k = h

tables-write_program :
    (host : Host) (n a : ℕ) (lines : List Text) (m : Machine)
    → tables (write_program host n a lines m).1 ≡ tables m
unfolding write_program
tables-write_program host zero a lines m = refl
tables-write_program host (suc n) a lines m =
    let (w, rest) = read_program_word host lines in
    continued (write_memory (pos a) w m) (write_program host n (suc a) rest) m
      (tables-write_memory (pos a) w m) (tables-write_program host n (suc a) rest)

tables-finish_program :
    (file : HostFile) (r : MemoryStatus × Machine) → tables (finish_program file r).1 ≡ tables r.1
unfolding start_program
tables-finish_program file r = ground arith

tables-load_opened :
    (host : Host) (file : HostFile) (m : Machine) → tables (load_opened host file m).1 ≡ tables m
unfolding load_opened
tables-load_opened host file m =
    by_size (ltb_ℤ (pos ram_size) (add32 (pos (os_reserved_size + min_stack_size)) file.word_count))
  where
    kernel : Machine
    kernel = set_mode mode_kernel m

    copied : MemoryStatus × Machine
    copied = write_program host (pos_part file.word_count) os_reserved_size file.lines kernel

    by_size :
        (b : Bool)
        → tables
            (if b then (info_of file load_file_error, kernel) else finish_program file copied).1
          ≡ tables m
    by_size true = refl
    by_size false =
        tables-finish_program file copied
        ∙ tables-write_program host (pos_part file.word_count) os_reserved_size file.lines kernel

tables-load_program :
    (host : Host) (path : Text) (m : Machine) → tables (load_program host path m).1 ≡ tables m
unfolding load_program
tables-load_program host path m = by_file (host.open_file path)
  where
    by_file :
        (r : Option HostFile)
        → tables
            (elim r as (λ _. ProgramInfo × Machine) [
              | none ↦ (
                record {
                  start_pc = pos 0;
                  word_count = pos 0;
                  program_name = [];
                  status = load_file_error;
                },
                m,
              )
              | some file ↦ load_opened host file m
            ]).1
          ≡ tables m
    by_file none = refl
    by_file (some file) = tables-load_opened host file m

Kept-load : (host : Host) (path : Text) (m : Machine) → Kept m (handle_load_command host path m).1
unfolding handle_load_command
Kept-load host [] m = Kept-tables m m refl
Kept-load host (c ∷ path) m = Kept-tables m _ (tables-load_program host (c ∷ path) m)

Kept-debug_line :
    (cmd : Text) (o : Outside) (m : Machine)
    → RunsLive m.table m.current
    → Kept m (debug_line cmd o m).1
unfolding debug_line
Kept-debug_line [] o m r = Kept-cpu_step o m r
Kept-debug_line (c ∷ cmd) o m r =
    by_step (same_text (c ∷ cmd) (b's' ∷ b't' ∷ b'e' ∷ b'p' ∷ []))
      (not (same_text (c ∷ cmd) (b'q' ∷ b'u' ∷ b'i' ∷ b't' ∷ [])))
  where
    by_step : (is_step going : Bool) → Kept m (if is_step then cpu_step o m else (going, m)).1
    by_step true going = Kept-cpu_step o m r
    by_step false going = Kept-tables m m refl

Kept-debug_loop :
    (lines : List (Text × Outside)) (m : Machine)
    → RunsLive m.table m.current
    → Kept m (debug_loop lines m)
unfolding debug_loop
Kept-debug_loop [] m r = Kept-tables m m refl
Kept-debug_loop ((line, o) ∷ lines) m r =
    let cmd = trim_whitespace (cut_newline line) in
    let first = Kept-debug_line cmd o m r in
    by_going (debug_line cmd o m).0 (debug_line cmd o m).1 first
      (Kept-debug_loop lines (debug_line cmd o m).1 (RunsLive-Kept first r))
  where
    by_going :
        (going : Bool) (x : Machine)
        → Kept m x
        → Kept x (debug_loop lines x)
        → Kept m (if going then debug_loop lines x else x)
    by_going true x a b = Kept-trans a b
    by_going false x a b = a

IsSound-Kept : (m m' : Machine) → Kept m m' → IsSound m → IsSound m'
IsSound-Kept m m' k v = record {
  partitioned = IsPartitioned-Kept m m' k v.partitioned;
  running = RunsLive-Kept k v.running;
}

debug_loaded-IsSound :
    (lines : List (Text × Outside)) (r : CommandStatus × Machine)
    → IsSound r.1
    → IsSound (debug_loaded lines r).1
debug_loaded-IsSound lines (cmd_success, m) v =
    IsSound-Kept m _ (Kept-debug_loop lines m v.running) v
debug_loaded-IsSound lines (_, m) v = v

handle_debug_command-IsSound :
    (host : Host) (argument : Text) (lines : List (Text × Outside)) (m : Machine)
    → IsSound m
    → IsSound (handle_debug_command host argument lines m).1
unfolding handle_debug_command cpu_reset
handle_debug_command-IsSound host argument lines m v =
    debug_loaded-IsSound lines (handle_load_command host argument (cpu_reset m)) (
      IsSound-Kept (cpu_reset m) _ (Kept-load host argument (cpu_reset m))
        (IsSound-tables m (cpu_reset m) refl v))

create_all-IsSound :
    (host : Host) (names : List Text) (s : System)
    → IsSound s.machine
    → IsSound (create_all host names s).1.machine
unfolding create_all
create_all-IsSound host [] s v = v
create_all-IsSound host (name ∷ names) s v =
    create_all-IsSound host names (create_process host name s).1
      (create_process-IsSound host name s v)

obey-IsSound :
    (c : Command) (t : Terminal) (args : List Text) (s : System)
    → IsSound s.machine
    → IsSound (obey c t args s).1.machine
unfolding obey handle_restart_command start_monitor_session
obey-IsSound run t args s v = create_all-IsSound t.host args s v
obey-IsSound debug t args s v =
    handle_debug_command-IsSound t.host (first_argument t.stale_argument args) t.debug_lines
      s.machine v
obey-IsSound restart t args s v = init_os-IsSound _
obey-IsSound monitor t args s v = IsSound-tables s.machine _ (ground arith) v
obey-IsSound _ t args s v = v

checked-IsSound :
    (check : Option Complaint) (r : Reply × System) (s : System)
    → IsSound r.1.machine
    → IsSound s.machine
    → IsSound (checked check r s).1.machine
checked-IsSound none r s h v = h
checked-IsSound (some _) r s h v = v

-- Whatever line is typed, and whatever the debugger is told then, the invariant holds after it.
pub console_line-IsSound :
    (t : Terminal) (input : Text) (s : System)
    → IsSound s.machine
    → IsSound (console_line t input s).1.machine
unfolding console_line
console_line-IsSound t input s v = by_status (parse_input input).status
  where
    obeyed : IsSound (on_parsed t (parse_input input) s).1.machine
    obeyed =
        let p = parse_input input in
        checked-IsSound (check_arguments (command_of p.command) (length p.args)) _ s
          (obey-IsSound (command_of p.command) t p.args s v) v

    by_status :
        (status : CommandStatus)
        → IsSound
            (elim status as (λ _. Reply × System) [
              | cmd_empty ↦ (blank, s)
              | _ ↦ on_parsed t (parse_input input) s
            ]).1.machine
    by_status cmd_empty = v
    by_status _ = obeyed
