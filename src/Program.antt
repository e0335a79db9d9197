-- ===== src/Program.antt =====
-- The program's entry (src/main.c): the start of its parts, the threads' work until the console
-- returns, and the exit code. `initOS` never fails; whether the kernel's thread can be made comes from
-- outside. What the threads still do between the return of the console and `osStop` is left out.
use project_lucario.Base.{ℕ, Bool, List, [], ◌∷◌, if◌then◌else◌}
use project_lucario.Machine.{Text, Outside, os_success}
use project_lucario.Dma.{dma_round}
use project_lucario.Scheduler.{scheduler_tick}
use project_lucario.Step.{worker_round}
use project_lucario.Core.{System, init_os}
use project_lucario.Threads.{os_start}
use project_lucario.Console.{
  Terminal, ConsoleStatus, console_runtime_error, console_success, console_line, command_of,
  parse_input, after_command, is_closed,
}

-- What one of the threads does: the first tick and the rounds of the kernel's thread, a transfer of
-- the DMA controller, and a line at the console.
pub data Event : Type 0 where
  first_tick : Event
  work_round : Outside → Event
  dma_transfer : Event
  typed_line : Terminal → Text → Event

-- The threads' work, in the order of the list, until the console returns. At the end of the list the
-- input has ended.
unfoldable pub run_threads : List Event → System → ConsoleStatus × System
run_threads [] s = (console_runtime_error, s)
run_threads (first_tick ∷ es) s = run_threads es (record s { machine = scheduler_tick s.machine })
run_threads (work_round o ∷ es) s = run_threads es (record s { machine = worker_round o s.machine })
run_threads (dma_transfer ∷ es) s = run_threads es (record s { machine = dma_round s.machine })
run_threads (typed_line t input ∷ es) s =
    let (reply, s') = console_line t input s in
    let s'' = after_command (command_of (parse_input input).command) reply s' in
    let rest = run_threads es s'' in if is_closed reply then (console_success, s'') else rest

-- The exit code, and the system at the end. The one at the start is that of the static variables.
unfoldable pub main : Bool → List Event → System → ℕ × System
unfolding run_threads
main created events s =
    let booted : System = record s { machine = init_os s.machine } in
    elim (os_start created).0 [
      | os_success ↦ (0, (run_threads events booted).1)
      | other ↦ (1, booted)
    ]
