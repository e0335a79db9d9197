-- ===== src/Kernel/Entry.antt =====
-- The program from its entry to its end (src/main.c): what it does is steps of the system.
use project_lucario.Base.{Bool, true, false, List, [], ◌∷◌, if◌then◌else◌}
use project_lucario.Threads.{os_start}
use project_lucario.Core.{System}
use project_lucario.Console.{
  Command, Reply, cmd_success, monitor, done, after_command, is_closed, console_success,
  console_line, command_of, parse_input,
}
use project_lucario.Program.{
  Event, first_tick, work_round, dma_transfer, typed_line, run_threads, main,
}
use project_lucario.Kernel.Owners.{IsSound}
use project_lucario.Kernel.Steps.{
  IsReachable, boot, step, start, work, transfer, enter, leave, IsReachable-IsSound,
}

after_command-IsReachable :
    (c : Command) (r : Reply) (s : System) → IsReachable s → IsReachable (after_command c r s)
after_command-IsReachable monitor (done cmd_success) s v = step v (leave s)
after_command-IsReachable _ _ s v = v

run_threads-IsReachable :
    (es : List Event) (s : System) → IsReachable s → IsReachable (run_threads es s).1
unfolding run_threads
run_threads-IsReachable [] s v = v
run_threads-IsReachable (first_tick ∷ es) s v = run_threads-IsReachable es _ (step v (start s))
run_threads-IsReachable (work_round o ∷ es) s v = run_threads-IsReachable es _ (step v (work o s))
run_threads-IsReachable (dma_transfer ∷ es) s v = run_threads-IsReachable es _ (step v (transfer s))
run_threads-IsReachable (typed_line t input ∷ es) s v =
    by_reply (is_closed (console_line t input s).0) (run_threads-IsReachable es after ended)
  where
    after : System
    after =
        after_command (command_of (parse_input input).command) (console_line t input s).0
          (console_line t input s).1

    ended : IsReachable after
    ended = after_command-IsReachable _ _ _ (step v (enter t input s))

    by_reply :
        (b : Bool)
        → IsReachable (run_threads es after).1
        → IsReachable (if b then (console_success, after) else run_threads es after).1
    by_reply true h = ended
    by_reply false h = h

-- Whatever the threads do, and in whatever order, until the console returns, the program has made
-- steps of the system from a start of the kernel.
main-IsReachable :
    (created : Bool) (es : List Event) (s : System) → IsReachable (main created es s).1
unfolding main os_start
main-IsReachable true es s = run_threads-IsReachable es _ (boot s)
main-IsReachable false es s = boot s

-- So the invariant of the tables holds at the program's end.
pub main-IsSound :
    (created : Bool) (es : List Event) (s : System) → IsSound (main created es s).1.machine
main-IsSound created es s = IsReachable-IsSound _ (main-IsReachable created es s)
