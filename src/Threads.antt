-- ===== src/Threads.antt =====
-- The kernel's thread (src/kernel/core.c): `osStart`, `osStop` and the loop of `cpuThreadWorker`. The
-- thread's life is the flag `osRunning`, which it reads before each round; whether `pthread_create`
-- and `pthread_join` succeed comes from outside.
use project_lucario.Base.{Bool, true, false, List, [], ◌∷◌, if◌then◌else◌}
use project_lucario.Machine.{Machine, Outside, OsStatus, os_success, os_err_thread}
use project_lucario.Scheduler.{scheduler_tick}
use project_lucario.Step.{worker_round}

-- The status, and `osRunning`: it stays set where no thread could be made.
unfoldable pub os_start : Bool → OsStatus × Bool
os_start created = (if created then os_success else os_err_thread, true)

unfoldable pub os_stop : Bool → OsStatus × Bool
os_stop joined = (if joined then os_success else os_err_thread, false)

-- The loop, with what it reads of `osRunning` before each round.
unfoldable pub worker_loop : List (Bool × Outside) → Machine → Machine
worker_loop [] m = m
worker_loop ((os_running, o) ∷ rounds) m =
    let later = worker_loop rounds (worker_round o m) in if os_running then later else m

unfoldable pub cpu_thread_worker : List (Bool × Outside) → Machine → Machine
unfolding worker_loop
cpu_thread_worker rounds m = worker_loop rounds (scheduler_tick m)
