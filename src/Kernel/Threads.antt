-- ===== src/Kernel/Threads.antt =====
-- The whole run of the kernel's thread (src/kernel/core.c, `cpuThreadWorker`).
use project_lucario.Base.{Bool, true, false, List, [], ◌∷◌, if◌then◌else◌}
use project_lucario.Machine.{Machine, Outside}
use project_lucario.Step.{worker_round}
use project_lucario.Threads.{worker_loop, cpu_thread_worker}
use project_lucario.Kernel.Owners.{IsSound}
use project_lucario.Kernel.Rounds.{worker_round-IsSound, scheduler_tick-IsSound}

worker_loop-IsSound :
    (rounds : List (Bool × Outside)) (m : Machine) → IsSound m → IsSound (worker_loop rounds m)
unfolding worker_loop
worker_loop-IsSound [] m v = v
worker_loop-IsSound ((os_running, o) ∷ rounds) m v =
    by_flag os_running (worker_loop-IsSound rounds (worker_round o m) (worker_round-IsSound o m v))
  where
    by_flag :
        (b : Bool)
        → IsSound (worker_loop rounds (worker_round o m))
        → IsSound (if b then worker_loop rounds (worker_round o m) else m)
    by_flag true h = h
    by_flag false h = v

-- A run of the thread, of any length, keeps the invariant of the kernel.
pub cpu_thread_worker-IsSound :
    (rounds : List (Bool × Outside)) (m : Machine)
    → IsSound m
    → IsSound (cpu_thread_worker rounds m)
unfolding cpu_thread_worker
cpu_thread_worker-IsSound rounds m v =
    worker_loop-IsSound rounds _ (scheduler_tick-IsSound m v.partitioned)
