-- ===== src/Kernel/Steps.antt =====
-- The steps of the system: the rounds of the kernel's thread, the lines of the console and the end of
-- its monitor session, and the transfers of the DMA controller (src/kernel/core.c, src/console.c,
-- src/hardware/dma.c). Each step is taken as a whole, but a creation may also take turns with the
-- rounds of the kernel's thread and of the DMA controller, and a `run` of several programs may be
-- interrupted between two of them.
use project_lucario.Base.{refl}
use project_lucario.Machine.{Text, Outside, OsStatus}
use project_lucario.Dma.{dma_round}
use project_lucario.Scheduler.{scheduler_tick}
use project_lucario.Step.{worker_round}
use project_lucario.Vfs.{Host}
use project_lucario.Core.{System, create_process, init_os}
use project_lucario.Core.Phases.{returned}
use project_lucario.Console.{Terminal, console_line, end_monitor_session}
use project_lucario.Kernel.Frame.{tables-dma_round}
use project_lucario.Kernel.Owners.{IsSound}
use project_lucario.Kernel.Rounds.{scheduler_tick-IsSound, worker_round-IsSound}
use project_lucario.Kernel.Admission.{IsSound-tables, create_process-IsSound, init_os-IsSound}
use project_lucario.Kernel.Interleaving.{Reaches, Reaches-IsSound}
use project_lucario.Kernel.Session.{console_line-IsSound}

-- What the program's threads do, one step at a time.
pub data KernelStep : System → System → Type 0 where
  start : (s : System) → KernelStep s (record s { machine = scheduler_tick s.machine })
  work : (o : Outside) (s : System) → KernelStep s (record s { machine = worker_round o s.machine })
  create : (host : Host) (name : Text) (s : System) → KernelStep s (create_process host name s).1
  create_amid :
      (host : Host) (name : Text) (s t : System) (status : OsStatus)
      → Reaches host name s (returned status, t)
      → KernelStep s t
  transfer : (s : System) → KernelStep s (record s { machine = dma_round s.machine })
  enter : (t : Terminal) (input : Text) (s : System) → KernelStep s (console_line t input s).1
  leave : (s : System) → KernelStep s (record s { machine = end_monitor_session s.machine })

-- The systems that any number of steps leads to from a start of the kernel.
pub data IsReachable : System → Type 0 where
  boot : (s : System) → IsReachable (record s { machine = init_os s.machine })
  step : {s t : System} → IsReachable s → KernelStep s t → IsReachable t

KernelStep-IsSound : {s t : System} → KernelStep s t → IsSound s.machine → IsSound t.machine
unfolding end_monitor_session
KernelStep-IsSound (start s) v = scheduler_tick-IsSound s.machine v.partitioned
KernelStep-IsSound (work o s) v = worker_round-IsSound o s.machine v
KernelStep-IsSound (create host name s) v = create_process-IsSound host name s v
KernelStep-IsSound (create_amid host name s t status r) v = Reaches-IsSound host name s t status v r
KernelStep-IsSound (transfer s) v = IsSound-tables s.machine _ (tables-dma_round s.machine) v
KernelStep-IsSound (enter t input s) v = console_line-IsSound t input s v
KernelStep-IsSound (leave s) v = IsSound-tables s.machine _ refl v

-- After any sequence of steps from a start of the kernel (rounds of its thread, creations, with or
-- without rounds between their steps, lines of the console, ends of a monitor session, transfers) each
-- live process holds its own run of occupied blocks, every occupied block belongs to a live process,
-- and the process that runs is alive.
pub IsReachable-IsSound : (s : System) → IsReachable s → IsSound s.machine
IsReachable-IsSound s (boot s0) = init_os-IsSound s0.machine
IsReachable-IsSound s (step r st) = KernelStep-IsSound st (IsReachable-IsSound _ r)
