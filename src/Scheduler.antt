-- ===== src/Scheduler.antt =====
-- The round-robin scheduler (src/kernel/scheduler.c).
pub mod Table
pub mod RoundRobin
pub mod Dispatch
pub mod Waiting
use project_lucario.Base.{
  ℕ, zero, suc, ◌+◌, ◌%◌, Bool, true, false, ◌&&◌, Option, none, some, update, if◌then◌else◌,
}
use project_lucario.Base.Int.{ℤ, pos, ltb_ℤ, eqb_ℤ, sub32}
use project_lucario.Machine.{
  Machine, Pcb, ProcessTable, Cpu, ProcessState, ready, executing, is_ready, is_executing,
  is_blocked, is_blocked_io, max_processes,
}

-- One round of the first loop: a sleeping process has one tic less, and wakes at the last one.
unfoldable pub wake_one : Pcb → Pcb
wake_one p =
    if is_blocked p.state && ltb_ℤ (pos 0) p.sleep_tics
    then (let tics = sub32 p.sleep_tics (pos 1) in
        if eqb_ℤ tics (pos 0)
        then record p { sleep_tics = tics; state = ready }
        else record p { sleep_tics = tics })
    else p

-- One round of the second loop.
unfoldable pub unblock_one : Pcb → Pcb
unblock_one p = if is_blocked_io p.state then record p { state = ready } else p

-- `for (i ...) PROCESS_TABLE[i] = f(PROCESS_TABLE[i])`
unfoldable pub each_process : (Pcb → Pcb) → ℕ → ℕ → ProcessTable → ProcessTable
each_process f zero i table = table
each_process f (suc rounds) i table = each_process f rounds (suc i) (update table i (f (table i)))

-- Both loops.
unfoldable pub wake_all : Bool → ProcessTable → ProcessTable
wake_all monitor_active table =
    let awake = each_process wake_one max_processes 0 table in
    if monitor_active then each_process unblock_one max_processes 0 awake else awake

-- The running process gives up the processor: its context is saved.
unfoldable pub suspend : Cpu → Pcb → Pcb
suspend cpu p = record p { context = cpu; state = if is_executing p.state then ready else p.state }

unfoldable pub suspend_current : Option ℕ → Cpu → ProcessTable → ProcessTable
unfolding suspend
suspend_current none cpu table = table
suspend_current (some k) cpu table = update table k (suspend cpu (table k))

abbrev pub start_index : Option ℕ → ℕ
start_index none = 0
start_index (some k) = (k + 1) % max_processes

-- The first READY process at or after `start + i`, going round the table.
unfoldable pub find_ready : ℕ → ℕ → ℕ → ProcessTable → Option ℕ
find_ready zero start i table = none
find_ready (suc rounds) start i table =
    elim (is_ready (table ((start + i) % max_processes)).state) [
      | true ↦ some ((start + i) % max_processes)
      | false ↦ find_ready rounds start (suc i) table
    ]

-- The chosen process gets the processor; with none the system idles and the registers stay.
unfoldable pub dispatch : Option ℕ → ProcessTable → Machine → Machine
dispatch none table m = record m { table = table; current = none }
dispatch (some k) table m = record m {
  table = update table k (record (table k) { state = executing });
  current = some k;
  cpu = (table k).context;
}

-- The table after the first half of a tick.
unfoldable pub settled : Machine → ProcessTable
settled m = suspend_current m.current m.cpu (wake_all m.monitor_active m.table)

unfoldable pub scheduler_tick : Machine → Machine
unfolding settled dispatch
scheduler_tick m =
    dispatch (find_ready max_processes (start_index m.current) 0 (settled m)) (settled m) m
