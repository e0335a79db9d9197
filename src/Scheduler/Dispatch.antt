-- ===== src/Scheduler/Dispatch.antt =====
-- Which process a tick of the scheduler (src/kernel/scheduler.c) gives the processor to, and with which
-- registers.
use project_lucario.Base.{
  ℕ, ◌+◌, ◌%◌, ◌<◌, ◌≡◌, ◌≢◌, refl, sym, ◌⊎◌, inl, inr, ap, ◌∙◌, subst, arith, Bool, true, false,
  ◌&&◌, ◌||◌, Option, none, some, ◌==◌, ==_iff, if◌then◌else◌, Bool-cases, Option-cases,
}
use project_lucario.Base.Int.{pos, ltb_ℤ, eqb_ℤ, sub32}
use project_lucario.Machine.{
  Machine, Pcb, Cpu, max_processes, is_ready, is_executing, is_blocked, is_blocked_io, executing,
}
use project_lucario.Scheduler.{scheduler_tick, settled, wake_one, unblock_one, suspend, start_index}
use project_lucario.Scheduler.Table.{slot}
use project_lucario.Scheduler.RoundRobin.{
  settled_lem, woken, is_current, chosen, Picked-chosen, tick_some, tick_none, scheduler_tick_idle,
}

-- A process that can run is READY, or EXECUTING and the current one, or asleep at its last tic, or
-- waiting for the monitor while the monitor is open.
abbrev pub is_runnable : Bool → Bool → Pcb → Bool
is_runnable current monitor p =
    is_ready p.state
    || (is_executing p.state && current)
    || (is_blocked p.state
        && ltb_ℤ (pos 0) p.sleep_tics
        && eqb_ℤ (sub32 p.sleep_tics (pos 1)) (pos 0))
    || (is_blocked_io p.state && monitor)

abbrev pub can_run : Machine → ℕ → Bool
can_run m j = is_runnable (is_current m.current j) m.monitor_active (m.table j)

-- The registers of a process: those of the processor, if it is the current one, and else the saved ones.
abbrev pub registers : Machine → ℕ → Cpu
registers m j = if is_current m.current j then m.cpu else (m.table j).context

-- The entries in the order of the round robin: from the one behind the current one on, round the table,
-- or from the first on if no process is current.
abbrev pub turn : Option ℕ → ℕ → ℕ
turn none d = d
turn (some c) d = (c + 1 + d) % max_processes

slot-turn :
    (current : Option ℕ) (d : ℕ) → d < max_processes → slot (start_index current) d ≡ turn current d
slot-turn none d h = omega arith
slot-turn (some c) d h = omega arith

is_runnable-suspended :
    (current monitor : Bool) (cpu : Cpu) (p : Pcb)
    → is_ready (if current then suspend cpu (woken monitor p) else woken monitor p).state
      ≡ is_runnable current monitor p
unfolding wake_one unblock_one suspend
is_runnable-suspended current monitor cpu p = ground arith

context-suspended :
    (current monitor : Bool) (cpu : Cpu) (p : Pcb)
    → (if current then suspend cpu (woken monitor p) else woken monitor p).context
      ≡ (if current then cpu else p.context)
unfolding wake_one unblock_one suspend
context-suspended current monitor cpu p = ground arith

can_run-settled :
    (m : Machine) (j : ℕ) → j < max_processes → is_ready (settled m j).state ≡ can_run m j
can_run-settled m j h =
    ap (λ (p : Pcb). is_ready p.state) (settled_lem m j h)
    ∙ is_runnable-suspended (is_current m.current j) m.monitor_active m.cpu (m.table j)

registers-settled :
    (m : Machine) (j : ℕ) → j < max_processes → (settled m j).context ≡ registers m j
registers-settled m j h =
    ap (λ (p : Pcb). p.context) (settled_lem m j h)
    ∙ context-suspended (is_current m.current j) m.monitor_active m.cpu (m.table j)

-- The tick has given the processor to entry `k`, the first in the order that can run.
abbrev pub RunsFirst : Machine → ℕ → Machine → Type 0
RunsFirst m k m' =
    (m'.current ≡ some k)
    × ((m'.table k).state ≡ executing)
    × (m'.cpu ≡ registers m k)
    × (can_run m k ≡ true)
    × ((d : ℕ) × (d < max_processes)
        × (k ≡ turn m.current d)
        × ((e : ℕ) → e < d → can_run m (turn m.current e) ≡ false))

-- The tick has found no process, and leaves the processor its registers.
abbrev pub Idles : Machine → Machine → Type 0
Idles m m' =
    (m'.current ≡ none) × (m'.cpu ≡ m.cpu) × ((j : ℕ) → j < max_processes → can_run m j ≡ false)

runs_first : (m : Machine) {k : ℕ} → chosen m ≡ some k → RunsFirst m k (scheduler_tick m)
runs_first m {k} e =
    let (d, ek, lo, hi, r, first) = Picked-chosen m e in
    let h : k < max_processes = omega arith in
    rw (tick_some m e) (
      refl,
      ground arith,
      registers-settled m k h,
      sym (can_run-settled m k h) ∙ r,
      (
        d,
        omega arith,
        ek ∙ slot-turn m.current d (omega arith),
        λ x lt.
            subst (λ j. can_run m j ≡ false) (slot-turn m.current x (omega arith))
              (sym (can_run-settled m (slot (start_index m.current) x) (omega arith))
                ∙ first x (omega arith) (omega arith)),
      ),
    )

idles : (m : Machine) → chosen m ≡ none → Idles m (scheduler_tick m)
idles m e =
    let stopped : (scheduler_tick m).current ≡ none =
      ap (λ (x : Machine). x.current) (tick_none m e) in
    (
      stopped,
      ap (λ (x : Machine). x.cpu) (tick_none m e),
      λ j h. sym (can_run-settled m j h) ∙ scheduler_tick_idle m j h stopped,
    )

entry-tick :
    (m : Machine) (j : ℕ)
    → j < max_processes
    → (((scheduler_tick m).table j).context ≡ registers m j)
      × ((scheduler_tick m).current ≢ some j
          → is_ready ((scheduler_tick m).table j).state ≡ can_run m j)
entry-tick m j h = elim (Option-cases (chosen m)) [
  | inl e ↦ rw (tick_none m e) (registers-settled m j h, λ ne. can_run-settled m j h)
  | inr (k, e) ↦ elim (Bool-cases (j == k)) [
    | inl same ↦
        let q = (==_iff j k).0 same in
        rw (tick_some m e, same)
          (
            ap (λ i. (settled m i).context) (sym q) ∙ registers-settled m j h,
            λ ne. absurd (ne (ap some (sym q))),
          )
    | inr other ↦ rw (tick_some m e, other) (registers-settled m j h, λ ne. can_run-settled m j h)
  ]
]

-- A tick gives the processor to the first process that can run (READY, EXECUTING and current, at the
-- last of its tics, or waiting for a monitor that is open) in the order from the entry behind the
-- current one round the table: it is EXECUTING, and the processor has its registers. If no process
-- can run, none is current, and the processor keeps its registers. In either case the entry of each
-- process holds its registers, those of the processor for the one that was current, and of those that
-- do not run the ones that could are READY, and no others.
pub scheduler_tick-dispatches :
    (m : Machine)
    → (((k : ℕ) × (k < max_processes) × RunsFirst m k (scheduler_tick m))
        ⊎ Idles m (scheduler_tick m))
      × ((j : ℕ)
          → j < max_processes
          → (((scheduler_tick m).table j).context ≡ registers m j)
            × ((scheduler_tick m).current ≢ some j
                → is_ready ((scheduler_tick m).table j).state ≡ can_run m j))
scheduler_tick-dispatches m = (
  elim (Option-cases (chosen m)) [
    | inl e ↦ inr (idles m e)
    | inr (k, e) ↦
        let (d, ek, lo, hi, r, first) = Picked-chosen m e in inl (k, omega arith, runs_first m e)
  ],
  λ j h. entry-tick m j h,
)
