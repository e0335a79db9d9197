-- ===== src/Scheduler/RoundRobin.antt =====
-- The guarantees of a scheduler tick (src/kernel/scheduler.c): one process runs, the others keep their
-- turn.
use project_lucario.Base.{
  ℕ, ◌+◌, ◌-◌, ◌%◌, ◌<◌, ◌≡◌, refl, ◌≢◌, ◌⊎◌, inl, inr, ap, ◌∙◌, arith, Bool, true, false, Option,
  none, some, ltb, ◌==◌, ==_iff, update, subst, sym, if◌then◌else◌, Bool-cases, Option-cases,
}
use project_lucario.Machine.{
  Machine, Pcb, Cpu, ProcessTable, max_processes, is_ready, is_executing, executing,
}
use project_lucario.Scheduler.{
  wake_one, unblock_one, each_process, wake_all, suspend, suspend_current, start_index, find_ready,
  settled, scheduler_tick,
}
use project_lucario.Scheduler.Table.{each_process_lem, slot, Picked, find_ready-Picked}

-- One process after the first two loops.
abbrev pub woken : Bool → Pcb → Pcb
woken monitor p = if monitor then unblock_one (wake_one p) else wake_one p

wake_all_lem :
    (monitor : Bool) (table : ProcessTable) (j : ℕ)
    → j < max_processes
    → wake_all monitor table j ≡ woken monitor (table j)
unfolding wake_all
wake_all_lem monitor table j h = ground (
  arith,
  each_process_lem wake_one max_processes 0 table j,
  each_process_lem unblock_one max_processes 0 (each_process wake_one max_processes 0 table) j,
)

abbrev pub is_current : Option ℕ → ℕ → Bool
is_current none j = false
is_current (some k) j = j == k

suspend_current_lem :
    (current : Option ℕ) (cpu : Cpu) (table : ProcessTable) (j : ℕ)
    → suspend_current current cpu table j
      ≡ (if is_current current j then suspend cpu (table j) else table j)
unfolding suspend_current
suspend_current_lem none cpu table j = refl
suspend_current_lem (some k) cpu table j = elim (Bool-cases (j == k)) [
  | inl e ↦ rw (e, (==_iff j k).0 e) refl
  | inr ne ↦ rw ne refl
]

pub settled_lem :
    (m : Machine) (j : ℕ)
    → j < max_processes
    → settled m j ≡ (
        if is_current m.current j
        then suspend m.cpu (woken m.monitor_active (m.table j))
        else woken m.monitor_active (m.table j))
unfolding settled
settled_lem m j h =
    suspend_current_lem m.current m.cpu (wake_all m.monitor_active m.table) j
    ∙ rw (wake_all_lem m.monitor_active m.table j h) refl

-- A process that is ready before a tick is ready when the tick chooses.
ready-settled :
    (m : Machine) (j : ℕ)
    → j < max_processes
    → is_ready (m.table j).state ≡ true
    → is_ready (settled m j).state ≡ true
unfolding wake_one unblock_one suspend
ready-settled m j h r = rw (settled_lem m j h) (ground arith)

-- At most the current process is EXECUTING.
pub record IsAlone (m : Machine) : Type 0 where
  pub alone :
      (j : ℕ) → j < max_processes → is_executing (m.table j).state ≡ true → m.current ≡ some j

not-executing-settled :
    (m : Machine) (j : ℕ) → IsAlone m → j < max_processes → is_executing (settled m j).state ≡ false
unfolding wake_one unblock_one suspend
not-executing-settled m j v h = rw (settled_lem m j h) (ground (arith, v.alone j h))

-- If no entry of the table but the current process's is EXECUTING, a tick leaves it so.
pub scheduler_tick-IsAlone : (m : Machine) → IsAlone m → IsAlone (scheduler_tick m)
unfolding scheduler_tick
scheduler_tick-IsAlone m v = record {
  alone = λ j h e. ground (arith, not-executing-settled m j v h);
}

-- What the tick chooses from.
abbrev pub chosen : Machine → Option ℕ
chosen m = find_ready max_processes (start_index m.current) 0 (settled m)

pub Picked-chosen :
    (m : Machine) {r : Option ℕ}
    → chosen m ≡ r
    → Picked max_processes (start_index m.current) 0 (settled m) r
Picked-chosen m e =
    subst (Picked max_processes (start_index m.current) 0 (settled m)) e
      (find_ready-Picked max_processes (start_index m.current) 0 (settled m))

pub tick_some :
    (m : Machine) {k : ℕ}
    → chosen m ≡ some k
    → scheduler_tick m ≡ record m {
      table = update (settled m) k (record (settled m k) { state = executing });
      current = some k;
      cpu = (settled m k).context;
    }
unfolding scheduler_tick
tick_some m e = rw e refl

pub tick_none :
    (m : Machine)
    → chosen m ≡ none
    → scheduler_tick m ≡ record m { table = settled m; current = none }
unfolding scheduler_tick
tick_none m e = rw e refl

-- A tick that leaves a current process has put it into the state EXECUTING, in the table, with the
-- registers that were saved for it.
pub scheduler_tick_runs :
    (m : Machine) {k : ℕ}
    → (scheduler_tick m).current ≡ some k
    → (k < max_processes)
      × (((scheduler_tick m).table k).state ≡ executing)
      × ((scheduler_tick m).cpu ≡ ((scheduler_tick m).table k).context)
      × ((scheduler_tick m).cpu ≡ (settled m k).context)
scheduler_tick_runs m {k} c = elim (Option-cases (chosen m)) [
  | inl e ↦ absurd (ground (arith, ap (λ (x : Machine). x.current) (tick_none m e)))
  | inr (i, e) ↦
      let same : i ≡ k = ground (arith, ap (λ (x : Machine). x.current) (tick_some m e)) in
      let p = Picked-chosen m e in
      rw (tick_some m e, ← same) (omega (arith, p.1), ground arith, ground arith, refl)
]

-- How many places after the start of the search a process stands.
abbrev pub distance : Option ℕ → ℕ → ℕ
distance current p = (p + max_processes - start_index current) % max_processes

start_index-lt : (current : Option ℕ) → start_index current < max_processes
start_index-lt none = omega arith
start_index-lt (some k) = omega arith

slot-distance :
    (s p : ℕ)
    → s < max_processes
    → p < max_processes
    → slot s ((p + max_processes - s) % max_processes) ≡ p
slot-distance s p hs hp = omega arith

nearer :
    (s p d k : ℕ)
    → s < max_processes
    → p < max_processes
    → k ≡ slot s d
    → d < (p + max_processes - s) % max_processes
    → (p + max_processes - (k + 1) % max_processes) % max_processes
      < (p + max_processes - s) % max_processes
nearer s p d k hs hp e h = omega arith

module _ (m : Machine) (p : ℕ) (h : p < max_processes) (r : is_ready (m.table p).state ≡ true) where
  -- The place of the process in the search holds a READY process.
  ready-at :
      (b : Bool)
      → is_ready (settled m (slot (start_index m.current) (distance m.current p))).state ≡ b
      → b ≡ true
  ready-at b f =
      sym (
        subst (λ k. is_ready (settled m k).state ≡ b)
          (slot-distance (start_index m.current) p (start_index-lt m.current) h) f)
      ∙ ready-settled m p h r

  chosen-before :
      {k : ℕ}
      → chosen m ≡ some k
      → k ≢ p
      → (d : ℕ) × (k ≡ slot (start_index m.current) d) × (d < distance m.current p)
  chosen-before {k} e ne =
      let (d, ek, lo, hi, rk, first) = Picked-chosen m e in
      elim (Bool-cases (ltb d (distance m.current p))) [
        | inl before ↦ (d, ek, ground arith)
        | inr not_before ↦ elim (Bool-cases (d == distance m.current p)) [
          | inl same ↦ absurd (
              ne (
                ek
                ∙ ap (slot (start_index m.current)) ((==_iff _ _).0 same)
                ∙ slot-distance (start_index m.current) p (start_index-lt m.current) h))
          | inr other ↦
              let never =
                ready-at false (first (distance m.current p) (omega arith) (ground arith)) in
              cc
        ]
      ]

-- With a READY process in the table a tick runs that process, or it keeps it READY and brings it
-- nearer to the start of the search.
pub scheduler_tick_fair :
    (m : Machine) (p : ℕ)
    → p < max_processes
    → is_ready (m.table p).state ≡ true
    → ((scheduler_tick m).current ≡ some p)
      ⊎ ((is_ready ((scheduler_tick m).table p).state ≡ true)
          × (distance (scheduler_tick m).current p < distance m.current p))
scheduler_tick_fair m p h r = elim (Option-cases (chosen m)) [
  | inl e ↦
      let never =
        ready-at m p h r false
          (Picked-chosen m e (distance m.current p) (omega arith) (omega arith)) in
      cc
  | inr (k, e) ↦ elim (Bool-cases (k == p)) [
    | inl same ↦ inl (rw (tick_some m e) (ap some ((==_iff k p).0 same)))
    | inr other ↦
        let (d, ek, before) = chosen-before m p h r e (ground arith) in
        inr (
          rw (tick_some m e) (
            ground (arith, ready-settled m p h r),
            nearer (start_index m.current) p d k (start_index-lt m.current) h ek before,
          ))
  ]
]

-- A tick that leaves no process running has found none READY after the first two loops and the
-- suspension of the current one.
pub scheduler_tick_idle :
    (m : Machine) (p : ℕ)
    → p < max_processes
    → (scheduler_tick m).current ≡ none
    → is_ready (settled m p).state ≡ false
scheduler_tick_idle m p h c = elim (Option-cases (chosen m)) [
  | inl e ↦
      subst (λ k. is_ready (settled m k).state ≡ false)
        (slot-distance (start_index m.current) p (start_index-lt m.current) h)
        (Picked-chosen m e (distance m.current p) (omega arith) (omega arith))
  | inr (k, e) ↦ absurd (ground (arith, ap (λ (x : Machine). x.current) (tick_some m e)))
]
