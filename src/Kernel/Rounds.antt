-- ===== src/Kernel/Rounds.antt =====
-- A round of the kernel's thread (src/kernel/core.c, `cpuThreadWorker`) keeps the blocks with their
-- processes.
use project_lucario.Base.{
  ℕ, ◌<◌, ◌≡◌, refl, sym, ap, ◌∙◌, subst, arith, Bool, true, false, Option, none, some, ◌==◌,
  ==_iff, update, update_self, not, Bool-cases, Option-cases, inl, inr, if◌then◌else◌,
}
use project_lucario.Base.Int.{pos, pos_part}
use project_lucario.Machine.{
  Machine, Pcb, Cpu, Outside, max_processes, finished, executing, OsStatus,
}
use project_lucario.Mmu.{Partitions, free_memory, fill_blocks}
use project_lucario.Mmu.FirstFit.{fill_blocks_lem, free_memory_fills}
use project_lucario.Scheduler.{scheduler_tick, settled, wake_one, unblock_one, suspend}
use project_lucario.Scheduler.RoundRobin.{
  settled_lem, woken, is_current, chosen, Picked-chosen, tick_some, tick_none,
}
use project_lucario.Step.{end_process, worker_round, cpu_step, set_yield}
use project_lucario.Kernel.Owners.{
  is_live, holds, HasRun, IsPartitioned, IsPartitioned-same, IsSound, RunsLive, SameHolding,
  SameHolding-trans,
}
use project_lucario.Kernel.Keeping.{Kept, Kept-cpu_step, RunsLive-Kept}
use project_lucario.Kernel.Transfers.{IsPartitioned-release}

SameHolding-woken : (b : Bool) (p : Pcb) → SameHolding (woken b p) p
unfolding wake_one unblock_one
SameHolding-woken b p = record { live = ground arith; start = ground arith; count = ground arith }

SameHolding-suspend : (cpu : Cpu) (p : Pcb) → SameHolding (suspend cpu p) p
unfolding suspend
SameHolding-suspend cpu p = record {
  live = ground arith;
  start = ground arith;
  count = ground arith;
}

SameHolding-settled :
    (m : Machine) (j : ℕ) → j < max_processes → SameHolding (settled m j) (m.table j)
SameHolding-settled m j h = rw (settled_lem m j h) (settled_entry (is_current m.current j))
  where
    settled_entry :
        (b : Bool)
        → SameHolding
            (if b
              then suspend m.cpu (woken m.monitor_active (m.table j))
              else woken m.monitor_active (m.table j))
            (m.table j)
    settled_entry true =
        SameHolding-trans (SameHolding-suspend m.cpu (woken m.monitor_active (m.table j)))
          (SameHolding-woken m.monitor_active (m.table j))
    settled_entry false = SameHolding-woken m.monitor_active (m.table j)

SameHolding-dispatched :
    (m : Machine) (k j : ℕ)
    → j < max_processes
    → is_live (settled m k) ≡ true
    → SameHolding (update (settled m) k (record (settled m k) { state = executing }) j) (m.table j)
SameHolding-dispatched m k j h l = elim (Bool-cases (j == k)) [
  | inl e ↦
      let s = SameHolding-settled m k (subst (λ x. x < max_processes) ((==_iff j k).0 e) h) in
      let dispatched : SameHolding (record (settled m k) { state = executing }) (m.table k) =
        record { live = sym l ∙ s.live; start = s.start; count = s.count } in
      subst
        (λ x.
          SameHolding (update (settled m) k (record (settled m k) { state = executing }) x)
            (m.table x))
        (sym ((==_iff j k).0 e))
        (subst (λ (x : Pcb). SameHolding x (m.table k))
          (sym (update_self (settled m) k (record (settled m k) { state = executing }))) dispatched)
  | inr ne ↦ rw ne (SameHolding-settled m j h)
]

pub free-scheduler_tick : (m : Machine) → (scheduler_tick m).free_partitions ≡ m.free_partitions
free-scheduler_tick m = elim (Option-cases (chosen m)) [
  | inl e ↦ rw (tick_none m e) refl
  | inr (k, e) ↦ rw (tick_some m e) refl
]

-- A tick leaves every entry its life and its blocks.
pub SameHolding-scheduler_tick :
    (m : Machine) (j : ℕ) → j < max_processes → SameHolding ((scheduler_tick m).table j) (m.table j)
SameHolding-scheduler_tick m j h = elim (Option-cases (chosen m)) [
  | inl e ↦ rw (tick_none m e) (SameHolding-settled m j h)
  | inr (k, e) ↦
      let (d, ek, lo, hi, ready, first) = Picked-chosen m e in
      rw (tick_some m e) (SameHolding-dispatched m k j h (ground arith))
]

-- What a tick leaves running is alive.
pub scheduler_tick-RunsLive :
    (m : Machine) → RunsLive (scheduler_tick m).table (scheduler_tick m).current
scheduler_tick-RunsLive m = elim (Option-cases (chosen m)) [
  | inl e ↦ rw (tick_none m e) tt
  | inr (k, e) ↦
      let (d, ek, lo, hi, ready, first) = Picked-chosen m e in
      let alive : is_live (settled m k) ≡ true = ground arith in
      rw (tick_some m e) (omega arith, ground arith)
]

-- A tick keeps the blocks with their processes.
pub scheduler_tick-IsSound :
    (m : Machine) → IsPartitioned m.table m.free_partitions → IsSound (scheduler_tick m)
scheduler_tick-IsSound m v = record {
  partitioned = subst (IsPartitioned (scheduler_tick m).table) (sym (free-scheduler_tick m)) (
      IsPartitioned-same m.table (scheduler_tick m).table m.free_partitions
        (SameHolding-scheduler_tick m) v);
  running = scheduler_tick-RunsLive m;
}

pub end_process-IsPartitioned :
    (k : ℕ) (m : Machine)
    → k < max_processes
    → is_live (m.table k) ≡ true
    → IsPartitioned m.table m.free_partitions
    → IsPartitioned (end_process k m).table (end_process k m).free_partitions
unfolding end_process
end_process-IsPartitioned k m h l v =
    IsPartitioned-release m.table m.free_partitions _ k (record (m.table k) { state = finished }) h
      l refl given v
  where
    run : HasRun (m.table k)
    run = v.runs k h l

    freed :
        (free_memory (m.table k).start_block (m.table k).block_count m.free_partitions).1
        ≡ fill_blocks
            (pos_part (m.table k).block_count)
            (pos_part (m.table k).start_block)
            true
            m.free_partitions
    freed =
        ap (λ z. (free_memory z (m.table k).block_count m.free_partitions).1) run.start
        ∙ ap (λ z. (free_memory (pos (pos_part (m.table k).start_block)) z m.free_partitions).1)
            run.count
        ∙ ap (λ (r : OsStatus × Partitions). r.1)
            (free_memory_fills (pos_part (m.table k).start_block) (pos_part (m.table k).block_count)
              m.free_partitions run.some_block run.inside)

    given :
        (b : ℕ)
        → (free_memory (m.table k).start_block (m.table k).block_count m.free_partitions).1 b
          ≡ (if holds (m.table k) b then true else m.free_partitions b)
    given b =
        ap (λ (f : Partitions). f b) freed
        ∙ fill_blocks_lem (pos_part (m.table k).block_count) (pos_part (m.table k).start_block) true
            m.free_partitions b

pub IsPartitioned-Kept :
    (m m' : Machine)
    → Kept m m'
    → IsPartitioned m.table m.free_partitions
    → IsPartitioned m'.table m'.free_partitions
IsPartitioned-Kept m m' k v =
    subst (IsPartitioned m'.table) (sym k.free)
      (IsPartitioned-same m.table m'.table m.free_partitions (λ j h. k.same j) v)

module _ (k : ℕ) (m m' : Machine) (kept : Kept m m') (v : IsSound m) (h : k < max_processes)
    (l : is_live (m.table k) ≡ true) where
  after_end : IsSound (scheduler_tick (end_process k m'))
  after_end = scheduler_tick-IsSound (end_process k m') (
      end_process-IsPartitioned k m' h ((kept.same k).live ∙ l)
        (IsPartitioned-Kept m m' kept v.partitioned))

  after_step :
      (keep_running : Bool)
      → IsSound (
          if not keep_running
          then scheduler_tick (end_process k m')
          else if m'.os_yield
          then scheduler_tick (set_yield false m')
          else m')
  after_step false = after_end
  after_step true = after_yield m'.os_yield
    where
      after_yield : (b : Bool) → IsSound (if b then scheduler_tick (set_yield false m') else m')
      after_yield true =
          scheduler_tick-IsSound (set_yield false m') (IsPartitioned-Kept m m' kept v.partitioned)
      after_yield false = record {
        partitioned = IsPartitioned-Kept m m' kept v.partitioned;
        running = RunsLive-Kept kept v.running;
      }

-- A round of the worker, whatever the running program does in it, keeps the invariant: each live
-- process holds its run of occupied blocks, no block has two holders, no occupied block is without
-- one, and the current process is alive.
pub worker_round-IsSound : (o : Outside) (m : Machine) → IsSound m → IsSound (worker_round o m)
unfolding worker_round
worker_round-IsSound o m v = round m.current v.running
  where
    round :
        (c : Option ℕ)
        → RunsLive m.table c
        → IsSound (elim c [
          | none ↦ scheduler_tick m
          | some k ↦
              let (keep_running, m') = cpu_step o m in
              if not keep_running
              then scheduler_tick (end_process k m')
              else if m'.os_yield
              then scheduler_tick (set_yield false m')
              else m'
        ])
    round none r = scheduler_tick-IsSound m v.partitioned
    round (some k) r =
        after_step k m (cpu_step o m).1 (Kept-cpu_step o m v.running) v r.0 r.1 (cpu_step o m).0
