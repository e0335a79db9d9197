-- ===== src/Kernel/Privacy.antt =====
-- Processes do not reach each other's memory (src/kernel/core.c, src/hardware/cpu.c): a round of the
-- kernel's thread, with the partitions that the kernel has given out.
use project_lucario.Base.{
  ℕ, ◌≤◌, ◌<◌, ◌≡◌, ◌≢◌, ◌⊎◌, inl, inr, refl, ap, ◌∙◌, arith, Bool, true, false, Option, none, some,
  not, subst, if◌then◌else◌,
}
use project_lucario.Base.Int.{pos, pos_part, ◌≤ℤ◌}
use project_lucario.Machine.{
  Machine, Pcb, ProcessTable, Outside, is_kernel, max_processes, os_reserved_size,
}
use project_lucario.Scheduler.{scheduler_tick, settled, dispatch, find_ready, start_index}
use project_lucario.Step.{cpu_step, worker_round, end_process, set_yield}
use project_lucario.Isolation.{IsForeign}
use project_lucario.Isolation.Steps.{IsOrdinary, next_op, cpu_step-isolated}
use project_lucario.Kernel.Owners.{is_live, holds, HasRun, IsSound, RunsLive, first_cell, last_cell}

-- Process `k` runs, in user mode and with the registers of its own blocks.
pub record RunsHome (k : ℕ) (m : Machine) : Type 0 where
  pub chosen : m.current ≡ some k
  pub user : is_kernel m.cpu.psw.mode ≡ false
  pub base : m.cpu.rb ≡ pos (first_cell (m.table k))
  pub limit : m.cpu.rl ≡ pos (last_cell (m.table k))

-- A cell of another live process.
pub record IsOthers (k i : ℕ) (table : ProcessTable) : Type 0 where
  pub owner : ℕ
  pub in_table : owner < max_processes
  pub live : is_live (table owner) ≡ true
  pub other : k ≢ owner
  pub lower : first_cell (table owner) ≤ i
  pub upper : i ≤ last_cell (table owner)

ram-dispatch :
    (c : Option ℕ) (table : ProcessTable) (m : Machine) → (dispatch c table m).ram ≡ m.ram
unfolding dispatch
ram-dispatch none table m = refl
ram-dispatch (some k) table m = refl

ram-scheduler_tick : (m : Machine) → (scheduler_tick m).ram ≡ m.ram
unfolding scheduler_tick
ram-scheduler_tick m =
    ram-dispatch (find_ready max_processes (start_index m.current) 0 (settled m)) (settled m) m

-- Two runs of blocks that share none share no cell.
apart :
    (p q : Pcb) (i : ℕ)
    → HasRun p
    → HasRun q
    → ((b : ℕ) → holds p b ≡ true → holds q b ≡ true → ⊥)
    → first_cell q ≤ i
    → i ≤ last_cell q
    → first_cell p ≤ i
    → i ≤ last_cell p
    → ⊥
apart p q i rp rq none_shared lo hi lo' hi' = ground (
  arith,
  rp.some_block,
  rq.some_block,
  none_shared (pos_part p.start_block),
  none_shared (pos_part q.start_block),
)

module _ (k i : ℕ) (m : Machine) (v : IsSound m) (home : RunsHome k m) where
  RunsHome-live : (k < max_processes) × (is_live (m.table k) ≡ true)
  RunsHome-live = subst (RunsLive m.table) home.chosen v.running

  at_least : m.cpu.rb ≤ℤ pos i → first_cell (m.table k) ≤ i
  at_least p = let q = subst (λ z. z ≤ℤ pos i) home.base p in omega arith

  at_most : pos i ≤ℤ m.cpu.rl → i ≤ last_cell (m.table k)
  at_most p = let q = subst (λ z. pos i ≤ℤ z) home.limit p in omega arith

  IsForeign-others : IsOthers k i m.table → IsForeign m i
  IsForeign-others h = record {
    user = home.user;
    foreign = λ p.
        apart (m.table k) (m.table h.owner) i (v.partitioned.runs k RunsHome-live.0 RunsHome-live.1)
          (v.partitioned.runs h.owner h.in_table h.live)
          (λ b hk hj. h.other (
            v.partitioned.disjoint k h.owner b RunsHome-live.0 h.in_table RunsHome-live.1 h.live hk
              hj))
          h.lower h.upper (at_least p.0) (at_most p.1);
  }

  IsForeign-kernel : i < os_reserved_size → IsForeign m i
  IsForeign-kernel h = record {
    user = home.user;
    foreign = λ p. absurd (omega (arith, at_least p.0));
  }

-- After the step nothing more is written to memory.
ram-after_step :
    (k : ℕ) (going yields : Bool) (x : Machine)
    → (if not going
        then scheduler_tick (end_process k x)
        else if yields
        then scheduler_tick (set_yield false x)
        else x).ram
      ≡ x.ram
unfolding end_process
ram-after_step k false yields x = ram-scheduler_tick (end_process k x)
ram-after_step k true true x = ram-scheduler_tick (set_yield false x)
ram-after_step k true false x = refl

-- Where the invariant of the tables holds, a round in which a process runs in user mode within its own
-- blocks, and fetches any instruction but CHMOD, STRRB, STRRL and SDMAON, changes no cell of the
-- kernel's part of memory and none of another live process.
pub worker_round-private :
    (o : Outside) (k i : ℕ) (m : Machine)
    → IsSound m
    → RunsHome k m
    → IsOrdinary (next_op m)
    → (i < os_reserved_size) ⊎ IsOthers k i m.table
    → (worker_round o m).ram i ≡ m.ram i
unfolding worker_round
worker_round-private o k i m v home h c = round m.current
  where
    foreign : IsForeign m i
    foreign = elim c [
      | inl kernel ↦ IsForeign-kernel k i m v home kernel
      | inr others ↦ IsForeign-others k i m v home others
    ]

    round :
        (running : Option ℕ)
        → (elim running as (λ _. Machine) [
          | none ↦ scheduler_tick m
          | some p ↦
              let (keep_running, x) = cpu_step o m in
              if not keep_running
              then scheduler_tick (end_process p x)
              else if x.os_yield
              then scheduler_tick (set_yield false x)
              else x
        ]).ram
            i
          ≡ m.ram i
    round none = ap (λ r. r i) (ram-scheduler_tick m)
    round (some p) =
        ap (λ r. r i) (ram-after_step p (cpu_step o m).0 (cpu_step o m).1.os_yield (cpu_step o m).1)
        ∙ cpu_step-isolated i o m h foreign
