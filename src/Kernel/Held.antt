-- ===== src/Kernel/Held.antt =====
-- An entry of the process table that a creation has made NEW (src/kernel/core.c): no other thread
-- touches it, and the invariant of the tables holds with another entry `q` in its place.
use project_lucario.Base.{
  ℕ, ◌<◌, ◌≡◌, ◌≢◌, refl, sym, ap, ◌∙◌, subst, arith, Bool, true, false, not, Option, none, some,
  ◌==◌, update, update_ne, update-swap, Bool-cases, Option-cases, inl, inr, if◌then◌else◌,
}
use project_lucario.Machine.{
  Machine, Pcb, ProcessTable, Outside, is_ready, max_processes, new, finished,
}
use project_lucario.Mmu.{free_memory}
use project_lucario.Scheduler.{scheduler_tick, settled, wake_one, unblock_one}
use project_lucario.Scheduler.RoundRobin.{
  settled_lem, woken, chosen, tick_some, tick_none, Picked-chosen,
}
use project_lucario.Step.{end_process, worker_round, cpu_step, set_yield}
use project_lucario.Kernel.Frame.{tables}
use project_lucario.Kernel.Owners.{
  is_live, IsPartitioned, IsPartitioned-same, IsSound, RunsLive, SameHolding, SameHolding-refl,
}
use project_lucario.Kernel.Keeping.{Kept, Kept-tables, Kept-cpu_step, RunsLive-Kept}
use project_lucario.Kernel.Saved.{not_current}
use project_lucario.Kernel.Rounds.{
  free-scheduler_tick, scheduler_tick-RunsLive, SameHolding-scheduler_tick,
  end_process-IsPartitioned,
}

-- The machine with another entry.
abbrev pub with_entry : ℕ → Pcb → Machine → Machine
with_entry k q m = record m { table = update m.table k q }

pub record Held (k : ℕ) (p q : Pcb) (m : Machine) : Type 0 where
  pub in_table : k < max_processes
  pub entry : m.table k ≡ p
  pub unfinished : p.state ≡ new
  pub away : m.current ≢ some k
  pub sound : IsSound (with_entry k q m)

woken-new : (b : Bool) (p : Pcb) → p.state ≡ new → woken b p ≡ p
unfolding wake_one unblock_one
woken-new b p e = ground arith

settled-new :
    (m : Machine) (k : ℕ)
    → k < max_processes
    → m.current ≢ some k
    → (m.table k).state ≡ new
    → settled m k ≡ m.table k
settled-new m k h ne e =
    rw (settled_lem m k h, not_current m.current k ne) (woken-new m.monitor_active (m.table k) e)

-- A tick neither chooses a NEW entry nor changes it.
scheduler_tick-new :
    (m : Machine) (k : ℕ)
    → k < max_processes
    → m.current ≢ some k
    → (m.table k).state ≡ new
    → ((scheduler_tick m).table k ≡ m.table k) × ((scheduler_tick m).current ≢ some k)
scheduler_tick-new m k h ne e = elim (Option-cases (chosen m)) [
  | inl none_ready ↦ rw (tick_none m none_ready) (settled-new m k h ne e, λ q. cc)
  | inr (j, found) ↦
      let (d, ej, lo, hi, ready_there, first) = Picked-chosen m found in
      let other : k ≢ j = λ q.
        let ready_here : is_ready (settled m k).state ≡ true =
          subst (λ i. is_ready (settled m i).state ≡ true) (sym q) ready_there in
        let same = ap (λ (p : Pcb). is_ready p.state) (settled-new m k h ne e) in
        ground (arith, same) in
      rw (tick_some m found)
        (update_ne (settled m) j _ k other ∙ settled-new m k h ne e, λ q. other (ground arith))
]

-- With the same entry in both tables, what is kept of the others is kept of all.
SameHolding-update :
    (t t' : ProcessTable) (k : ℕ) (q : Pcb)
    → ((j : ℕ) → j < max_processes → SameHolding (t' j) (t j))
    → (j : ℕ) → j < max_processes
    → SameHolding (update t' k q j) (update t k q j)
SameHolding-update t t' k q same j h = elim (Bool-cases (j == k)) [
  | inl e ↦ rw e (SameHolding-refl q)
  | inr ne ↦ rw ne (same j h)
]

pub RunsLive-update :
    (t : ProcessTable) (k : ℕ) (q : Pcb) (c : Option ℕ)
    → c ≢ some k
    → RunsLive t c
    → RunsLive (update t k q) c
RunsLive-update t k q none ne r = tt
RunsLive-update t k q (some j) ne r =
    (r.0, ap is_live (update_ne t k q j (λ e. ne (ap some e))) ∙ r.1)

pub RunsLive-back :
    (t : ProcessTable) (k : ℕ) (q : Pcb) (c : Option ℕ)
    → c ≢ some k
    → RunsLive (update t k q) c
    → RunsLive t c
RunsLive-back t k q none ne r = tt
RunsLive-back t k q (some j) ne r =
    (r.0, ap is_live (sym (update_ne t k q j (λ e. ne (ap some e)))) ∙ r.1)

module _ (k : ℕ) (p q : Pcb) where
  -- The entry is held on, where the others keep what they have.
  Held-same :
      (m x : Machine)
      → Held k p q m
      → x.free_partitions ≡ m.free_partitions
      → ((j : ℕ) → j < max_processes → SameHolding (x.table j) (m.table j))
      → x.table k ≡ m.table k
      → x.current ≢ some k
      → RunsLive x.table x.current
      → Held k p q x
  Held-same m x v free same entry away running = record {
    in_table = v.in_table;
    entry = entry ∙ v.entry;
    unfinished = v.unfinished;
    away = away;
    sound = record {
      partitioned = subst (IsPartitioned (update x.table k q)) (sym free) (
          IsPartitioned-same (update m.table k q) (update x.table k q) m.free_partitions
            (SameHolding-update m.table x.table k q same) v.sound.partitioned);
      running = RunsLive-update x.table k q x.current away running;
    };
  }

  Held-tick :
      (x : Machine)
      → k < max_processes
      → x.table k ≡ p
      → p.state ≡ new
      → x.current ≢ some k
      → IsPartitioned (update x.table k q) x.free_partitions
      → Held k p q (scheduler_tick x)
  Held-tick x h entry unfinished away partitioned =
      let left = scheduler_tick-new x k h away (ap (λ (y : Pcb). y.state) entry ∙ unfinished) in
      record {
        in_table = h;
        entry = left.0 ∙ entry;
        unfinished = unfinished;
        away = left.1;
        sound = record {
          partitioned =
              subst (IsPartitioned (update (scheduler_tick x).table k q))
                (sym (free-scheduler_tick x))
                (IsPartitioned-same (update x.table k q) (update (scheduler_tick x).table k q)
                  x.free_partitions
                  (SameHolding-update x.table (scheduler_tick x).table k q
                    (SameHolding-scheduler_tick x))
                  partitioned);
          running =
              RunsLive-update (scheduler_tick x).table k q (scheduler_tick x).current left.1
                (scheduler_tick-RunsLive x);
        };
      }

  pub Held-scheduler_tick : (m : Machine) → Held k p q m → Held k p q (scheduler_tick m)
  Held-scheduler_tick m v = Held-tick m v.in_table v.entry v.unfinished v.away v.sound.partitioned

  Held-Kept : (m x : Machine) → Kept m x → Held k p q m → Held k p q x
  Held-Kept m x kept v =
      Held-same m x v kept.free (λ j h. kept.same j) (kept.others k v.away)
        (λ e. v.away (sym kept.current ∙ e))
        (RunsLive-Kept kept (RunsLive-back m.table k q m.current v.away v.sound.running))

  -- The end of another process.
  with_entry-end_process :
      (j : ℕ) (m : Machine)
      → j ≢ k
      → end_process j (with_entry k q m) ≡ with_entry k q (end_process j m)
  unfolding end_process
  with_entry-end_process j m ne =
      ap
        (λ (x : Pcb). set_yield false (record m {
          free_partitions = (free_memory x.start_block x.block_count m.free_partitions).1;
          table = update (update m.table k q) j (record x { state = finished });
        }))
        (update_ne m.table k q j ne)
      ∙ ap
          (λ (t : ProcessTable). set_yield false (record m {
            free_partitions =
                (free_memory (m.table j).start_block (m.table j).block_count m.free_partitions).1;
            table = t;
          }))
          (update-swap m.table k j q _ (λ e. ne (sym e)))

  Held-end_process :
      (j : ℕ) (m : Machine)
      → m.current ≡ some j
      → Held k p q m
      → Held k p q (scheduler_tick (end_process j m))
  unfolding end_process
  Held-end_process j m e v =
      let ne : j ≢ k = λ same. v.away (e ∙ ap some same) in
      let running : RunsLive (update m.table k q) (some j) =
        subst (RunsLive (update m.table k q)) e v.sound.running in
      Held-tick (end_process j m) v.in_table
        (update_ne m.table j _ k (λ same. ne (sym same)) ∙ v.entry) v.unfinished v.away
        (subst (λ (x : Machine). IsPartitioned x.table x.free_partitions)
          (with_entry-end_process j m ne)
          (end_process-IsPartitioned j (with_entry k q m) running.0 running.1 v.sound.partitioned))

  module _ (m m' : Machine) (kept : Kept m m') (v : Held k p q m) where
    Held-ran : Held k p q m'
    Held-ran = Held-Kept m m' kept v

    after_step :
        (j : ℕ)
        → m.current ≡ some j
        → (keep_running yields : Bool)
        → Held k p q (
            if not keep_running
            then scheduler_tick (end_process j m')
            else if yields
            then scheduler_tick (set_yield false m')
            else m')
    after_step j e false yields = Held-end_process j m' (kept.current ∙ e) Held-ran
    after_step j e true true =
        Held-tick (set_yield false m') v.in_table Held-ran.entry v.unfinished Held-ran.away
          Held-ran.sound.partitioned
    after_step j e true false = Held-ran

  -- A round of the worker leaves a NEW entry alone, and keeps the invariant beside it.
  pub Held-worker_round : (o : Outside) (m : Machine) → Held k p q m → Held k p q (worker_round o m)
  unfolding worker_round
  Held-worker_round o m v = round m.current refl
    where
      round :
          (c : Option ℕ)
          → m.current ≡ c
          → Held k p q (elim c [
            | none ↦ scheduler_tick m
            | some j ↦
                let (keep_running, m') = cpu_step o m in
                if not keep_running
                then scheduler_tick (end_process j m')
                else if m'.os_yield
                then scheduler_tick (set_yield false m')
                else m'
          ])
      round none e = Held-scheduler_tick m v
      round (some j) e =
          after_step m (cpu_step o m).1
            (Kept-cpu_step o m (RunsLive-back m.table k q m.current v.away v.sound.running)) v j e
            (cpu_step o m).0 (cpu_step o m).1.os_yield

  -- What leaves the tables alone leaves the entry held.
  pub Held-tables : (m x : Machine) → tables x ≡ tables m → Held k p q m → Held k p q x
  Held-tables m x e v = Held-Kept m x (Kept-tables m x e) v
