-- ===== src/Kernel/Saved.antt =====
-- The registers that are saved for a process (src/kernel/core.c, src/kernel/scheduler.c): a round in
-- which it does not run leaves them, and its life, alone.
use project_lucario.Base.{
  update_ne, ℕ, ◌<◌, ◌≡◌, ◌≢◌, refl, sym, ap, ◌∙◌, subst, arith, Bool, true, false, not, Option,
  none, some, ◌==◌, ==_iff, update, Bool-cases, Option-cases, inl, inr, if◌then◌else◌,
}
use project_lucario.Vfs.{Host}
use project_lucario.Core.{System, create_process}
use project_lucario.Core.Failure.{create_process_fails}
use project_lucario.Kernel.Creation.{create_process-CreatesFrom}
use project_lucario.Machine.{
  Text, OsStatus, os_success, is_finished, Machine, Pcb, Cpu, Outside, max_processes, executing,
}
use project_lucario.Scheduler.{scheduler_tick, settled, wake_one, unblock_one, suspend}
use project_lucario.Scheduler.RoundRobin.{
  settled_lem, woken, is_current, chosen, tick_some, tick_none, scheduler_tick_runs,
}
use project_lucario.Step.{end_process, worker_round, cpu_step, set_yield}
use project_lucario.Kernel.Owners.{IsSound, is_live}
use project_lucario.Kernel.Keeping.{Kept, Kept-cpu_step}
use project_lucario.Kernel.Rounds.{SameHolding-scheduler_tick}

context-woken : (b : Bool) (p : Pcb) → (woken b p).context ≡ p.context
unfolding wake_one unblock_one
context-woken b p = ground arith

-- The registers that the table holds for a process when a tick chooses: its own, if it runs, and else
-- the ones saved before.
pub saved-current :
    (m : Machine) (p : ℕ) → p < max_processes → m.current ≡ some p → (settled m p).context ≡ m.cpu
unfolding suspend
saved-current m p h e = rw (settled_lem m p h, e) (ground arith)

pub not_current : (c : Option ℕ) (p : ℕ) → c ≢ some p → is_current c p ≡ false
not_current c p ne = ground arith

saved-away :
    (m : Machine) (p : ℕ)
    → p < max_processes
    → m.current ≢ some p
    → (settled m p).context ≡ (m.table p).context
saved-away m p h ne =
    rw (settled_lem m p h, not_current m.current p ne) (context-woken m.monitor_active (m.table p))

context-dispatched :
    (m : Machine) (k p : ℕ)
    → (update (settled m) k (record (settled m k) { state = executing }) p).context
      ≡ (settled m p).context
context-dispatched m k p = elim (Bool-cases (p == k)) [
  | inl e ↦ rw (e, (==_iff p k).0 e) refl
  | inr ne ↦ rw ne refl
]

-- A tick changes no saved registers after that.
pub context-scheduler_tick :
    (m : Machine) (p : ℕ) → ((scheduler_tick m).table p).context ≡ (settled m p).context
context-scheduler_tick m p = elim (Option-cases (chosen m)) [
  | inl e ↦ rw (tick_none m e) refl
  | inr (k, e) ↦ rw (tick_some m e) (context-dispatched m k p)
]

-- What is kept for a process that does not run before a step: it is alive, and its registers are in
-- the table, and on the processor if it runs after the step.
pub record HasSaved (p : ℕ) (c : Cpu) (m : Machine) : Type 0 where
  pub alive : is_live (m.table p) ≡ true
  pub in_table : (m.table p).context ≡ c
  pub on_processor : m.current ≡ some p → m.cpu ≡ c

module _ (p : ℕ) (h : p < max_processes) where
  -- A tick while another process runs, or none.
  HasSaved-tick :
      (m x : Machine)
      → m.current ≢ some p
      → x.current ≡ m.current
      → is_live (x.table p) ≡ true
      → (x.table p).context ≡ (m.table p).context
      → HasSaved p (m.table p).context (scheduler_tick x)
  HasSaved-tick m x ne same l saved =
      let kept = saved-away x p h (λ e. ne (sym same ∙ e)) ∙ saved in
      record {
        alive = (SameHolding-scheduler_tick x p h).live ∙ l;
        in_table = context-scheduler_tick x p ∙ kept;
        on_processor = λ r. (scheduler_tick_runs x r).3 ∙ kept;
      }

  module _ (k : ℕ) (m m' : Machine) (ne : m.current ≢ some p) (other : p ≢ k)
      (l : is_live (m.table p) ≡ true) (kept : Kept m m') where
    alive : is_live (m'.table p) ≡ true
    alive = (kept.same p).live ∙ l

    entry-end_process : (end_process k m').table p ≡ m'.table p
    unfolding end_process
    entry-end_process = update_ne m'.table k _ p other

    after_step :
        (keep_running yields : Bool)
        → HasSaved p (m.table p).context (
            if not keep_running
            then scheduler_tick (end_process k m')
            else if yields
            then scheduler_tick (set_yield false m')
            else m')
    unfolding end_process
    after_step false yields =
        HasSaved-tick m (end_process k m') ne kept.current
          (ap (λ q. is_live q) entry-end_process ∙ alive)
          (ap (λ (q : Pcb). q.context) entry-end_process ∙ kept.saved_registers p)
    after_step true true =
        HasSaved-tick m (set_yield false m') ne kept.current alive (kept.saved_registers p)
    after_step true false = record {
      alive = alive;
      in_table = kept.saved_registers p;
      on_processor = λ e. absurd (ne (sym kept.current ∙ e));
    }

  -- A round in which another process runs, or none.
  pub HasSaved-worker_round :
      (o : Outside) (m : Machine)
      → IsSound m
      → m.current ≢ some p
      → is_live (m.table p) ≡ true
      → HasSaved p (m.table p).context (worker_round o m)
  unfolding worker_round
  HasSaved-worker_round o m v ne l = round m.current ne
    where
      round :
          (c : Option ℕ)
          → c ≢ some p
          → HasSaved p (m.table p).context (elim c [
            | none ↦ scheduler_tick m
            | some k ↦
                let (keep_running, m') = cpu_step o m in
                if not keep_running
                then scheduler_tick (end_process k m')
                else if m'.os_yield
                then scheduler_tick (set_yield false m')
                else m'
          ])
      round none ne' = HasSaved-tick m m ne refl l refl
      round (some k) ne' =
          after_step k m (cpu_step o m).1 ne (λ e. ne' (ap some (sym e))) l
            (Kept-cpu_step o m v.running) (cpu_step o m).0 (cpu_step o m).1.os_yield

-- A creation leaves every live process its entry, whatever it returns.
pub create_process-others :
    (host : Host) (name : Text) (s : System) (p : ℕ)
    → is_live (s.machine.table p) ≡ true
    → ((create_process host name s).1.machine.table p ≡ s.machine.table p)
      × ((create_process host name s).1.machine.current ≡ s.machine.current)
create_process-others host name s p l = by_status (create_process host name s).0 refl
  where
    is_other : (k : ℕ) → is_finished (s.machine.table k).state ≡ true → p ≡ k → ⊥
    is_other k fin q =
        let alive : is_live (s.machine.table k) ≡ true =
          subst (λ j. is_live (s.machine.table j) ≡ true) q l in
        ground arith

    failed :
        (create_process host name s).0 ≢ os_success
        → ((create_process host name s).1.machine.table p ≡ s.machine.table p)
          × ((create_process host name s).1.machine.current ≡ s.machine.current)
    failed ne =
        let same = create_process_fails host name s ne in
        (ap (λ (m : Machine). m.table p) same, ap (λ (m : Machine). m.current) same)

    by_status :
        (r : OsStatus)
        → (create_process host name s).0 ≡ r
        → ((create_process host name s).1.machine.table p ≡ s.machine.table p)
          × ((create_process host name s).1.machine.current ≡ s.machine.current)
    by_status os_success e =
        let (k, h, fin, (meta, found, c)) = create_process-CreatesFrom host name s e in
        (
          ap (λ t. t.0 p) c.result ∙ update_ne s.machine.table k _ p (λ q. is_other k fin q),
          ap (λ t. t.2) c.result,
        )
    by_status _ e = failed (λ q. let both = sym e ∙ q in ground arith)
