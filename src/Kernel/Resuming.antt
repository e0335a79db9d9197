-- ===== src/Kernel/Resuming.antt =====
-- A process that loses the processor gets it back with its registers (src/kernel/core.c,
-- src/kernel/scheduler.c), whatever the others do meanwhile.
use project_lucario.Vfs.{Host}
use project_lucario.Core.{System, create_process}
use project_lucario.Machine.{Text}
use project_lucario.Kernel.Saved.{
  saved-current, context-scheduler_tick, HasSaved-worker_round, create_process-others,
}
use project_lucario.Base.{ℕ, ◌<◌, ◌≡◌, ◌≢◌, refl, sym, ap, ◌∙◌, subst, arith, true, false, some}
use project_lucario.Machine.{Machine, Pcb, Cpu, Outside, max_processes}
use project_lucario.Dma.{dma_round}
use project_lucario.Scheduler.{scheduler_tick}
use project_lucario.Step.{worker_round, cpu_step, set_yield}
use project_lucario.Kernel.Frame.{tables-dma_round}
use project_lucario.Kernel.Owners.{IsSound, RunsLive, is_live}
use project_lucario.Kernel.Keeping.{Kept-cpu_step}
use project_lucario.Kernel.Admission.{IsSound-tables, create_process-IsSound}
use project_lucario.Kernel.Rounds.{worker_round-IsSound, SameHolding-scheduler_tick}

-- The process `p` waits for the processor from a machine to another, over rounds of the kernel's
-- thread, creations and transfers.
pub data IsWaiting (p : ℕ) (m : Machine) : Machine → Type 0 where
  away : m.current ≢ some p → IsWaiting p m m
  others_run :
      (o : Outside) {n : Machine}
      → IsWaiting p m n
      → (worker_round o n).current ≢ some p
      → IsWaiting p m (worker_round o n)
  others_come :
      (host : Host) (name : Text) (s : System)
      → IsWaiting p m s.machine
      → IsWaiting p m (create_process host name s).1.machine
  others_transfer : {n : Machine} → IsWaiting p m n → IsWaiting p m (dma_round n)

record IsSuspended (p : ℕ) (c : Cpu) (n : Machine) : Type 0 where
  sound : IsSound n
  not_running : n.current ≢ some p
  alive : is_live (n.table p) ≡ true
  saved : (n.table p).context ≡ c

IsWaiting-IsSuspended :
    (p : ℕ) {m n : Machine}
    → p < max_processes
    → IsSound m
    → is_live (m.table p) ≡ true
    → IsWaiting p m n
    → IsSuspended p (m.table p).context n
IsWaiting-IsSuspended p h v l (away ne) = record {
  sound = v;
  not_running = ne;
  alive = l;
  saved = refl;
}
IsWaiting-IsSuspended p h v l (others_run o {n} w ne) =
    let before = IsWaiting-IsSuspended p h v l w in
    let after = HasSaved-worker_round p h o n before.sound before.not_running before.alive in
    record {
      sound = worker_round-IsSound o n before.sound;
      not_running = ne;
      alive = after.alive;
      saved = after.in_table ∙ before.saved;
    }
IsWaiting-IsSuspended p h v l (others_come host name s w) =
    let before = IsWaiting-IsSuspended p h v l w in
    let (entry, current) = create_process-others host name s p before.alive in
    record {
      sound = create_process-IsSound host name s before.sound;
      not_running = λ e. before.not_running (sym current ∙ e);
      alive = ap (λ q. is_live q) entry ∙ before.alive;
      saved = ap (λ (q : Pcb). q.context) entry ∙ before.saved;
    }
IsWaiting-IsSuspended p h v l (others_transfer {n} w) =
    let before = IsWaiting-IsSuspended p h v l w in
    let same = tables-dma_round n in
    record {
      sound = IsSound-tables n _ same before.sound;
      not_running = λ e. before.not_running (sym (ap (λ t. t.2) same) ∙ e);
      alive = ap (λ t. is_live (t.0 p)) same ∙ before.alive;
      saved = ap (λ t. (t.0 p).context) same ∙ before.saved;
    }

-- The round in which the process gives up the processor.
pub worker_round-yields :
    (o : Outside) (p : ℕ) (m : Machine)
    → m.current ≡ some p
    → (cpu_step o m).0 ≡ true
    → (cpu_step o m).1.os_yield ≡ true
    → worker_round o m ≡ scheduler_tick (set_yield false (cpu_step o m).1)
unfolding worker_round
worker_round-yields o p m e going yields = ground arith

saved-yielding :
    (o : Outside) (p : ℕ) (m : Machine)
    → IsSound m
    → m.current ≡ some p
    → (cpu_step o m).0 ≡ true
    → (cpu_step o m).1.os_yield ≡ true
    → ((worker_round o m).table p).context ≡ (cpu_step o m).1.cpu
saved-yielding o p m v e going yields =
    let h : p < max_processes = (subst (RunsLive m.table) e v.running).0 in
    let x = set_yield false (cpu_step o m).1 in
    ap (λ (y : Machine). (y.table p).context) (worker_round-yields o p m e going yields)
    ∙ context-scheduler_tick x p
    ∙ saved-current x p h ((Kept-cpu_step o m v.running).current ∙ e)

-- Where the invariant of the tables holds, a process whose step ends with a request for another
-- process, and which then waits while others run and are created and the DMA controller works, runs
-- again with every register as its step had left it.
pub worker_round-resumes :
    (o o' : Outside) (p : ℕ) (m : Machine) {n : Machine}
    → IsSound m
    → m.current ≡ some p
    → (cpu_step o m).0 ≡ true
    → (cpu_step o m).1.os_yield ≡ true
    → IsWaiting p (worker_round o m) n
    → (worker_round o' n).current ≡ some p
    → (worker_round o' n).cpu ≡ (cpu_step o m).1.cpu
worker_round-resumes o o' p m {n} v e going yields w runs =
    let h : p < max_processes = (subst (RunsLive m.table) e v.running).0 in
    let x = set_yield false (cpu_step o m).1 in
    let kept = Kept-cpu_step o m v.running in
    let lives : is_live ((worker_round o m).table p) ≡ true =
      ap (λ (y : Machine). is_live (y.table p)) (worker_round-yields o p m e going yields)
      ∙ (SameHolding-scheduler_tick x p h).live
      ∙ (kept.same p).live
      ∙ (subst (RunsLive m.table) e v.running).1 in
    let before = IsWaiting-IsSuspended p h (worker_round-IsSound o m v) lives w in
    (HasSaved-worker_round p h o' n before.sound before.not_running before.alive).on_processor runs
    ∙ before.saved
    ∙ saved-yielding o p m v e going yields
