-- ===== src/Kernel/Keeping.antt =====
-- A step of the processor leaves every process alive and its blocks in place (src/hardware/cpu.c,
-- src/kernel/syscalls.c): a system call changes no more than the state of the current process.
use project_lucario.Base.{
  update_ne, ◌≢◌, ℕ, ◌≡◌, refl, sym, ap, ◌∙◌, subst, arith, Bool, true, false, Option, none, some,
  ◌==◌, ==_iff, update, Bool-cases, inl, inr, if◌then◌else◌, ◌||◌,
}
use project_lucario.Base.Int.{ℤ, pos, add32, int32, ltb_ℤ, ◌-ℤ◌}
use project_lucario.Machine.{
  Machine, Pcb, ProcessTable, Outside, InterruptCode, blocked, blocked_io, set_cc,
  set_interrupt_enable, Message, SyscallStatus, syscall_success, syscall_unknown, syscall_halt,
  syscall_block, ic_syscall, cpu_stop, cpu_ok, CpuStatus, ConditionCode, max_magnitude, input_read,
  input_truncated,
}
use project_lucario.Memory.{read_memory, write_memory}
use project_lucario.Mmu.{Partitions}
use project_lucario.Interrupt.{set_bit}
use project_lucario.Words.{word_to_int, int_to_word}
use project_lucario.Cpu.{fetch, decode, execute, load_result}
use project_lucario.Context.{save_context, restore_context}
use project_lucario.Syscalls.{
  update_current, block_on_monitor, print_value, read_value, sleep, handle_syscall,
  monitor_save_history, scan_number, current_pid,
}
use project_lucario.Step.{
  handle_interrupt, after_syscall, service, check_interrupts, cpu_step, after_fetch, tick_timer,
  highest,
}
use project_lucario.Kernel.Frame.{
  tables, tables-write_memory, tables-execute, tables-fetch, tables-tick_timer, tables-save_context,
  tables-restore_context,
}
use project_lucario.Kernel.Owners.{
  is_live, SameHolding, SameHolding-refl, SameHolding-trans, RunsLive,
}

-- The partition table and the choice of the process stay, and every entry keeps its life, its blocks and
-- its saved registers.
pub record Kept (m m' : Machine) : Type 0 where
  pub free : m'.free_partitions ≡ m.free_partitions
  pub current : m'.current ≡ m.current
  pub same : (j : ℕ) → SameHolding (m'.table j) (m.table j)
  pub others : (j : ℕ) → m.current ≢ some j → m'.table j ≡ m.table j
  pub saved_registers : (j : ℕ) → (m'.table j).context ≡ (m.table j).context

pub Kept-tables : (m m' : Machine) → tables m' ≡ tables m → Kept m m'
Kept-tables m m' e = record {
  free = ap (λ (t : ProcessTable × Partitions × Option ℕ). t.1) e;
  current = ap (λ (t : ProcessTable × Partitions × Option ℕ). t.2) e;
  same = λ j.
      subst (λ (t : ProcessTable × Partitions × Option ℕ). SameHolding (t.0 j) (m.table j)) (sym e)
        (SameHolding-refl (m.table j));
  others = λ j ne. ap (λ (t : ProcessTable × Partitions × Option ℕ). t.0 j) e;
  saved_registers = λ j. ap (λ (t : ProcessTable × Partitions × Option ℕ). (t.0 j).context) e;
}

pub Kept-trans : {m1 m2 m3 : Machine} → Kept m1 m2 → Kept m2 m3 → Kept m1 m3
Kept-trans a b = record {
  free = b.free ∙ a.free;
  current = b.current ∙ a.current;
  same = λ j. SameHolding-trans (b.same j) (a.same j);
  others = λ j ne. b.others j (λ e. ne (sym a.current ∙ e)) ∙ a.others j ne;
  saved_registers = λ j. b.saved_registers j ∙ a.saved_registers j;
}

module _ {m m' : Machine} (k : Kept m m') where
  RunsLive-same : (c : Option ℕ) → RunsLive m.table c → RunsLive m'.table c
  RunsLive-same none r = tt
  RunsLive-same (some j) r = (r.0, (k.same j).live ∙ r.1)

  pub RunsLive-Kept : RunsLive m.table m.current → RunsLive m'.table m'.current
  RunsLive-Kept r = subst (RunsLive m'.table) (sym k.current) (RunsLive-same m.current r)

-- A change of the current process's state, where it stays alive.
module _ (f : Pcb → Pcb) (keeps : (p : Pcb) → is_live p ≡ true → SameHolding (f p) p)
    (saved : (p : Pcb) → (f p).context ≡ p.context) (m : Machine) where
  context-update : (k j : ℕ) → (update m.table k (f (m.table k)) j).context ≡ (m.table j).context
  context-update k j = elim (Bool-cases (j == k)) [
    | inl e ↦ rw (e, (==_iff j k).0 e) (saved (m.table k))
    | inr ne ↦ rw ne refl
  ]

  same-update :
      (k : ℕ)
      → is_live (m.table k) ≡ true
      → (j : ℕ) → SameHolding (update m.table k (f (m.table k)) j) (m.table j)
  same-update k l j = elim (Bool-cases (j == k)) [
    | inl e ↦ rw (e, (==_iff j k).0 e) (keeps (m.table k) l)
    | inr ne ↦ rw ne (SameHolding-refl (m.table j))
  ]

  Kept-update :
      (c : Option ℕ)
      → m.current ≡ c
      → RunsLive m.table c
      → Kept m
          (elim c [ none ↦ m | some k ↦ record m { table = update m.table k (f (m.table k)) } ])
  Kept-update none e r = Kept-tables m m refl
  Kept-update (some k) e r = record {
    free = refl;
    current = refl;
    same = same-update k r.1;
    others = λ j ne. update_ne m.table k _ j (λ q. ne (e ∙ ap some (sym q)));
    saved_registers = context-update k;
  }

  Kept-update_current : RunsLive m.table m.current → Kept m (update_current f m)
  unfolding update_current
  Kept-update_current r = Kept-update m.current refl r

-- The same, after steps that kept the tables.
module _ {m x : Machine} (k : Kept m x) where
  Kept-write_memory : (a w : ℤ) → Kept m (write_memory a w x).1
  Kept-write_memory a w = Kept-trans k (Kept-tables x _ (tables-write_memory a w x))

  Kept-cc : (c : ConditionCode) → Kept m (set_cc c x)
  Kept-cc c = Kept-trans k (Kept-tables x _ refl)

  Kept-saved : (line : Message) → Kept m (monitor_save_history line x)
  unfolding monitor_save_history
  Kept-saved line = Kept-trans k (Kept-tables x _ refl)

  Kept-either : {y : Machine} → Kept m y → (b : Bool) → Kept m (if b then x else y)
  Kept-either h true = k
  Kept-either h false = h

Kept-saved_line : (m : Machine) (line : Message) → Kept m (monitor_save_history line m)
unfolding monitor_save_history
Kept-saved_line m line = Kept-tables m _ refl

Kept-if {ℓ} :
    {A : Type ℓ} (m : Machine) (b : Bool) (x y : A × Machine)
    → Kept m x.1
    → Kept m y.1
    → Kept m (if b then x else y).1
Kept-if m true x y kx ky = kx
Kept-if m false x y kx ky = ky

Kept-after_syscall :
    (m : Machine) (r : SyscallStatus × Machine) → Kept m r.1 → Kept m (after_syscall r).1
unfolding after_syscall
Kept-after_syscall m (syscall_halt, x) k = k
Kept-after_syscall m (syscall_block, x) k = Kept-trans k (Kept-tables x _ refl)
Kept-after_syscall m (syscall_success, x) k = k
Kept-after_syscall m (syscall_unknown, x) k = k

module _ (o : Outside) (m : Machine) (r : RunsLive m.table m.current) where
  Kept-block_on_monitor : Kept m (block_on_monitor o m).1
  unfolding block_on_monitor
  Kept-block_on_monitor =
      Kept-trans
        (Kept-update_current (λ p. record p { state = blocked_io })
          (λ p l. record { live = sym l; start = refl; count = refl }) (λ p. refl) m r)
        (Kept-tables (update_current (λ p. record p { state = blocked_io }) m) _
          (grind (arith, tables-write_memory)))

  Kept-print_value : (param : Option ℤ) → Kept m (print_value param o m).1
  unfolding print_value
  Kept-print_value none = Kept-tables m m refl
  Kept-print_value (some w) = search (Kept-if, Kept-saved_line m, Kept-block_on_monitor)

  Kept-read_value : Kept m (read_value o m).1
  unfolding read_value
  Kept-read_value =
      let n = scan_number o.typing in
      let pid = current_pid m in
      let too_long = ltb_ℤ (pos max_magnitude) n || ltb_ℤ n (pos 0 -ℤ pos max_magnitude) in
      let noted : Machine = if too_long then monitor_save_history (input_truncated pid) m else m in
      let kept : Kept m noted =
        Kept-either (Kept-saved_line m (input_truncated pid)) (Kept-tables m m refl) too_long in
      let (word, cc') = int_to_word (int32 n) in
      let listed = Kept-cc (Kept-saved kept (input_read pid (int32 n))) cc' in
      search (Kept-if, Kept-write_memory listed noted.cpu.sp word, Kept-block_on_monitor)

  Kept-sleep : (param : Option ℤ) → Kept m (sleep param m).1
  unfolding sleep
  Kept-sleep none = Kept-tables m m refl
  Kept-sleep (some w) = search (
    Kept-if,
    Kept-saved_line m,
    Kept-tables m m refl,
    Kept-update_current (λ p. record p { state = blocked; sleep_tics = word_to_int w })
        (λ p l. record { live = sym l; start = refl; count = refl }) (λ p. refl) m r,
  )

  Kept-handle_syscall : Kept m (handle_syscall o m).1
  unfolding handle_syscall
  Kept-handle_syscall = search (
    Kept-if,
    Kept-tables m m refl,
    Kept-print_value (read_memory m (add32 m.cpu.sp (pos 7))).1,
    Kept-read_value,
    Kept-sleep (read_memory m (add32 m.cpu.sp (pos 7))).1,
  )

  Kept-handle_interrupt : (code : InterruptCode) → Kept m (handle_interrupt code o m).1
  unfolding handle_interrupt load_result
  Kept-handle_interrupt ic_syscall = Kept-after_syscall m (handle_syscall o m) Kept-handle_syscall
  Kept-handle_interrupt _ = Kept-tables m _ refl

-- The handling of an interrupt, and a check for one.
module _ (o : Outside) (m : Machine) (r : RunsLive m.table m.current) where
  masked : Machine
  masked = save_context (set_interrupt_enable false m)

  Kept-masked : Kept m masked
  unfolding masked
  Kept-masked = Kept-tables m _ (tables-save_context (set_interrupt_enable false m))

  Kept-resumed :
      (code : InterruptCode) (status : Bool) (handled : Machine)
      → Kept m handled
      → Kept m (
          set_interrupt_enable true (
            if status
            then restore_context code
                (record handled { pending = set_bit code false handled.pending })
            else record handled { pending = set_bit code false handled.pending }))
  Kept-resumed code true handled k =
      Kept-trans k (Kept-tables handled _ (tables-restore_context code _))
  Kept-resumed code false handled k = Kept-trans k (Kept-tables handled _ refl)

  Kept-service : (code : InterruptCode) → Kept m (service code o m).1
  unfolding service masked
  Kept-service code =
      Kept-resumed code (handle_interrupt code o masked).0 (handle_interrupt code o masked).1
        (Kept-trans Kept-masked (Kept-handle_interrupt o masked (RunsLive-Kept Kept-masked r) code))

  Kept-check_interrupts : Kept m (check_interrupts o m).1
  unfolding check_interrupts
  Kept-check_interrupts = search (Kept-if, Kept-tables m m refl, Kept-service (highest m.pending))

Kept-after_fetch :
    (o : Outside) (m : Machine) (f : CpuStatus × Machine)
    → RunsLive m.table m.current
    → Kept m f.1
    → Kept m (after_fetch o f).1
unfolding after_fetch
Kept-after_fetch o m (cpu_stop, x) r k = k
Kept-after_fetch o m (cpu_ok, x) r k =
    let executed : Kept m (tick_timer (execute o (decode x.cpu.ir) x).1) = Kept-trans k (
      Kept-tables x _ (
        tables-tick_timer (execute o (decode x.cpu.ir) x).1
        ∙ tables-execute o (decode x.cpu.ir) x)) in
    Kept-trans executed (Kept-check_interrupts o _ (RunsLive-Kept executed r))

-- A whole step, whatever instruction it fetches: the current process stays alive, and every entry
-- keeps its life and its blocks.
pub Kept-cpu_step :
    (o : Outside) (m : Machine) → RunsLive m.table m.current → Kept m (cpu_step o m).1
unfolding cpu_step
Kept-cpu_step o m r = Kept-after_fetch o m (fetch m) r (Kept-tables m _ (tables-fetch m))
