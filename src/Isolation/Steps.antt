-- ===== src/Isolation/Steps.antt =====
-- What a whole step of the processor can do to memory (src/hardware/cpu.c, src/kernel/syscalls.c): the
-- instruction, the interrupt that follows it, and the system call that it may ask for.
use project_lucario.Base.{
  ℕ, ◌≡◌, ◌≢◌, refl, ap, ◌∙◌, arith, Bool, true, false, ◌||◌, Option, none, some, if◌then◌else◌,
}
use project_lucario.Base.Int.{ℤ, pos, add32, int32, ltb_ℤ, ◌-ℤ◌}
use project_lucario.Machine.{
  Machine, Outside, OpCode, op_chmod, op_strrb, op_strrl, op_sdmaon, InterruptCode, blocked,
  blocked_io, set_cc, set_interrupt_enable, SyscallStatus, syscall_halt, syscall_block, ic_syscall,
  cpu_stop, cpu_ok, CpuStatus, max_magnitude, input_read, input_truncated,
}
use project_lucario.Memory.{read_memory}
use project_lucario.Interrupt.{set_bit}
use project_lucario.Words.{word_to_int, int_to_word}
use project_lucario.Cpu.{fetch, decode, execute, load_result}
use project_lucario.Context.{save_context, restore_context, pop_into, internal_pop}
use project_lucario.Syscalls.{
  block_on_monitor, print_value, read_value, sleep, handle_syscall, monitor_save_history,
  scan_number, current_pid,
}
use project_lucario.Step.{
  handle_interrupt, after_syscall, service, check_interrupts, cpu_step, after_fetch, tick_timer,
  highest,
}
use project_lucario.Isolation.{IsForeign, execute-isolated}
use project_lucario.Isolation.Registers.{guards-execute}
use project_lucario.Isolation.Undisturbed.{
  Undisturbed, Undisturbed-refl, Undisturbed-trans, Undisturbed-if, Undisturbed-saved_line,
  IsForeign-guards, then_write, then_save_context, then_update_current,
}

-- Any instruction but those that change the mode and the protection, or start a transfer.
pub record IsOrdinary (op : OpCode) : Type 0 where
  pub mode : op ≢ op_chmod
  pub base : op ≢ op_strrb
  pub limit : op ≢ op_strrl
  pub transfer : op ≢ op_sdmaon

-- The instruction that the step fetches.
abbrev pub next_op : Machine → OpCode
next_op m = (decode (fetch m).1.cpu.ir).op_code

abbrev resumed : InterruptCode → Bool × Machine → Machine
resumed code (status, handled) =
    let cleared = record handled { pending = set_bit code false handled.pending } in
    set_interrupt_enable true (if status then restore_context code cleared else cleared)

-- A system call of a program in user mode.
module _ (i : ℕ) (o : Outside) (m : Machine) (f : IsForeign m i) where
  Undisturbed-block_on_monitor : Undisturbed i m (block_on_monitor o m).1
  unfolding block_on_monitor
  Undisturbed-block_on_monitor =
      let waiting =
        then_update_current i f (λ p. record p { state = blocked_io }) (Undisturbed-refl i m) in
      then_write i f _ _ (record { cell = waiting.cell; kept = waiting.kept })

  Undisturbed-print_value : (param : Option ℤ) → Undisturbed i m (print_value param o m).1
  unfolding print_value
  Undisturbed-print_value none = Undisturbed-refl i m
  Undisturbed-print_value (some w) =
      Undisturbed-if i m m.monitor_active _ _ (Undisturbed-saved_line i _ m)
        Undisturbed-block_on_monitor

  Undisturbed-read_value : Undisturbed i m (read_value o m).1
  unfolding read_value monitor_save_history
  Undisturbed-read_value =
      let n = scan_number o.typing in
      let too_long = ltb_ℤ (pos max_magnitude) n || ltb_ℤ n (pos 0 -ℤ pos max_magnitude) in
      Undisturbed-if i m m.monitor_active _ _ (then_write i f _ _ (listed too_long))
        Undisturbed-block_on_monitor
    where
      listed :
          (too_long : Bool)
          → Undisturbed i m (
              set_cc (int_to_word (int32 (scan_number o.typing))).1 (
                monitor_save_history (input_read (current_pid m) (int32 (scan_number o.typing))) (
                  if too_long
                  then monitor_save_history (input_truncated (current_pid m)) m
                  else m)))
      listed true = record { cell = refl; kept = refl }
      listed false = record { cell = refl; kept = refl }

  Undisturbed-sleep : (param : Option ℤ) → Undisturbed i m (sleep param m).1
  unfolding sleep
  Undisturbed-sleep none = Undisturbed-refl i m
  Undisturbed-sleep (some w) = search (
    Undisturbed-if,
    Undisturbed-saved_line,
    Undisturbed-refl i m,
    then_update_current i f (λ p. record p { state = blocked; sleep_tics = word_to_int w })
        (Undisturbed-refl i m),
  )

  Undisturbed-handle_syscall : Undisturbed i m (handle_syscall o m).1
  unfolding handle_syscall
  Undisturbed-handle_syscall = search (
    Undisturbed-if,
    Undisturbed-refl i m,
    Undisturbed-print_value (read_memory m (add32 m.cpu.sp (pos 7))).1,
    Undisturbed-read_value,
    Undisturbed-sleep (read_memory m (add32 m.cpu.sp (pos 7))).1,
  )

  Undisturbed-handle_interrupt :
      (code : InterruptCode) → Undisturbed i m (handle_interrupt code o m).1
  unfolding handle_interrupt load_result
  Undisturbed-handle_interrupt ic_syscall = after (handle_syscall o m) Undisturbed-handle_syscall
    where
      after :
          (r : SyscallStatus × Machine) → Undisturbed i m r.1 → Undisturbed i m (after_syscall r).1
      after (syscall_block, x) k = record { cell = k.cell; kept = k.kept }
      after (syscall_halt, x) k = k
      after (_, x) k = k
  Undisturbed-handle_interrupt _ = record { cell = refl; kept = refl }

-- The registers that are restored come from the program's stack, so from here on only the cell is
-- the same.
module _ (i : ℕ) (o : Outside) where
  ram-restore_context : (code : InterruptCode) (m : Machine) → (restore_context code m).ram ≡ m.ram
  unfolding restore_context pop_into internal_pop
  ram-restore_context code m = refl

  cell-resumed : (code : InterruptCode) (r : Bool × Machine) → (resumed code r).ram ≡ r.1.ram
  cell-resumed code (true, x) = ram-restore_context code _
  cell-resumed code (false, x) = refl

  cell-service :
      (code : InterruptCode) (m : Machine) → IsForeign m i → (service code o m).1.ram i ≡ m.ram i
  unfolding service
  cell-service code m f =
      let masked =
        then_save_context i f {x = set_interrupt_enable false m}
          (record { cell = refl; kept = refl }) in
      let handled =
        Undisturbed-handle_interrupt i o (save_context (set_interrupt_enable false m))
          (IsForeign-guards i masked.kept f) code in
      ap (λ r. r i)
        (cell-resumed code (handle_interrupt code o (save_context (set_interrupt_enable false m))))
      ∙ handled.cell
      ∙ masked.cell

  cell-check_interrupts : (m : Machine) → IsForeign m i → (check_interrupts o m).1.ram i ≡ m.ram i
  unfolding check_interrupts
  cell-check_interrupts m f = ground (arith, cell-service (highest m.pending) m f)

  Undisturbed-tick_timer : (m : Machine) → Undisturbed i m (tick_timer m)
  unfolding tick_timer
  Undisturbed-tick_timer m = ground arith

  cell-after_fetch :
      (r : CpuStatus × Machine)
      → IsOrdinary (decode r.1.cpu.ir).op_code
      → IsForeign r.1 i
      → (after_fetch o r).1.ram i ≡ r.1.ram i
  unfolding after_fetch
  cell-after_fetch (cpu_stop, x) h f = refl
  cell-after_fetch (cpu_ok, x) h f =
      let inst = decode x.cpu.ir in
      let done : Undisturbed i x (execute o inst x).1 = record {
        cell = execute-isolated i o inst x h.transfer f;
        kept = guards-execute o inst x h.mode h.base h.limit;
      } in
      let ticked = Undisturbed-trans i done (Undisturbed-tick_timer (execute o inst x).1) in
      cell-check_interrupts (tick_timer (execute o inst x).1) (IsForeign-guards i ticked.kept f)
      ∙ ticked.cell

  Undisturbed-fetch : (m : Machine) → Undisturbed i m (fetch m).1
  unfolding fetch
  Undisturbed-fetch m = ground arith

  -- In user mode a whole step, with the interrupt and the system call that it may end with, changes
  -- no memory cell outside the process's partition, whatever the registers and the memory hold,
  -- unless the instruction is CHMOD, STRRB, STRRL or SDMAON.
  pub cpu_step-isolated :
      (m : Machine) → IsOrdinary (next_op m) → IsForeign m i → (cpu_step o m).1.ram i ≡ m.ram i
  unfolding cpu_step
  cpu_step-isolated m h f =
      let fetched = Undisturbed-fetch m in
      cell-after_fetch (fetch m) h (IsForeign-guards i fetched.kept f) ∙ fetched.cell
