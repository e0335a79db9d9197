-- ===== src/Step.antt =====
-- Interrupt handling and the instruction cycle (src/hardware/cpu.c), and one round of the kernel's
-- thread (src/kernel/core.c).
pub mod Priority
pub mod Timer
pub mod Services
pub mod Reading
pub mod Restart
pub mod Overflow
use project_lucario.Base.{
  ℕ, ◌+◌, ◌%◌, ◌^◌, Bool, true, false, ◌&&◌, ◌||◌, not, Option, none, some, List, [], ◌∷◌, ltb, leb,
  update, if◌then◌else◌,
}
use project_lucario.Base.Int.{ℤ, pos, tmod}
use project_lucario.Machine.{
  Machine, InterruptCode, ic_invalid_syscall, ic_invalid_int_code, ic_syscall, ic_timer, ic_io_done,
  ic_invalid_instr, ic_invalid_addr, ic_underflow, ic_overflow, SyscallStatus, syscall_success,
  syscall_unknown, syscall_halt, syscall_block, CpuStatus, cpu_ok, cpu_stop, Outside, finished,
  zero_cpu, max_magnitude, set_ac, set_cc, set_interrupt_enable, set_cycles_counter,
}
use project_lucario.Words.{int_to_word}
use project_lucario.Interrupt.{set_bit, raise_interrupt, any_pending}
use project_lucario.Cpu.{fetch, decode, execute, load_result}
use project_lucario.Context.{save_context, restore_context}
use project_lucario.Syscalls.{handle_syscall}
use project_lucario.Mmu.{free_memory}
use project_lucario.Scheduler.{scheduler_tick}

abbrev pub set_yield : Bool → Machine → Machine
set_yield b m = record m { os_yield = b }

-- The part of `handleInterrupt` that follows a system call.
unfoldable pub after_syscall : SyscallStatus × Machine → Bool × Machine
after_syscall (syscall_halt, m) = (false, m)
after_syscall (syscall_block, m) = (true, set_yield true m)
after_syscall (syscall_success, m) = (true, m)
after_syscall (syscall_unknown, m) = (true, m)

-- True to go on, false to stop the process.
unfoldable pub handle_interrupt : InterruptCode → Outside → Machine → Bool × Machine
unfolding after_syscall
handle_interrupt ic_invalid_instr o m = (false, m)
handle_interrupt ic_invalid_addr o m = (false, m)
handle_interrupt ic_overflow o m =
    (true, load_result (tmod m.interrupt_value (pos (max_magnitude + 1))) m)
handle_interrupt ic_underflow o m = (true, load_result (pos 0) m)
handle_interrupt ic_timer o m = (true, set_yield true m)
handle_interrupt ic_io_done o m = (true, m)
handle_interrupt ic_syscall o m = after_syscall (handle_syscall o m)
handle_interrupt ic_invalid_syscall o m = (true, m)
handle_interrupt ic_invalid_int_code o m = (true, m)

-- The pending code that is handled first.
unfoldable pub highest : (InterruptCode → Bool) → InterruptCode
highest p =
    if p ic_invalid_instr
    then ic_invalid_instr
    else if p ic_invalid_addr
    then ic_invalid_addr
    else if p ic_overflow
    then ic_overflow
    else if p ic_underflow
    then ic_underflow
    else if p ic_syscall
    then ic_syscall
    else if p ic_timer
    then ic_timer
    else if p ic_io_done
    then ic_io_done
    else if p ic_invalid_syscall
    then ic_invalid_syscall
    else ic_invalid_int_code

-- The handling of one code.
unfoldable pub service : InterruptCode → Outside → Machine → Bool × Machine
service code o m =
    let (status, handled) = handle_interrupt code o (save_context (set_interrupt_enable false m)) in
    let cleared = record handled { pending = set_bit code false handled.pending } in
    let resumed = if status then restore_context code cleared else cleared in
    (status, set_interrupt_enable true resumed)

unfoldable pub check_interrupts : Outside → Machine → Bool × Machine
check_interrupts o m =
    if not (any_pending m.pending) || not m.cpu.psw.interrupt_enable
    then (true, m)
    else service (highest m.pending) o m

-- The cycle counter and the timer.
unfoldable pub tick_timer : Machine → Machine
tick_timer m =
    let counted = set_cycles_counter ((m.cpu.cycles_counter + 1) % 2 ^ 64) m in
    if leb counted.cpu.timer_limit counted.cpu.cycles_counter && ltb 0 counted.cpu.timer_limit
    then raise_interrupt ic_timer (set_cycles_counter 0 counted)
    else counted

-- The rest of a step, after the fetch. The status of `execute` is only logged.
unfoldable pub after_fetch : Outside → CpuStatus × Machine → Bool × Machine
after_fetch o (cpu_stop, m) = (false, m)
after_fetch o (cpu_ok, m) = check_interrupts o (tick_timer (execute o (decode m.cpu.ir) m).1)

unfoldable pub cpu_step : Outside → Machine → Bool × Machine
unfolding after_fetch
cpu_step o m = after_fetch o (fetch m)

-- The loop of `cpuRun`, for as many steps as the list has entries.
unfoldable pub cpu_run : List Outside → Machine → Machine
cpu_run [] m = m
cpu_run (o ∷ os) m =
    let (active, m') = cpu_step o m in let rest = cpu_run os m' in if active then rest else m'

unfoldable pub cpu_reset : Machine → Machine
cpu_reset m = record m { cpu = zero_cpu; pending = λ _. false; interrupt_value = pos 0 }

-- A process has ended: its blocks are freed and it is FINISHED.
unfoldable pub end_process : ℕ → Machine → Machine
end_process k m =
    let p = m.table k in
    set_yield false (record m {
      free_partitions = (free_memory p.start_block p.block_count m.free_partitions).1;
      table = update m.table k (record p { state = finished });
    })

-- One round of `cpuThreadWorker`; the pauses between rounds are left out.
unfoldable pub worker_round : Outside → Machine → Machine
unfolding end_process
worker_round o m = elim m.current [
  | none ↦ scheduler_tick m
  | some k ↦
      let (keep_running, m') = cpu_step o m in
      if not keep_running
      then scheduler_tick (end_process k m')
      else if m'.os_yield
      then scheduler_tick (set_yield false m')
      else m'
]
