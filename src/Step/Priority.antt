-- ===== src/Step/Priority.antt =====
-- Which interrupt is handled first, and what stays pending (src/hardware/cpu.c, `checkInterrupts`).
use project_lucario.Base.{
  ℕ, ◌≤◌, ◌≡◌, ◌≢◌, refl, ap, ◌∙◌, arith, Bool, true, false, Option, if◌then◌else◌,
}
use project_lucario.Base.Int.{ℤ}
use project_lucario.Machine.{
  Machine, InterruptCode, ic_invalid_syscall, ic_invalid_int_code, ic_syscall, ic_timer, ic_io_done,
  ic_invalid_instr, ic_invalid_addr, ic_underflow, ic_overflow, Outside, set_interrupt_enable,
}
use project_lucario.Interrupt.{set_bit, any_pending}
use project_lucario.Memory.{write_memory}
use project_lucario.Context.{
  internal_push, internal_pop, push_field, pop_into, save_context, restore_context,
}
use project_lucario.Cpu.{load_result}
use project_lucario.Syscalls.{handle_syscall, block_on_monitor, read_value, print_value, sleep}
use project_lucario.Scheduler.{scheduler_tick}
use project_lucario.Step.{highest, handle_interrupt, service, check_interrupts, end_process}

-- The order of the codes, from the first handled.
abbrev pub rank : InterruptCode → ℕ
rank ic_invalid_instr = 0
rank ic_invalid_addr = 1
rank ic_overflow = 2
rank ic_underflow = 3
rank ic_syscall = 4
rank ic_timer = 5
rank ic_io_done = 6
rank ic_invalid_syscall = 7
rank ic_invalid_int_code = 8

-- Among pending interrupts the one handled is pending, and every pending one comes at or after it in
-- the order: instruction fault, address fault, overflow, underflow, system call, timer, end of a
-- transfer, unknown service, unknown code.
pub highest_lem :
    (p : InterruptCode → Bool) (c : InterruptCode)
    → any_pending p ≡ true
    → p c ≡ true
    → (p (highest p) ≡ true) × (rank (highest p) ≤ rank c)
unfolding highest
highest_lem p c a h = ground arith

pending-internal_push : (w : ℤ) (m : Machine) → (internal_push w m).pending ≡ m.pending
unfolding internal_push write_memory
pending-internal_push w m = ground arith

pending-internal_pop : (m : Machine) → (internal_pop m).1.pending ≡ m.pending
unfolding internal_pop
pending-internal_pop m = refl

pending-push_field : (get : Machine → ℤ) (m : Machine) → (push_field get m).pending ≡ m.pending
unfolding push_field
pending-push_field get m = pending-internal_push (get m) m

pending-save_context : (m : Machine) → (save_context m).pending ≡ m.pending
unfolding save_context
pending-save_context m = simp pending-push_field

pending-restore_context :
    (code : InterruptCode) (m : Machine) → (restore_context code m).pending ≡ m.pending
unfolding restore_context pop_into internal_pop
pending-restore_context code m = refl

pending-write_memory : (a w : ℤ) (m : Machine) → (write_memory a w m).1.pending ≡ m.pending
unfolding write_memory
pending-write_memory a w m = ground arith

pending-block_on_monitor :
    (o : Outside) (m : Machine) → (block_on_monitor o m).1.pending ≡ m.pending
unfolding block_on_monitor
pending-block_on_monitor o m = grind (arith, pending-write_memory)

pending-read_value : (o : Outside) (m : Machine) → (read_value o m).1.pending ≡ m.pending
unfolding read_value
pending-read_value o m = grind (arith, pending-write_memory, pending-block_on_monitor o m)

pending-print_value :
    (param : Option ℤ) (o : Outside) (m : Machine) → (print_value param o m).1.pending ≡ m.pending
unfolding print_value
pending-print_value param o m = ground (arith, pending-block_on_monitor o m)

pending-sleep : (param : Option ℤ) (m : Machine) → (sleep param m).1.pending ≡ m.pending
unfolding sleep
pending-sleep param m = ground arith

pending-handle_syscall : (o : Outside) (m : Machine) → (handle_syscall o m).1.pending ≡ m.pending
unfolding handle_syscall
pending-handle_syscall o m = grind (arith, pending-print_value, pending-read_value, pending-sleep)

pending-handle_interrupt :
    (code : InterruptCode) (o : Outside) (m : Machine)
    → (handle_interrupt code o m).1.pending ≡ m.pending
unfolding handle_interrupt load_result
pending-handle_interrupt code o m = ground (arith, pending-handle_syscall o m)

-- Handling an interrupt clears its bit and no other.
service-pending :
    (code : InterruptCode) (o : Outside) (m : Machine)
    → (service code o m).1.pending ≡ set_bit code false m.pending
unfolding service
service-pending code o m =
    finish (handle_interrupt code o masked).0 (handle_interrupt code o masked).1
    ∙ ap (set_bit code false) (
        pending-handle_interrupt code o masked
        ∙ pending-save_context (set_interrupt_enable false m))
  where
    masked : Machine
    masked = save_context (set_interrupt_enable false m)

    finish :
        (status : Bool) (handled : Machine)
        → (set_interrupt_enable true (
            if status
            then restore_context code
                (record handled { pending = set_bit code false handled.pending })
            else record handled { pending = set_bit code false handled.pending })).pending
          ≡ set_bit code false handled.pending
    finish true handled =
        pending-restore_context code
          (record handled { pending = set_bit code false handled.pending })
    finish false handled = refl

check_interrupts_enabled :
    (o : Outside) (m : Machine)
    → any_pending m.pending ≡ true
    → m.cpu.psw.interrupt_enable ≡ true
    → check_interrupts o m ≡ service (highest m.pending) o m
unfolding check_interrupts
check_interrupts_enabled o m a e = ground arith

any_pending-pending :
    (p : InterruptCode → Bool) (c : InterruptCode) → p c ≡ true → any_pending p ≡ true
any_pending-pending p c h = ground arith

set_bit-other : (c d : InterruptCode) (p : InterruptCode → Bool) → d ≢ c → set_bit c false p d ≡ p d
set_bit-other c d p ne = ground arith

set_bit-same : (c : InterruptCode) (p : InterruptCode → Bool) → set_bit c false p c ≡ false
set_bit-same c p = ground arith

-- With interrupts enabled and one pending, a check handles exactly one, a pending one that no other
-- pending one precedes in this order: instruction fault, address fault, overflow, underflow, system
-- call, timer, end of a transfer, unknown service, unknown code. Its bit is cleared, and every other
-- interrupt stays as it was.
pub check_interrupts-pending :
    (o : Outside) (m : Machine) (d : InterruptCode)
    → m.pending d ≡ true
    → m.cpu.psw.interrupt_enable ≡ true
    → (c : InterruptCode) × (m.pending c ≡ true)
      × ((e : InterruptCode) → m.pending e ≡ true → rank c ≤ rank e)
      × (check_interrupts o m ≡ service c o m)
      × ((check_interrupts o m).1.pending c ≡ false)
      × ((e : InterruptCode) → e ≢ c → (check_interrupts o m).1.pending e ≡ m.pending e)
check_interrupts-pending o m d h e =
    let c = highest m.pending in
    let a = any_pending-pending m.pending d h in
    let handled = check_interrupts_enabled o m a e in
    let bits : (check_interrupts o m).1.pending ≡ set_bit c false m.pending =
      ap (λ (r : Bool × Machine). r.1.pending) handled ∙ service-pending c o m in
    (
      c,
      (highest_lem m.pending d a h).0,
      λ x g. (highest_lem m.pending x a g).1,
      handled,
      ap (λ (p : InterruptCode → Bool). p c) bits ∙ set_bit-same c m.pending,
      λ x ne. ap (λ (p : InterruptCode → Bool). p x) bits ∙ set_bit-other c x m.pending ne,
    )

highest-invalid_instr :
    (p : InterruptCode → Bool) → p ic_invalid_instr ≡ true → highest p ≡ ic_invalid_instr
unfolding highest
highest-invalid_instr p h = rw h refl

service-invalid_instr : (o : Outside) (m : Machine) → (service ic_invalid_instr o m).0 ≡ false
unfolding service handle_interrupt
service-invalid_instr o m = refl

pending-scheduler_tick : (m : Machine) → (scheduler_tick m).pending ≡ m.pending
unfolding scheduler_tick
pending-scheduler_tick m = ground arith

pending-end_process : (k : ℕ) (m : Machine) → (end_process k m).pending ≡ m.pending
unfolding end_process
pending-end_process k m = refl

-- With interrupts enabled and both faults pending, a check stops the process for the instruction
-- fault, and the address fault is still pending after the process is ended and the scheduler ticks.
pub fault_outlives_process :
    (o : Outside) (m : Machine) (k : ℕ)
    → m.pending ic_invalid_instr ≡ true
    → m.pending ic_invalid_addr ≡ true
    → m.cpu.psw.interrupt_enable ≡ true
    → ((check_interrupts o m).0 ≡ false)
      × ((scheduler_tick (end_process k (check_interrupts o m).1)).pending ic_invalid_addr ≡ true)
fault_outlives_process o m k hi ha e =
    let stopped : check_interrupts o m ≡ service ic_invalid_instr o m =
      check_interrupts_enabled o m (ground arith) e
      ∙ ap (λ c. service c o m) (highest-invalid_instr m.pending hi) in
    (
      ap (λ (r : Bool × Machine). r.0) stopped ∙ service-invalid_instr o m,
      ap (λ (p : InterruptCode → Bool). p ic_invalid_addr)
            (pending-scheduler_tick (end_process k (check_interrupts o m).1)
              ∙ pending-end_process k (check_interrupts o m).1
              ∙ ap (λ (r : Bool × Machine). r.1.pending) stopped
              ∙ service-pending ic_invalid_instr o m)
          ∙ ha,
    )
