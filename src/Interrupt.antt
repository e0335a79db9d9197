-- ===== src/Interrupt.antt =====
-- Raising and clearing interrupts (src/hardware/cpu.c): the bits of `interruptBitmap`.
use project_lucario.Base.{Bool, true, ◌||◌, ◌==◌, if◌then◌else◌}
use project_lucario.Base.Int.{ℤ}
use project_lucario.Machine.{
  Machine, InterruptCode, interrupt_number, ic_invalid_syscall, ic_invalid_int_code, ic_syscall,
  ic_timer, ic_io_done, ic_invalid_instr, ic_invalid_addr, ic_underflow, ic_overflow,
}

-- `bitmap |= 1 << code`, and `bitmap &= ~(1 << code)`
abbrev pub set_bit : InterruptCode → Bool → (InterruptCode → Bool) → InterruptCode → Bool
set_bit code b pending c = if interrupt_number c == interrupt_number code then b else pending c

abbrev pub raise_interrupt : InterruptCode → Machine → Machine
raise_interrupt code m = record m { pending = set_bit code true m.pending }

abbrev pub raise_interrupt_related : InterruptCode → ℤ → Machine → Machine
raise_interrupt_related code related m = record m {
  pending = set_bit code true m.pending;
  interrupt_value = related;
}

-- `interruptBitmap != 0`
abbrev pub any_pending : (InterruptCode → Bool) → Bool
any_pending p =
    p ic_invalid_syscall
    || p ic_invalid_int_code
    || p ic_syscall
    || p ic_timer
    || p ic_io_done
    || p ic_invalid_instr
    || p ic_invalid_addr
    || p ic_underflow
    || p ic_overflow
