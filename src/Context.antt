-- ===== src/Context.antt =====
-- Saving and restoring the processor's registers on the program's stack around an interrupt
-- (src/hardware/cpu.c). A failed access is only logged.
pub mod Stack
pub mod Saving
pub mod RoundTrip
use project_lucario.Base.{ℕ, Bool, true, false, ◌||◌, Option, none, some, ◌==◌, if◌then◌else◌}
use project_lucario.Base.Int.{ℤ, pos, add32, sub32}
use project_lucario.Machine.{
  Machine, InterruptCode, ic_overflow, ic_underflow, interrupt_number, word_of_mode, mode_of_word,
  word_of_cc, cc_of_word, set_ac, set_sp, set_rx, set_rb, set_rl, set_pc, set_cc, set_mode,
}
use project_lucario.Memory.{read_memory, write_memory}

unfoldable pub internal_push : ℤ → Machine → Machine
internal_push value m =
    let moved = set_sp (sub32 m.cpu.sp (pos 1)) m in (write_memory moved.cpu.sp value moved).1

abbrev pub or_zero : Option ℤ → ℤ
or_zero (some word) = word
or_zero none = pos 0

unfoldable pub internal_pop : Machine → ℤ × Machine
internal_pop m = (or_zero (read_memory m m.cpu.sp).1, set_sp (add32 m.cpu.sp (pos 1)) m)

-- A push of a register, and a pop into one.
unfoldable pub push_field : (Machine → ℤ) → Machine → Machine
push_field get m = internal_push (get m) m

unfoldable pub pop_into : (ℤ → Machine → Machine) → Machine → Machine
pop_into put m = let (value, popped) = internal_pop m in put value popped

unfoldable pub save_context : Machine → Machine
save_context m =
    push_field (λ x. x.cpu.ac)
      (push_field (λ x. x.cpu.psw.pc)
        (push_field (λ x. word_of_cc x.cpu.psw.condition_code)
          (push_field (λ x. word_of_mode x.cpu.psw.mode)
            (push_field (λ x. x.cpu.rb)
              (push_field (λ x. x.cpu.rl) (push_field (λ x. x.cpu.rx) m))))))

-- The arithmetic interrupts keep the accumulator that their handler has set.
abbrev pub keeps_ac : InterruptCode → Bool
keeps_ac code =
    interrupt_number code == interrupt_number ic_overflow
    || interrupt_number code == interrupt_number ic_underflow

abbrev pub restore_ac : InterruptCode → ℤ → Machine → Machine
restore_ac code saved_ac m = set_ac (if keeps_ac code then m.cpu.ac else saved_ac) m

unfoldable pub restore_context : InterruptCode → Machine → Machine
restore_context code m = pop_into set_rx (
    pop_into set_rl (
      pop_into set_rb (
        pop_into (λ w. set_mode (mode_of_word w))
          (pop_into (λ w. set_cc (cc_of_word w))
            (pop_into set_pc (pop_into (restore_ac code) m))))))
