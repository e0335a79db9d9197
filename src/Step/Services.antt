-- ===== src/Step/Services.antt =====
-- A system call from the SVC instruction to the program's next one (src/hardware/cpu.c,
-- src/kernel/syscalls.c), and service 2, which prints.
use project_lucario.Base.{
  ℕ, ◌+◌, ◌≤◌, ◌≡◌, refl, ap, sym, ◌∙◌, arith, Bool, true, false, some, if◌then◌else◌,
}
use project_lucario.Base.Int.{ℤ, pos, pos_part, add32}
use project_lucario.Machine.{
  Machine, Cpu, Outside, SyscallStatus, syscall_success, ic_syscall, set_interrupt_enable, output,
}
use project_lucario.Words.{word_to_int}
use project_lucario.Interrupt.{set_bit}
use project_lucario.Memory.{read_memory}
use project_lucario.Memory.Protection.{read_memory_allowed}
use project_lucario.Context.{restore_context}
use project_lucario.Context.Stack.{InPartition, add32_pos, translate-slot, slot-IsAllowed}
use project_lucario.Context.Saving.{HasRoom, HasRoom-masked, saved, save_context_lem}
use project_lucario.Context.RoundTrip.{
  IsSaved, saved-IsSaved, restored-saved, restored, restore_context_lem,
}
use project_lucario.Syscalls.{
  handle_syscall, print_value, monitor_save_history, current_pid, block_on_monitor,
}
use project_lucario.Step.{service, handle_interrupt, after_syscall}

abbrev pub cleared : Machine → Machine
cleared x = record x { pending = set_bit ic_syscall false x.pending }

print_value-active :
    (o : Outside) (w : ℤ) (m : Machine)
    → m.monitor_active ≡ true
    → print_value (some w) o m
      ≡ (syscall_success, monitor_save_history (output (current_pid m) (word_to_int w)) m)
unfolding print_value
print_value-active o w m e =
    ap
      (λ c.
        if c
        then (syscall_success, monitor_save_history (output (current_pid m) (word_to_int w)) m)
        else block_on_monitor o m)
      e

abbrev resume : Bool × Machine → Bool × Machine
resume (status, handled) = (
  status,
  set_interrupt_enable true
      (if status then restore_context ic_syscall (cleared handled) else cleared handled),
)

-- The word on top of the program's stack, which lies above the seven saved ones.
module _ (b l s : ℕ) (m : Machine) (v : InPartition b l m) (stack : m.cpu.sp ≡ pos s)
    (fits : b + (s + 7) ≤ l) where
  param-read : (read_memory m (add32 m.cpu.sp (pos 7))).1 ≡ some (m.ram (b + (s + 7)))
  param-read =
      ap (λ z. (read_memory m z).1)
        (ap (λ z. add32 z (pos 7)) stack ∙ add32_pos s 7 (omega (arith, v.inside)))
      ∙ ap (λ r. r.1) (read_memory_allowed m (pos (s + 7)) (slot-IsAllowed b l (s + 7) m v fits))
      ∙ ap (λ z. some (m.ram (pos_part z))) (translate-slot b l (s + 7) m v fits)

  -- Service 2 with the monitor open adds one line, the number on top of the program's stack, to the
  -- monitor's history, and changes nothing else.
  handle_syscall-print :
      (o : Outside)
      → word_to_int m.cpu.ac ≡ pos 2
      → m.monitor_active ≡ true
      → handle_syscall o m ≡ (
        syscall_success,
        monitor_save_history (output (current_pid m) (word_to_int (m.ram (b + (s + 7))))) m,
      )
  unfolding handle_syscall
  handle_syscall-print o ac open_monitor =
      rw ac refl
      ∙ ap (λ p. print_value p o m) param-read
      ∙ print_value-active o (m.ram (b + (s + 7))) m open_monitor

module _ (o : Outside) (b l s : ℕ) (m : Machine) (v : HasRoom b l s m) where
  abbrev pub masked : Machine
  masked = set_interrupt_enable false m

  pub service-resumed :
      (st : SyscallStatus) (h : Machine)
      → handle_syscall o (saved b s masked) ≡ (st, h)
      → (after_syscall (st, h)).0 ≡ true
      → IsSaved b l s (cleared (after_syscall (st, h)).1)
      → service ic_syscall o m ≡ (
        true,
        set_interrupt_enable true (restored ic_syscall b s (cleared (after_syscall (st, h)).1)),
      )
  unfolding service handle_interrupt
  service-resumed st h e going ready =
      ap (λ x. resume (after_syscall (handle_syscall o x)))
        (save_context_lem b l s masked (HasRoom-masked b l s m false v))
      ∙ ap (λ r. resume (after_syscall r)) e
      ∙ ap (λ g. resume (g, (after_syscall (st, h)).1)) going
      ∙ ap (λ x. (true, set_interrupt_enable true x))
          (restore_context_lem ic_syscall b l s (cleared (after_syscall (st, h)).1) ready)

-- For a program in user mode with interrupts enabled, with room for seven words on its stack below a
-- word of its own, and with words in its registers that memory takes, service 2 with the monitor open
-- adds the number of that word to the monitor's history and gives every register back; besides the
-- history, the seven cells of RAM and the interrupt's bit nothing changes.
pub service-print :
    (o : Outside) (b l s : ℕ) (m : Machine)
    → HasRoom b l s m
    → b + (s + 7) ≤ l
    → m.cpu.psw.interrupt_enable ≡ true
    → word_to_int m.cpu.ac ≡ pos 2
    → m.monitor_active ≡ true
    → service ic_syscall o m ≡ (
      true,
      monitor_save_history
          (output (current_pid m) (word_to_int (m.ram (b + (s + 7)))))
          (record m { ram = (saved b s m).ram; pending = set_bit ic_syscall false m.pending }),
    )
unfolding monitor_save_history after_syscall
service-print o b l s m v fits e ac active =
    service-resumed o b l s m v syscall_success called
      (handle_syscall-print b l s kept before.place refl fits o ac active
        ∙ ap
            (λ w. (
              syscall_success,
              monitor_save_history (output (current_pid kept) (word_to_int w)) kept,
            ))
            param)
      refl ready
    ∙ ap (λ (c : Cpu). finish (record (cleared called) { cpu = c }))
        (restored-saved ic_syscall b l s (masked o b l s m v) (HasRoom-masked b l s m false v) refl)
    ∙ ap
        (λ i. (
          true,
          record (cleared called) {
            cpu = record m.cpu { psw = record m.cpu.psw { interrupt_enable = i } };
          },
        ))
        (sym e)
  where
    kept : Machine
    kept = saved b s (masked o b l s m v)

    called : Machine
    called = monitor_save_history (output (current_pid m) (word_to_int (m.ram (b + (s + 7))))) kept

    finish : Machine → Bool × Machine
    finish x = (true, set_interrupt_enable true x)

    param : kept.ram (b + (s + 7)) ≡ m.ram (b + (s + 7))
    param = ground arith

    before : IsSaved b l s kept
    before = saved-IsSaved b l s (masked o b l s m v) (HasRoom-masked b l s m false v)

    ready : IsSaved b l s (cleared called)
    ready = record {
      place = record {
        user = before.place.user;
        base = before.place.base;
        limit = before.place.limit;
        inside = before.place.inside;
      };
      stack = before.stack;
      fits = before.fits;
      mode = before.mode;
      base = before.base;
      limit = before.limit;
    }
