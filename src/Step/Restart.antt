-- ===== src/Step/Restart.antt =====
-- A system call that has to wait for the monitor (src/kernel/syscalls.c): the program's SVC
-- instruction runs again.
use project_lucario.Base.{
  ℕ, suc, ◌+◌, ◌≤◌, ◌<◌, ◌≡◌, refl, ap, sym, ◌∙◌, fun_ext, arith, true, false, some, update,
}
use project_lucario.Base.Int.{ℤ, pos, pos_part, add32, sub32, int32, ◌-ℤ◌}
use project_lucario.Machine.{
  Machine, Cpu, Outside, syscall_block, ic_syscall, set_interrupt_enable, blocked_io, ConditionCode,
  set_cc, set_pc,
}
use project_lucario.Words.{word_to_int, int_to_word}
use project_lucario.Words.RoundTrip.{int_to_word_fits, word_to_int-word_of}
use project_lucario.Interrupt.{set_bit}
use project_lucario.Memory.{read_memory, write_memory}
use project_lucario.Memory.Protection.{read_memory_allowed, is_valid_instruction_iff}
use project_lucario.Context.Stack.{InPartition, add32_pos, translate-slot, slot-IsAllowed}
use project_lucario.Context.Saving.{HasRoom, HasRoom-masked, saved}
use project_lucario.Context.RoundTrip.{IsSaved, saved-IsSaved, saved-pc, restored-saved}
use project_lucario.Syscalls.{
  handle_syscall, block_on_monitor, read_value, update_current, value_read,
}
use project_lucario.Step.{service, after_syscall}
use project_lucario.Step.Services.{cleared, masked, service-resumed}
use project_lucario.Step.Reading.{write_cell}

-- The process waits for input or output.
abbrev pub waiting : ℕ → Machine → Machine
waiting k m = record m { table = update m.table k (record (m.table k) { state = blocked_io }) }

sub32_small : (n : ℕ) → n < 10_000_000 → sub32 (pos (suc n)) (pos 1) ≡ pos n
unfolding sub32 int32 ◌-ℤ◌
sub32_small n h = ground arith

waiting-current :
    (k : ℕ) (m : Machine)
    → m.current ≡ some k
    → update_current (λ p. record p { state = blocked_io }) m ≡ waiting k m
unfolding update_current
waiting-current k m e = rw e refl

module _ (b l s n k : ℕ) (m : Machine) (v : InPartition b l m) (stack : m.cpu.sp ≡ pos s)
    (fits : b + suc s ≤ l) (runs : m.current ≡ some k) (counter : m.ram (b + suc s) ≡ pos (suc n))
    (small : n < 9_999_999) where
  there : InPartition b l (waiting k m)
  there = record { user = v.user; base = v.base; limit = v.limit; inside = v.inside }

  slot : add32 m.cpu.sp (pos 1) ≡ pos (suc s)
  slot =
      ap (λ z. add32 z (pos 1)) stack
      ∙ add32_pos s 1 (omega (arith, v.inside))
      ∙ ap pos (omega arith)

  abbrev coded : ConditionCode → Machine
  coded c = set_cc c (waiting k m)

  written :
      (r : ℤ × ConditionCode)
      → r.0 ≡ pos n
      → (write_memory (pos (suc s)) r.0 (coded r.1)).1
        ≡ record (coded r.1) { ram = update m.ram (b + suc s) (pos n) }
  written r e =
      ap (λ w. (write_memory (pos (suc s)) w (coded r.1)).1) e
      ∙ write_cell b l (suc s) (pos n) (coded r.1)
          (record { user = v.user; base = v.base; limit = v.limit; inside = v.inside }) fits
          ((is_valid_instruction_iff (pos n)).1 (omega arith))

  pc-read :
      (o : Outside)
      → word_to_int (value_read (read_memory (waiting k m) (pos (suc s))).1 o.saved_pc_word)
        ≡ pos (suc n)
  pc-read o =
      ap (λ r. word_to_int (value_read r.1 o.saved_pc_word))
        (read_memory_allowed (waiting k m) (pos (suc s))
          (slot-IsAllowed b l (suc s) (waiting k m) there fits))
      ∙ ap (λ z. word_to_int (m.ram (pos_part z)))
          (translate-slot b l (suc s) (waiting k m) there fits)
      ∙ ap word_to_int counter
      ∙ word_to_int-word_of (pos (suc n)) (omega arith)

  block_on_monitor_lem :
      (o : Outside)
      → block_on_monitor o m ≡ (
        syscall_block,
        record (set_cc (int_to_word (pos n)).1 (waiting k m)) {
          ram = update m.ram (b + suc s) (pos n);
        },
      )
  unfolding block_on_monitor
  block_on_monitor_lem o =
      rw (waiting-current k m runs, slot, pc-read o, sub32_small n (omega arith))
        (ap (λ x. (syscall_block, x))
          (written (int_to_word (pos n)) (ap (λ r. r.0) (int_to_word_fits (pos n) (omega arith)))))

read_value-closed :
    (o : Outside) (m : Machine) → m.monitor_active ≡ false → read_value o m ≡ block_on_monitor o m
unfolding read_value
read_value-closed o m closed = rw closed refl

handle_syscall-reads :
    (o : Outside) (m : Machine) → word_to_int m.cpu.ac ≡ pos 3 → handle_syscall o m ≡ read_value o m
unfolding handle_syscall
handle_syscall-reads o m ac = rw ac refl

-- The saved context with another program counter in it.
saved-moved :
    (b s n : ℕ) (m : Machine)
    → update (saved b s m).ram (b + suc s) (pos n) ≡ (saved b s (set_pc (pos n) m)).ram
saved-moved b s n m = fun_ext (λ j. ground arith)

HasRoom-moved :
    (b l s n : ℕ) (m : Machine)
    → HasRoom b l s m
    → n < 10_000_000
    → HasRoom b l s (set_pc (pos n) m)
HasRoom-moved b l s n m v h = record {
  place = record {
    user = v.place.user;
    base = v.place.base;
    limit = v.place.limit;
    inside = v.place.inside;
  };
  stack = v.stack;
  fits = v.fits;
  ac = v.ac;
  rx = v.rx;
  pc = (is_valid_instruction_iff (pos n)).1 (omega arith);
  code = v.code;
}

-- For a current process in user mode with interrupts enabled, with room for seven words on its stack,
-- and with words in its registers that memory takes, service 3 with the monitor closed leaves the
-- process waiting, with its program counter one back and all other registers as they were; besides
-- them only the seven cells of RAM, the interrupt's bit and the request for another process change.
-- The program counter is from 1 to 9999999.
pub service-waits :
    (o : Outside) (b l s n k : ℕ) (m : Machine)
    → HasRoom b l s m
    → m.cpu.psw.interrupt_enable ≡ true
    → m.current ≡ some k
    → m.cpu.psw.pc ≡ pos (suc n)
    → n < 9_999_999
    → word_to_int m.cpu.ac ≡ pos 3
    → m.monitor_active ≡ false
    → service ic_syscall o m ≡ (
      true,
      record (waiting k (set_pc (pos n) m)) {
        ram = (saved b s (set_pc (pos n) m)).ram;
        pending = set_bit ic_syscall false m.pending;
        os_yield = true;
      },
    )
unfolding after_syscall
service-waits o b l s n k m v e runs counter small ac closed =
    service-resumed o b l s m v syscall_block called handled refl ready
    ∙ ap (λ (c : Cpu). (true, set_interrupt_enable true (record (cleared yielded) { cpu = c })))
        (restored-saved ic_syscall b l s moved room refl)
    ∙ ap
        (λ i. (
          true,
          record (cleared yielded) {
            cpu = record m.cpu { psw = record m.cpu.psw { pc = pos n; interrupt_enable = i } };
          },
        ))
        (sym e)
  where
    kept : Machine
    kept = saved b s (masked o b l s m v)

    moved : Machine
    moved = set_pc (pos n) (masked o b l s m v)

    room : HasRoom b l s moved
    room = HasRoom-moved b l s n (masked o b l s m v) (HasRoom-masked b l s m false v) (omega arith)

    called : Machine
    called = record (set_cc (int_to_word (pos n)).1 (waiting k kept)) {
      ram = (saved b s moved).ram;
    }

    yielded : Machine
    yielded = record called { os_yield = true }

    handled : handle_syscall o kept ≡ (syscall_block, called)
    handled =
        handle_syscall-reads o kept ac
        ∙ read_value-closed o kept closed
        ∙ (block_on_monitor_lem b l s n k kept
              (saved-IsSaved b l s (masked o b l s m v) (HasRoom-masked b l s m false v)).place refl
              (omega (arith, v.fits)) runs (saved-pc b s (masked o b l s m v) ∙ counter) small o
            ∙ ap
                (λ (r : ℕ → ℤ). (
                  syscall_block,
                  record (set_cc (int_to_word (pos n)).1 (waiting k kept)) { ram = r },
                ))
                (saved-moved b s n (masked o b l s m v)))

    before : IsSaved b l s (saved b s moved)
    before = saved-IsSaved b l s moved room

    ready : IsSaved b l s (cleared yielded)
    ready = record {
      place = record {
        user = before.place.user;
        base = before.place.base;
        limit = before.place.limit;
        inside = before.place.inside;
      };
      stack = before.stack;
      fits = before.fits;
      mode = before.mode;
      base = before.base;
      limit = before.limit;
    }
