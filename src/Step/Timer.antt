-- ===== src/Step/Timer.antt =====
-- A timer interrupt is invisible to the program (src/hardware/cpu.c, `checkInterrupts`).
use project_lucario.Base.{ℕ, ◌≡◌, refl, ap, sym, ◌∙◌, Bool, true, false}
use project_lucario.Machine.{Machine, Cpu, ic_timer, Outside, set_interrupt_enable}
use project_lucario.Interrupt.{set_bit}
use project_lucario.Context.{restore_context}
use project_lucario.Context.Saving.{HasRoom, HasRoom-masked, saved, save_context_lem}
use project_lucario.Context.RoundTrip.{IsSaved, saved-IsSaved, restored-saved, restore_context_lem}
use project_lucario.Step.{service, handle_interrupt}

-- For a program in user mode with interrupts enabled, with room for seven words on its stack, and
-- with words in AC, RX and PC that memory takes, the handling of a timer interrupt asks for another
-- process and gives every register back; besides the seven cells of RAM and the timer's bit nothing
-- changes.
pub service-timer :
    (o : Outside) (b l s : ℕ) (m : Machine)
    → HasRoom b l s m
    → m.cpu.psw.interrupt_enable ≡ true
    → service ic_timer o m ≡ (
      true,
      record m {
        ram = (saved b s m).ram;
        pending = set_bit ic_timer false m.pending;
        os_yield = true;
      },
    )
unfolding service handle_interrupt
service-timer o b l s m v e =
    ap (λ x. finish (restore_context ic_timer (yielded x))) (save_context_lem b l s masked room)
    ∙ ap finish (restore_context_lem ic_timer b l s (yielded (saved b s masked)) ready)
    ∙ ap (λ (c : Cpu). finish (record (yielded (saved b s masked)) { cpu = c }))
        (restored-saved ic_timer b l s masked room refl)
    ∙ ap
        (λ i. (
          true,
          record m {
            cpu = record m.cpu { psw = record m.cpu.psw { interrupt_enable = i } };
            ram = (saved b s m).ram;
            pending = set_bit ic_timer false m.pending;
            os_yield = true;
          },
        ))
        (sym e)
  where
    masked : Machine
    masked = set_interrupt_enable false m

    yielded : Machine → Machine
    yielded x = record x { os_yield = true; pending = set_bit ic_timer false x.pending }

    finish : Machine → Bool × Machine
    finish x = (true, set_interrupt_enable true x)

    room : HasRoom b l s masked
    room = HasRoom-masked b l s m false v

    before : IsSaved b l s (saved b s masked)
    before = saved-IsSaved b l s masked room

    ready : IsSaved b l s (yielded (saved b s masked))
    ready = record {
      place = record {
        user = before.place.user;
        base = before.place.base;
        limit = before.place.limit;
        inside = before.place.inside;
      };
      stack = before.stack;
      fits = before.fits;
      mode = before.mode;
      base = before.base;
      limit = before.limit;
    }
