-- ===== src/Tests/Creation.antt =====
-- The theorems on a creation in steps, at concrete inputs.
use project_lucario.Base.{ℕ, zero, suc, ◌≡◌, refl, ap, arith, subst, [], ◌∷◌}
use project_lucario.Base.Int.{tdiv, add32, sub32, ◌+ℤ◌, ◌-ℤ◌}
use project_lucario.Machine.{Text, OsStatus, os_success}
use project_lucario.Mmu.{calculate_required_blocks, allocate_memory, allocate_from, mmu_init}
use project_lucario.Scheduler.{
  each_process, scheduler_tick, find_ready, suspend_current, wake_all, unblock_one, wake_one,
}
use project_lucario.Step.{worker_round}
use project_lucario.Vfs.{
  vfs_file_exists, vfs_load_to_disk, load_file, vfs_register_file, vfs_get_metadata, linear,
  same_text,
}
use project_lucario.Core.{System, init_os, get_free_pcb_index, free_pcb_from, ensure_loaded}
use project_lucario.Core.Phases.{Phase, searching, returned, advance, advance_all}
use project_lucario.Kernel.Owners.{IsSound}
use project_lucario.Kernel.Admission.{init_os-IsSound}
use project_lucario.Kernel.Ending.{own_steps, Reaches-returns}
use project_lucario.Kernel.Interleaving.{Reaches, called, turn, creation, work, Reaches-IsSound}
use project_lucario.Tests.{user_machine, quiet}
use project_lucario.Tests.System.{one_host, booted}

abbrev program : Text
program = b'p' ∷ []

abbrev worked : Phase × System → Phase × System
worked c = (c.0, record c.1 { machine = worker_round quiet c.1.machine })

-- The entry is reserved, and the worker makes a round.
abbrev interrupted : Phase × System
interrupted = worked (advance one_host program searching booted)

abbrev before_return : Phase × System
before_return = advance_all one_host program 7 interrupted

-- The worker makes another round before the entry is made READY.
abbrev finishing : Phase × System
finishing = worked before_return

abbrev at_return : Phase × System
at_return = advance one_host program finishing.0 finishing.1

at_return-returned : at_return.0 ≡ returned os_success
unfolding advance get_free_pcb_index free_pcb_from ensure_loaded vfs_file_exists vfs_load_to_disk
    load_file vfs_register_file vfs_get_metadata calculate_required_blocks allocate_memory
    allocate_from init_os mmu_init each_process linear ◌-ℤ◌ ◌+ℤ◌ add32 tdiv same_text sub32
    worker_round scheduler_tick find_ready suspend_current wake_all unblock_one wake_one
at_return-returned = refl

advance_all-Reaches :
    (n : ℕ) (c : Phase × System)
    → Reaches one_host program booted c
    → Reaches one_host program booted (advance_all one_host program n c)
advance_all-Reaches zero c r = r
advance_all-Reaches (suc n) c r =
    advance_all-Reaches n (advance one_host program c.0 c.1) (turn r (creation c))

at_return-Reaches : Reaches one_host program booted at_return
at_return-Reaches =
    turn
      (turn
        (advance_all-Reaches 7 interrupted (
          turn (turn called (creation (searching, booted)))
            (work quiet (advance one_host program searching booted))))
        (work quiet before_return))
      (creation finishing)

Reaches-IsSound_example : IsSound at_return.1.machine
Reaches-IsSound_example =
    Reaches-IsSound one_host program booted at_return.1 os_success (init_os-IsSound user_machine) (
      subst (λ (c : Phase). Reaches one_host program booted (c, at_return.1)) at_return-returned
        at_return-Reaches)

-- The call, and a number of turns of the creation, with a round of the worker before each.
abbrev alternating : ℕ → Phase × System
alternating zero = (searching, booted)
alternating (suc n) = let c = worked (alternating n) in advance one_host program c.0 c.1

abbrev alternation : (n : ℕ) → Reaches one_host program booted (alternating n)
alternation zero = called
alternation (suc n) =
    turn (turn (alternation n) (work quiet (alternating n))) (creation (worked (alternating n)))

own_steps-alternation : (n : ℕ) → own_steps (alternation n) ≡ n
own_steps-alternation zero = refl
own_steps-alternation (suc n) = ap suc (own_steps-alternation n)

Reaches-returns_example : (status : OsStatus) × ((alternating 1657).0 ≡ returned status)
Reaches-returns_example =
    Reaches-returns one_host program booted (alternating 1657) tt (alternation 1657)
      (omega (arith, own_steps-alternation 1657))
