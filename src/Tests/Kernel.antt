-- ===== src/Tests/Kernel.antt =====
-- The theorems on the kernel at concrete inputs.
use project_lucario.Base.{
  ℕ, ◌+◌, ◌≤◌, ◌<◌, ◌≡◌, ◌≢◌, ◌⊎◌, refl, arith, true, false, none, some, update, leb, ltb, ◌&&◌,
  if◌then◌else◌,
}
use project_lucario.Base.Int.{pos, tdiv}
use project_lucario.Machine.{
  max_processes, os_success, ic_timer, ic_invalid_addr, InterruptCode, is_ready,
}
use project_lucario.Interrupt.{set_bit}
use project_lucario.Memory.{is_valid_instruction}
use project_lucario.Mmu.{Partitions, allocate_memory, allocate_from, fill_blocks, free_memory}
use project_lucario.Mmu.FirstFit.{
  AllFree, allocate_memory_sound, allocate_memory_first, allocate_memory_complete,
  free_memory-allocate_memory,
}
use project_lucario.Scheduler.{scheduler_tick}
use project_lucario.Scheduler.Dispatch.{
  RunsFirst, Idles, registers, can_run, scheduler_tick-dispatches,
}
use project_lucario.Context.{save_context, restore_context}
use project_lucario.Context.Saving.{HasRoom, saved}
use project_lucario.Context.RoundTrip.{restore_context-save_context}
use project_lucario.Step.{check_interrupts, service, end_process}
use project_lucario.Step.Priority.{rank, check_interrupts-pending, fault_outlives_process}
use project_lucario.Step.Timer.{service-timer}
use project_lucario.Tests.{user_machine, quiet, faulty_machine, two_faults}

-- The first two blocks are taken.
abbrev two_taken : Partitions
two_taken = update (update (λ _. true) 0 false) 1 false

abbrev five_taken : Partitions
five_taken = update (update (update two_taken 2 false) 3 false) 4 false

allocates : allocate_memory (pos 3) two_taken ≡ (some 2, five_taken)
unfolding allocate_memory allocate_from fill_blocks
allocates = refl

allocate_memory_sound_example :
    AllFree 3 2 two_taken
    × (2 + 3 ≤ max_processes)
    × ((j : ℕ) → five_taken j ≡ (if leb 2 j && ltb j (2 + 3) then false else two_taken j))
allocate_memory_sound_example =
    allocate_memory_sound 3 two_taken (omega arith) (omega arith) allocates

allocate_memory_first_example : ¬ AllFree 3 1 two_taken
allocate_memory_first_example =
    allocate_memory_first 3 1 two_taken (omega arith) (omega arith) allocates (omega arith)

cannot_allocate : allocate_memory (pos 19) two_taken ≡ (none, two_taken)
unfolding allocate_memory allocate_from
cannot_allocate = refl

allocate_memory_complete_example : (two_taken ≡ two_taken) × ¬ AllFree 19 1 two_taken
allocate_memory_complete_example =
    allocate_memory_complete 19 1 two_taken (omega arith) (omega arith) cannot_allocate
      (omega arith)

free_memory-allocate_memory_example :
    free_memory (pos 2) (pos 3) five_taken ≡ (os_success, two_taken)
free_memory-allocate_memory_example =
    free_memory-allocate_memory 3 two_taken (omega arith) (omega arith) allocates

scheduler_tick-dispatches_example :
    (((k : ℕ) × (k < max_processes) × RunsFirst user_machine k (scheduler_tick user_machine))
      ⊎ Idles user_machine (scheduler_tick user_machine))
    × ((j : ℕ)
        → j < max_processes
        → (((scheduler_tick user_machine).table j).context ≡ registers user_machine j)
          × ((scheduler_tick user_machine).current ≢ some j
              → is_ready ((scheduler_tick user_machine).table j).state ≡ can_run user_machine j))
scheduler_tick-dispatches_example = scheduler_tick-dispatches user_machine

user_machine-HasRoom : HasRoom 300 384 77 user_machine
unfolding is_valid_instruction tdiv
user_machine-HasRoom = record {
  place = record { user = refl; base = refl; limit = refl; inside = omega arith };
  stack = refl;
  fits = omega arith;
  ac = refl;
  rx = refl;
  pc = refl;
  code = ground arith;
}

restore_context-save_context_example :
    restore_context ic_timer (save_context user_machine)
    ≡ record user_machine { ram = (saved 300 77 user_machine).ram }
restore_context-save_context_example =
    restore_context-save_context ic_timer 300 384 77 user_machine user_machine-HasRoom refl

service-timer_example : service ic_timer quiet user_machine ≡ (
  true,
  record user_machine {
    ram = (saved 300 77 user_machine).ram;
    pending = set_bit ic_timer false user_machine.pending;
    os_yield = true;
  },
)
service-timer_example = service-timer quiet 300 384 77 user_machine user_machine-HasRoom refl

check_interrupts-pending_example :
    (c : InterruptCode) × (two_faults c ≡ true)
    × ((e : InterruptCode) → two_faults e ≡ true → rank c ≤ rank e)
    × (check_interrupts quiet faulty_machine ≡ service c quiet faulty_machine)
    × ((check_interrupts quiet faulty_machine).1.pending c ≡ false)
    × ((e : InterruptCode)
        → e ≢ c
        → (check_interrupts quiet faulty_machine).1.pending e ≡ two_faults e)
check_interrupts-pending_example =
    check_interrupts-pending quiet faulty_machine ic_invalid_addr refl refl

fault_outlives_process_example :
    ((check_interrupts quiet faulty_machine).0 ≡ false)
    × ((scheduler_tick (end_process 1 (check_interrupts quiet faulty_machine).1)).pending
          ic_invalid_addr
        ≡ true)
fault_outlives_process_example = fault_outlives_process quiet faulty_machine 1 refl refl refl
