-- ===== src/Tests/Isolation.antt =====
-- The theorems on what a program can reach in memory, at concrete inputs.
use project_lucario.Base.{◌≡◌, inr, refl, sym, subst, arith, update, [], ◌∷◌}
use project_lucario.Base.Int.{pos, tmod, add32, sub32, tdiv, ◌-ℤ◌, ◌+ℤ◌}
use project_lucario.Machine.{Machine, op_sum, mode_kernel, set_mode, ic_timer, set_sp}
use project_lucario.Memory.{is_valid_instruction, dma_write_memory, read_memory}
use project_lucario.Cpu.{execute, fetch, decode}
use project_lucario.Step.{worker_round, service}
use project_lucario.Scheduler.{
  scheduler_tick, each_process, find_ready, suspend_current, wake_all, unblock_one, wake_one,
}
use project_lucario.Mmu.{
  calculate_required_blocks, allocate_memory, allocate_from, mmu_init, fill_blocks,
}
use project_lucario.Disk.{write_sector, read_sector}
use project_lucario.Vfs.{
  vfs_file_exists, vfs_load_to_disk, load_file, vfs_register_file, vfs_get_metadata, linear,
  same_text, write_words, next_place, read_program_word, strip_comment,
}
use project_lucario.Core.{
  System, create_process, get_free_pcb_index, free_pcb_from, ensure_loaded, create_from_disk,
  place_process, init_os, load_words, fill_pcb, initial_context,
}
use project_lucario.Isolation.Steps.{IsOrdinary, next_op}
use project_lucario.Isolation.Escape.{execute-escapes, chmod_kernel, str_direct}
use project_lucario.Step.Overflow.{service_loses_base}
use project_lucario.Kernel.Owners.{IsSound}
use project_lucario.Kernel.Admission.{create_process-IsSound, init_os-IsSound}
use project_lucario.Kernel.Rounds.{worker_round-IsSound}
use project_lucario.Kernel.Privacy.{RunsHome, IsOthers, worker_round-private}
use project_lucario.Tests.{user_machine, quiet}
use project_lucario.Tests.System.{one_host, booted, with_program}

-- Two processes of the same program, the first of which runs.
abbrev two_programs : System
two_programs = (create_process one_host (b'p' ∷ []) with_program).1

abbrev running : Machine
running = worker_round quiet two_programs.machine

running_facts : RunsHome 0 running × IsOthers 0 390 running.table × (next_op running ≡ op_sum)
unfolding worker_round scheduler_tick create_process get_free_pcb_index free_pcb_from ensure_loaded
    vfs_file_exists vfs_load_to_disk load_file vfs_register_file create_from_disk vfs_get_metadata
    place_process calculate_required_blocks allocate_memory allocate_from init_os mmu_init
    each_process linear ◌-ℤ◌ ◌+ℤ◌ add32 tdiv same_text sub32 fill_pcb load_words dma_write_memory
    fill_blocks find_ready suspend_current wake_all unblock_one wake_one initial_context fetch
    decode read_memory write_words next_place write_sector read_sector read_program_word
    strip_comment tmod
running_facts = (
  record { chosen = refl; user = refl; base = refl; limit = refl },
  record {
    owner = 1;
    in_table = omega arith;
    live = refl;
    other = omega arith;
    lower = omega arith;
    upper = omega arith;
  },
  refl,
)

op_sum-IsOrdinary : IsOrdinary op_sum
op_sum-IsOrdinary = record {
  mode = ground arith;
  base = ground arith;
  limit = ground arith;
  transfer = ground arith;
}

two_programs-IsSound : IsSound two_programs.machine
two_programs-IsSound =
    create_process-IsSound one_host (b'p' ∷ []) with_program
      (create_process-IsSound one_host (b'p' ∷ []) booted (init_os-IsSound user_machine))

worker_round-private_example : (worker_round quiet running).ram 390 ≡ running.ram 390
worker_round-private_example =
    worker_round-private quiet 0 390 running
      (worker_round-IsSound quiet two_programs.machine two_programs-IsSound) running_facts.0
      (subst IsOrdinary (sym running_facts.2) op_sum-IsOrdinary) (inr running_facts.1)

execute-escapes_example :
    (execute quiet (str_direct 100) (execute quiet chmod_kernel user_machine).1).1
    ≡ record (set_mode mode_kernel user_machine) {
      ram = update user_machine.ram 100 user_machine.cpu.ac;
    }
unfolding is_valid_instruction tdiv
execute-escapes_example = execute-escapes quiet quiet 100 user_machine (omega arith) refl

-- One more push would fit the stack.
abbrev crowded_machine : Machine
crowded_machine = set_sp (pos 1) user_machine

service_loses_base_example : (service ic_timer quiet crowded_machine).1.cpu.rb ≡ pos 0
service_loses_base_example =
    service_loses_base 300 1 quiet crowded_machine (omega arith) (omega arith) refl refl refl
