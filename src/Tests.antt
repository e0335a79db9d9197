-- ===== src/Tests.antt =====
-- Concrete machines, and the theorems at them.
pub mod Hardware
pub mod Kernel
pub mod Files
pub mod System
pub mod Isolation
pub mod Resuming
pub mod Storage
pub mod Logs
pub mod Creation
use project_lucario.Base.{ℕ, Bool, true, false, Option, none, some, [], update}
use project_lucario.Base.Int.{ℤ, pos, negsuc}
use project_lucario.Machine.{
  Machine, Pcb, Outside, rejected, accepted, zero_cpu, zero_dma, ProcessTable, InterruptCode,
  ic_invalid_instr, ic_invalid_addr, ic_timer, mode_user, cc_pos, ProcessState, ready, executing,
  finished, Instruction, OpCode, addr_immediate, Psw, Cpu,
}
use project_lucario.Interrupt.{set_bit}

abbrev pub free_pcb : Pcb
free_pcb = record {
  pid = negsuc 0;
  state = finished;
  context = zero_cpu;
  program_name = [];
  start_block = pos 0;
  block_count = pos 0;
  sleep_tics = pos 0;
}

-- Process 1 runs, and process 4 waits for its turn.
abbrev pub two_processes : ProcessTable
two_processes =
    update (update (λ _. free_pcb) 4 (record free_pcb { state = ready; pid = pos 8 })) 1
      (record free_pcb { state = executing; pid = pos 7 })

-- A program in user mode, in the cells 300 to 384, with its stack at the end.
abbrev pub user_cpu : Cpu
user_cpu = record zero_cpu {
  ac = pos 12;
  rb = pos 300;
  rl = pos 384;
  rx = pos 40;
  sp = pos 84;
  psw = record { condition_code = cc_pos; mode = mode_user; interrupt_enable = true; pc = pos 3 };
}

abbrev pub user_machine : Machine
user_machine = record {
  cpu = user_cpu;
  ram = update (λ _. pos 0) 305 (pos 7);
  disk = λ _ _ _. pos 5;
  dma = zero_dma;
  pending = λ _. false;
  interrupt_value = pos 0;
  table = two_processes;
  current = some 1;
  os_yield = false;
  monitor_active = true;
  free_partitions = λ _. true;
  next_pid = pos 9;
  history = [];
}

-- Two interrupts at once.
abbrev pub two_faults : InterruptCode → Bool
two_faults = set_bit ic_invalid_instr true (set_bit ic_invalid_addr true (λ _. false))

abbrev pub faulty_machine : Machine
faulty_machine = record user_machine { pending = two_faults }

abbrev pub quiet : Outside
quiet = record {
  typing = accepted (pos 0);
  load_data = pos 0;
  dma_data = pos 0;
  saved_pc_word = pos 0;
}

abbrev pub immediate : OpCode → ℕ → Instruction
immediate op n = record { op_code = op; direction = addr_immediate; value = n }
