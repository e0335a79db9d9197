-- ===== src/Kernel/Frame.antt =====
-- What an instruction leaves alone: the process table, the partition table and the current process
-- (src/hardware/cpu.c). Only the kernel writes them.
use project_lucario.Base.{ℕ, ◌≡◌, refl, Option, arith}
use project_lucario.Base.Int.{ℤ}
use project_lucario.Machine.{Machine, Instruction, OpCode, Outside, ProcessTable, InterruptCode}
use project_lucario.Memory.{write_memory, dma_write_memory}
use project_lucario.Dma.{dma_round}
use project_lucario.Mmu.{Partitions}
use project_lucario.Context.{
  internal_push, internal_pop, push_field, save_context, restore_context, pop_into,
}
use project_lucario.Cpu.{
  fetch_operand, update_psw_flags, fetch, execute, execute_arithmetic, compute, execute_comparison,
  execute_data_movement, execute_stack_manipulation, execute_interrupts_change, execute_branching,
  execute_return, execute_system_call, execute_dma_instruction, dma_by, set_timer, change_mode,
}
use project_lucario.Step.{tick_timer}

-- The kernel's tables.
abbrev pub tables : Machine → ProcessTable × Partitions × Option ℕ
tables m = (m.table, m.free_partitions, m.current)

tables-fetch_operand :
    (inst : Instruction) (m : Machine) → tables (fetch_operand inst m).1 ≡ tables m
unfolding fetch_operand
tables-fetch_operand inst m = ground arith

tables-update_psw_flags : (m : Machine) → tables (update_psw_flags m) ≡ tables m
unfolding update_psw_flags
tables-update_psw_flags m = ground arith

pub tables-write_memory : (a w : ℤ) (m : Machine) → tables (write_memory a w m).1 ≡ tables m
unfolding write_memory
tables-write_memory a w m = ground arith

tables-compute : (op : OpCode) (a b : ℤ) (m : Machine) → tables (compute op a b m).1 ≡ tables m
unfolding compute
tables-compute op a b m = ground arith

tables-execute_arithmetic :
    (inst : Instruction) (m : Machine) → tables (execute_arithmetic inst m).1 ≡ tables m
unfolding execute_arithmetic
tables-execute_arithmetic inst m = grind (arith, tables-fetch_operand inst m, tables-compute)

tables-execute_comparison :
    (inst : Instruction) (m : Machine) → tables (execute_comparison inst m).1 ≡ tables m
unfolding execute_comparison
tables-execute_comparison inst m = ground (arith, tables-fetch_operand inst m)

tables-execute_branching :
    (inst : Instruction) (m : Machine) → tables (execute_branching inst m).1 ≡ tables m
unfolding execute_branching
tables-execute_branching inst m = ground arith

tables-execute_data_movement :
    (o : Outside) (inst : Instruction) (m : Machine)
    → tables (execute_data_movement o inst m).1 ≡ tables m
unfolding execute_data_movement
tables-execute_data_movement o inst m =
    grind (arith, tables-write_memory, tables-update_psw_flags, tables-fetch_operand inst m)

tables-execute_stack_manipulation :
    (inst : Instruction) (m : Machine) → tables (execute_stack_manipulation inst m).1 ≡ tables m
unfolding execute_stack_manipulation
tables-execute_stack_manipulation inst m =
    grind (arith, tables-write_memory, tables-update_psw_flags)

tables-simple :
    (inst : Instruction) (m : Machine)
    → (tables (execute_interrupts_change inst m).1 ≡ tables m)
      × (tables (execute_return m).1 ≡ tables m)
      × (tables (execute_system_call m).1 ≡ tables m)
      × (tables (set_timer (fetch_operand inst m)).1 ≡ tables m)
      × (tables (change_mode inst.value m).1 ≡ tables m)
unfolding execute_interrupts_change execute_return execute_system_call set_timer change_mode
tables-simple inst m = ground (arith, tables-fetch_operand inst m)

pub tables-dma_round : (m : Machine) → tables (dma_round m) ≡ tables m
unfolding dma_round dma_write_memory
tables-dma_round m = ground arith

tables-dma_by : (op : OpCode) (v : ℤ) (m : Machine) → tables (dma_by op v m).1 ≡ tables m
unfolding dma_by
tables-dma_by op v m = grind (arith, tables-dma_round)

tables-execute_dma_instruction :
    (o : Outside) (inst : Instruction) (m : Machine)
    → tables (execute_dma_instruction o inst m).1 ≡ tables m
unfolding execute_dma_instruction
tables-execute_dma_instruction o inst m = grind (arith, tables-fetch_operand inst m, tables-dma_by)

-- No instruction changes the tables.
pub tables-execute :
    (o : Outside) (inst : Instruction) (m : Machine) → tables (execute o inst m).1 ≡ tables m
unfolding execute
tables-execute o inst m = ground (
  arith,
  tables-execute_arithmetic inst m,
  tables-execute_comparison inst m,
  tables-execute_branching inst m,
  tables-execute_data_movement o inst m,
  tables-execute_stack_manipulation inst m,
  tables-simple inst m,
  tables-execute_dma_instruction o inst m,
)

pub tables-fetch : (m : Machine) → tables (fetch m).1 ≡ tables m
unfolding fetch
tables-fetch m = ground arith

pub tables-tick_timer : (m : Machine) → tables (tick_timer m) ≡ tables m
unfolding tick_timer
tables-tick_timer m = ground arith

tables-push_field : (get : Machine → ℤ) (m : Machine) → tables (push_field get m) ≡ tables m
unfolding push_field internal_push write_memory
tables-push_field get m = ground arith

pub tables-save_context : (m : Machine) → tables (save_context m) ≡ tables m
unfolding save_context
tables-save_context m = simp tables-push_field

pub tables-restore_context :
    (code : InterruptCode) (m : Machine) → tables (restore_context code m) ≡ tables m
unfolding restore_context pop_into internal_pop
tables-restore_context code m = refl
