-- ===== src/Isolation/Registers.antt =====
-- The registers that decide what memory protection allows (src/hardware/cpu.c): the mode, RB and RL,
-- and the instructions that leave them alone.
use project_lucario.Base.{◌≡◌, ◌≢◌, arith}
use project_lucario.Base.Int.{ℤ}
use project_lucario.Machine.{
  Machine, Instruction, OpCode, OpMode, op_chmod, op_strrb, op_strrl, Outside,
}
use project_lucario.Memory.{write_memory, dma_write_memory}
use project_lucario.Dma.{dma_round}
use project_lucario.Cpu.{
  fetch_operand, update_psw_flags, execute, execute_arithmetic, compute, execute_comparison,
  execute_data_movement, execute_stack_manipulation, execute_interrupts_change, execute_branching,
  execute_return, execute_system_call, execute_dma_instruction, dma_by, set_timer,
}

abbrev pub guards : Machine → OpMode × ℤ × ℤ
guards m = (m.cpu.psw.mode, m.cpu.rb, m.cpu.rl)

guards-fetch_operand :
    (inst : Instruction) (m : Machine) → guards (fetch_operand inst m).1 ≡ guards m
unfolding fetch_operand
guards-fetch_operand inst m = ground arith

guards-update_psw_flags : (m : Machine) → guards (update_psw_flags m) ≡ guards m
unfolding update_psw_flags
guards-update_psw_flags m = ground arith

pub guards-write_memory : (a w : ℤ) (m : Machine) → guards (write_memory a w m).1 ≡ guards m
unfolding write_memory
guards-write_memory a w m = ground arith

guards-compute : (op : OpCode) (a b : ℤ) (m : Machine) → guards (compute op a b m).1 ≡ guards m
unfolding compute
guards-compute op a b m = ground arith

guards-execute_arithmetic :
    (inst : Instruction) (m : Machine) → guards (execute_arithmetic inst m).1 ≡ guards m
unfolding execute_arithmetic
guards-execute_arithmetic inst m = grind (arith, guards-fetch_operand inst m, guards-compute)

guards-execute_comparison :
    (inst : Instruction) (m : Machine) → guards (execute_comparison inst m).1 ≡ guards m
unfolding execute_comparison
guards-execute_comparison inst m = ground (arith, guards-fetch_operand inst m)

guards-execute_branching :
    (inst : Instruction) (m : Machine) → guards (execute_branching inst m).1 ≡ guards m
unfolding execute_branching
guards-execute_branching inst m = ground arith

guards-execute_data_movement :
    (o : Outside) (inst : Instruction) (m : Machine)
    → inst.op_code ≢ op_strrb
    → inst.op_code ≢ op_strrl
    → guards (execute_data_movement o inst m).1 ≡ guards m
unfolding execute_data_movement
guards-execute_data_movement o inst m b l =
    grind (arith, guards-write_memory, guards-update_psw_flags, guards-fetch_operand inst m)

guards-execute_stack_manipulation :
    (inst : Instruction) (m : Machine) → guards (execute_stack_manipulation inst m).1 ≡ guards m
unfolding execute_stack_manipulation
guards-execute_stack_manipulation inst m =
    grind (arith, guards-write_memory, guards-update_psw_flags)

guards-simple :
    (inst : Instruction) (m : Machine)
    → (guards (execute_interrupts_change inst m).1 ≡ guards m)
      × (guards (execute_return m).1 ≡ guards m)
      × (guards (execute_system_call m).1 ≡ guards m)
      × (guards (set_timer (fetch_operand inst m)).1 ≡ guards m)
unfolding execute_interrupts_change execute_return execute_system_call set_timer
guards-simple inst m = ground (arith, guards-fetch_operand inst m)

guards-dma_round : (m : Machine) → guards (dma_round m) ≡ guards m
unfolding dma_round dma_write_memory
guards-dma_round m = ground arith

guards-dma_by : (op : OpCode) (v : ℤ) (m : Machine) → guards (dma_by op v m).1 ≡ guards m
unfolding dma_by
guards-dma_by op v m = grind (arith, guards-dma_round)

guards-execute_dma_instruction :
    (o : Outside) (inst : Instruction) (m : Machine)
    → guards (execute_dma_instruction o inst m).1 ≡ guards m
unfolding execute_dma_instruction
guards-execute_dma_instruction o inst m = grind (arith, guards-fetch_operand inst m, guards-dma_by)

-- Every instruction but CHMOD, STRRB and STRRL, at any operand, leaves the mode and the protection
-- registers as they are.
pub guards-execute :
    (o : Outside) (inst : Instruction) (m : Machine)
    → inst.op_code ≢ op_chmod
    → inst.op_code ≢ op_strrb
    → inst.op_code ≢ op_strrl
    → guards (execute o inst m).1 ≡ guards m
unfolding execute
guards-execute o inst m c b l = ground (
  arith,
  guards-execute_arithmetic inst m,
  guards-execute_comparison inst m,
  guards-execute_branching inst m,
  guards-execute_data_movement o inst m b l,
  guards-execute_stack_manipulation inst m,
  guards-simple inst m,
  guards-execute_dma_instruction o inst m,
)
