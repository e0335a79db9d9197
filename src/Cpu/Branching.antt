-- ===== src/Cpu/Branching.antt =====
-- `executeBranching`, `executeReturn` and `executeSystemCall` (src/hardware/cpu.c).
use project_lucario.Base.{Bool, true, false, not, Option, none, some}
use project_lucario.Base.Int.{ℤ, pos, ltb_ℤ, eqb_ℤ, add32}
use project_lucario.Machine.{
  Machine, Instruction, OpCode, op_j, op_jmpe, op_jmpne, op_jmplt, op_jmplgt, InstructionStatus,
  instr_success, instr_fail, ic_invalid_instr, ic_invalid_addr, ic_syscall, set_pc, set_sp,
}
use project_lucario.Words.{word_to_int}
use project_lucario.Memory.{read_memory}
use project_lucario.Interrupt.{raise_interrupt}
use project_lucario.Cpu.Operand.{calculate_effective_address}

-- The condition of a conditional jump; `none` at any other code.
unfoldable pub should_jump : OpCode → ℤ → ℤ → Option Bool
should_jump op_jmpe ac top = some (eqb_ℤ ac top)
should_jump op_jmpne ac top = some (not (eqb_ℤ ac top))
should_jump op_jmplt ac top = some (ltb_ℤ ac top)
should_jump op_jmplgt ac top = some (ltb_ℤ top ac)
should_jump _ ac top = none

unfoldable pub jump_if : Option Bool → Instruction → Machine → Machine
jump_if none inst m = raise_interrupt ic_invalid_instr m
jump_if (some true) inst m = set_pc (calculate_effective_address inst m) m
jump_if (some false) inst m = m

-- The rest of the function, after the read of the word on top of the stack.
unfoldable pub branch_on : Option ℤ → Instruction → Machine → InstructionStatus × Machine
unfolding should_jump jump_if
branch_on none inst m = (instr_fail, raise_interrupt ic_invalid_addr m)
branch_on (some top) inst m = (
  instr_success,
  jump_if (should_jump inst.op_code (word_to_int m.cpu.ac) (word_to_int top)) inst m,
)

unfoldable pub branch_by : OpCode → Instruction → Machine → InstructionStatus × Machine
unfolding branch_on
branch_by op_j inst m = (instr_success, set_pc (calculate_effective_address inst m) m)
branch_by _ inst m = branch_on (read_memory m m.cpu.sp).1 inst m

unfoldable pub execute_branching : Instruction → Machine → InstructionStatus × Machine
unfolding branch_by
execute_branching inst m = branch_by inst.op_code inst m

unfoldable pub return_to : Option ℤ → Machine → InstructionStatus × Machine
return_to none m = (instr_fail, raise_interrupt ic_invalid_addr m)
return_to (some word) m =
    (instr_success, set_sp (add32 m.cpu.sp (pos 1)) (set_pc (word_to_int word) m))

unfoldable pub execute_return : Machine → InstructionStatus × Machine
unfolding return_to
execute_return m = return_to (read_memory m m.cpu.sp).1 m

unfoldable pub execute_system_call : Machine → InstructionStatus × Machine
execute_system_call m = (instr_success, raise_interrupt ic_syscall m)
