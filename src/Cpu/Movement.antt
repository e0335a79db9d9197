-- ===== src/Cpu/Movement.antt =====
-- `executeDataMovement`, `executeStackManipulation` and `executeInterruptsChange`
-- (src/hardware/cpu.c).
use project_lucario.Base.{Bool, true, false, Option, none, some, if◌then◌else◌}
use project_lucario.Base.Int.{ℤ, pos, ltb_ℤ, leb_ℤ, add32, sub32}
use project_lucario.Machine.{
  Machine, Instruction, AddressingMode, addr_immediate, OpCode, op_str, op_load, op_strrx, op_strrb,
  op_strrl, op_strsp, op_loadrx, op_loadrb, op_loadrl, op_loadsp, op_psh, op_pop, op_hab, op_dhab,
  InstructionStatus, instr_success, instr_fail, MemoryStatus, mem_success, ic_invalid_instr,
  ic_invalid_addr, Outside, set_ac, set_sp, set_rx, set_rb, set_rl, set_interrupt_enable,
}
use project_lucario.Memory.{read_memory, write_memory}
use project_lucario.Interrupt.{raise_interrupt}
use project_lucario.Cpu.Operand.{fetch_operand, calculate_effective_address, update_psw_flags}

-- The check of `ret` at the end: a failed access raises the address fault.
unfoldable pub finish_access : MemoryStatus × Machine → InstructionStatus × Machine
finish_access (mem_success, m) = (instr_success, m)
finish_access (_, m) = (instr_fail, raise_interrupt ic_invalid_addr m)

-- `readMemory(CPU.SP, &CPU.AC)`, its status unread: a failed read leaves AC.
unfoldable pub load_top : Machine → Machine
load_top m = elim (read_memory m m.cpu.sp).1 [ some word ↦ set_ac word m | none ↦ m ]

-- OP_LOAD after `fetchOperand`. A failed fetch leaves the local variable unset: AC takes the value
-- `unset`, and the address fault is raised, also where the instruction fault already was.
unfoldable pub finish_load : ℤ → Option ℤ × Machine → InstructionStatus × Machine
finish_load unset (some word, m) = (instr_success, update_psw_flags (set_ac word m))
finish_load unset (none, m) =
    (instr_fail, raise_interrupt ic_invalid_addr (update_psw_flags (set_ac unset m)))

abbrev pub is_immediate : AddressingMode → Bool
is_immediate addr_immediate = true
is_immediate _ = false

-- The switch on the operation code.
unfoldable pub move_by : OpCode → Outside → Instruction → Machine → InstructionStatus × Machine
unfolding finish_access finish_load load_top
move_by op_str o inst m =
    if is_immediate inst.direction
    then (instr_fail, raise_interrupt ic_invalid_instr m)
    else finish_access (write_memory (calculate_effective_address inst m) m.cpu.ac m)
move_by op_load o inst m = finish_load o.load_data (fetch_operand inst m)
move_by op_strrx o inst m = (instr_success, set_rx m.cpu.ac m)
move_by op_strrb o inst m = (instr_success, set_rb m.cpu.ac m)
move_by op_strrl o inst m = (instr_success, set_rl m.cpu.ac m)
move_by op_strsp o inst m = finish_access (write_memory m.cpu.sp m.cpu.ac m)
move_by op_loadrx o inst m = (instr_success, update_psw_flags (set_ac m.cpu.rx m))
move_by op_loadrb o inst m = (instr_success, update_psw_flags (set_ac m.cpu.rb m))
move_by op_loadrl o inst m = (instr_success, update_psw_flags (set_ac m.cpu.rl m))
move_by op_loadsp o inst m = (instr_success, update_psw_flags (load_top m))
move_by _ o inst m = (instr_success, raise_interrupt ic_invalid_instr m)

unfoldable pub execute_data_movement : Outside → Instruction → Machine → InstructionStatus × Machine
unfolding move_by
execute_data_movement o inst m = move_by inst.op_code o inst m

-- PSH may not grow the stack below RX; POP may not pass RL.
unfoldable pub stack_by : OpCode → Machine → InstructionStatus × Machine
unfolding finish_access load_top
stack_by op_psh m =
    if ltb_ℤ (sub32 m.cpu.sp (pos 1)) m.cpu.rx
    then (instr_fail, raise_interrupt ic_invalid_addr m)
    else (let moved = set_sp (sub32 m.cpu.sp (pos 1)) m in
        finish_access (write_memory moved.cpu.sp moved.cpu.ac moved))
stack_by op_pop m =
    if leb_ℤ m.cpu.rl (add32 m.cpu.sp m.cpu.rb)
    then (instr_fail, raise_interrupt ic_invalid_addr m)
    else (let loaded = load_top m in
        (instr_success, update_psw_flags (set_sp (add32 loaded.cpu.sp (pos 1)) loaded)))
stack_by _ m = (instr_fail, raise_interrupt ic_invalid_instr m)

unfoldable pub execute_stack_manipulation : Instruction → Machine → InstructionStatus × Machine
unfolding stack_by
execute_stack_manipulation inst m = stack_by inst.op_code m

unfoldable pub interrupts_by : OpCode → Machine → InstructionStatus × Machine
interrupts_by op_hab m = (instr_success, set_interrupt_enable true m)
interrupts_by op_dhab m = (instr_success, set_interrupt_enable false m)
interrupts_by _ m = (instr_fail, raise_interrupt ic_invalid_instr m)

unfoldable pub execute_interrupts_change : Instruction → Machine → InstructionStatus × Machine
unfolding interrupts_by
execute_interrupts_change inst m = interrupts_by inst.op_code m
