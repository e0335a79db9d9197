-- ===== src/Cpu/Execute.antt =====
-- `fetch`, `decode` and `execute` (src/hardware/cpu.c).
use project_lucario.Base.{ℕ, ◌==◌, Option, none, some, if◌then◌else◌}
use project_lucario.Base.Int.{ℤ, pos, tdiv, tmod, uint32, uint64, add32}
use project_lucario.Machine.{
  Machine, Instruction, OpCode, op_sum, op_res, op_mult, op_divi, op_load, op_str, op_loadrx,
  op_strrx, op_comp, op_jmpe, op_jmpne, op_jmplt, op_jmplgt, op_svc, op_retrn, op_hab, op_dhab,
  op_tti, op_chmod, op_loadrb, op_strrb, op_loadrl, op_strrl, op_loadsp, op_strsp, op_psh, op_pop,
  op_j, op_sdmap, op_sdmac, op_sdmas, op_sdmaio, op_sdmam, op_sdmaon, op_other, op_code_of,
  addressing_mode_of, CpuStatus, cpu_ok, cpu_stop, InstructionStatus, instr_success, instr_fail,
  mode_user, mode_kernel, ic_invalid_instr, Outside, set_timer_limit, set_mode, set_pc,
}
use project_lucario.Words.{word_to_int}
use project_lucario.Memory.{read_memory}
use project_lucario.Interrupt.{raise_interrupt}
use project_lucario.Cpu.Operand.{fetch_operand}
use project_lucario.Cpu.Arithmetic.{execute_arithmetic, execute_comparison}
use project_lucario.Cpu.Movement.{
  execute_data_movement, execute_stack_manipulation, execute_interrupts_change,
}
use project_lucario.Cpu.Branching.{execute_branching, execute_return, execute_system_call}
use project_lucario.Cpu.DmaInstructions.{execute_dma_instruction}

unfoldable pub fetched : Option ℤ → Machine → CpuStatus × Machine
fetched none m = (cpu_stop, m)
fetched (some word) m = (
  cpu_ok,
  set_pc (add32 m.cpu.psw.pc (pos 1)) (record m { cpu = record m.cpu { mdr = word; ir = word } }),
)

unfoldable pub fetch : Machine → CpuStatus × Machine
unfolding fetched
fetch m =
    let latched = record m { cpu = record m.cpu { mar = m.cpu.psw.pc } } in
    fetched (read_memory latched latched.cpu.mar).1 latched

-- `GET_INSTRUCTION_OPCODE`, `GET_INSTRUCTION_MODE` and `GET_INSTRUCTION_VALUE`
unfoldable pub decode : ℤ → Instruction
decode ir = record {
  op_code = op_code_of (tdiv ir (pos 1_000_000));
  direction = addressing_mode_of (tmod (tdiv ir (pos 100_000)) (pos 10));
  value = uint32 (tmod ir (pos 100_000));
}

abbrev pub check_status : InstructionStatus × Machine → CpuStatus × Machine
check_status (instr_fail, m) = (cpu_stop, m)
check_status (instr_success, m) = (cpu_ok, m)

-- OP_TTI: a negative interval wraps to a large unsigned one.
unfoldable pub set_timer : Option ℤ × Machine → CpuStatus × Machine
set_timer (some word, m) = (cpu_ok, set_timer_limit (uint64 (word_to_int word)) m)
set_timer (none, m) = (cpu_stop, m)

-- OP_CHMOD
unfoldable pub change_mode : ℕ → Machine → CpuStatus × Machine
change_mode v m =
    if v == 0
    then (cpu_ok, set_mode mode_user m)
    else if v == 1
    then (cpu_ok, set_mode mode_kernel m)
    else (cpu_stop, raise_interrupt ic_invalid_instr m)

-- The switch on the operation code.
unfoldable pub execute_by : OpCode → Outside → Instruction → Machine → CpuStatus × Machine
unfolding set_timer change_mode
execute_by op_sum o inst m = check_status (execute_arithmetic inst m)
execute_by op_res o inst m = check_status (execute_arithmetic inst m)
execute_by op_mult o inst m = check_status (execute_arithmetic inst m)
execute_by op_divi o inst m = check_status (execute_arithmetic inst m)
execute_by op_load o inst m = check_status (execute_data_movement o inst m)
execute_by op_str o inst m = check_status (execute_data_movement o inst m)
execute_by op_loadrx o inst m = check_status (execute_data_movement o inst m)
execute_by op_strrx o inst m = check_status (execute_data_movement o inst m)
execute_by op_comp o inst m = check_status (execute_comparison inst m)
execute_by op_jmpe o inst m = check_status (execute_branching inst m)
execute_by op_jmpne o inst m = check_status (execute_branching inst m)
execute_by op_jmplt o inst m = check_status (execute_branching inst m)
execute_by op_jmplgt o inst m = check_status (execute_branching inst m)
execute_by op_svc o inst m = check_status (execute_system_call m)
execute_by op_retrn o inst m = check_status (execute_return m)
execute_by op_hab o inst m = check_status (execute_interrupts_change inst m)
execute_by op_dhab o inst m = check_status (execute_interrupts_change inst m)
execute_by op_tti o inst m = set_timer (fetch_operand inst m)
execute_by op_chmod o inst m = change_mode inst.value m
execute_by op_loadrb o inst m = check_status (execute_data_movement o inst m)
execute_by op_strrb o inst m = check_status (execute_data_movement o inst m)
execute_by op_loadrl o inst m = check_status (execute_data_movement o inst m)
execute_by op_strrl o inst m = check_status (execute_data_movement o inst m)
execute_by op_loadsp o inst m = check_status (execute_data_movement o inst m)
execute_by op_strsp o inst m = check_status (execute_data_movement o inst m)
execute_by op_psh o inst m = check_status (execute_stack_manipulation inst m)
execute_by op_pop o inst m = check_status (execute_stack_manipulation inst m)
execute_by op_j o inst m = check_status (execute_branching inst m)
execute_by op_sdmap o inst m = check_status (execute_dma_instruction o inst m)
execute_by op_sdmac o inst m = check_status (execute_dma_instruction o inst m)
execute_by op_sdmas o inst m = check_status (execute_dma_instruction o inst m)
execute_by op_sdmaio o inst m = check_status (execute_dma_instruction o inst m)
execute_by op_sdmam o inst m = check_status (execute_dma_instruction o inst m)
execute_by op_sdmaon o inst m = check_status (execute_dma_instruction o inst m)
execute_by (op_other _) o inst m = (cpu_stop, raise_interrupt ic_invalid_instr m)

unfoldable pub execute : Outside → Instruction → Machine → CpuStatus × Machine
unfolding execute_by
execute o inst m = execute_by inst.op_code o inst m
