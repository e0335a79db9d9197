-- ===== src/Cpu/Arithmetic.antt =====
-- `executeArithmetic` and `executeComparison` (src/hardware/cpu.c).
use project_lucario.Base.{◌+◌, ◌||◌, Option, none, some, if◌then◌else◌}
use project_lucario.Base.Int.{ℤ, pos, ◌+ℤ◌, ◌-ℤ◌, ◌*ℤ◌, tdiv, tmod, ltb_ℤ, leb_ℤ, eqb_ℤ}
use project_lucario.Machine.{
  Machine, Instruction, OpCode, op_sum, op_res, op_mult, op_divi, ConditionCode, cc_zero, cc_neg,
  cc_pos, cc_overflow, is_overflow, InstructionStatus, instr_success, instr_fail, ic_invalid_instr,
  ic_overflow, max_magnitude, set_ac, set_cc,
}
use project_lucario.Words.{word_to_int, int_to_word}
use project_lucario.Interrupt.{raise_interrupt, raise_interrupt_related}
use project_lucario.Cpu.Operand.{fetch_operand}

-- `CPU.AC = intToWord(value, &CPU.PSW)`
unfoldable pub load_result : ℤ → Machine → Machine
load_result value m = let (word, cc) = int_to_word value in set_ac word (set_cc cc m)

-- The check after the switch: an overflow is reported with its result.
unfoldable pub report_overflow : ℤ → Machine → InstructionStatus × Machine
report_overflow result m = (
  instr_success,
  if is_overflow m.cpu.psw.condition_code then raise_interrupt_related ic_overflow result m else m,
)

-- The switch, on the accumulator's and the operand's values.
unfoldable pub compute : OpCode → ℤ → ℤ → Machine → InstructionStatus × Machine
unfolding load_result report_overflow
compute op_sum a b m = let result = a +ℤ b in report_overflow result (load_result result m)
compute op_res a b m = let result = a -ℤ b in report_overflow result (load_result result m)
compute op_mult a b m =
    let result = a *ℤ b in
    let loaded = load_result (tmod result (pos (max_magnitude + 1))) m in
    report_overflow result (
      if ltb_ℤ (pos max_magnitude) result || ltb_ℤ result (pos 0 -ℤ pos max_magnitude)
      then set_cc cc_overflow loaded
      else loaded)
compute op_divi a b m =
    if eqb_ℤ b (pos 0)
    then (instr_fail, set_cc cc_overflow (raise_interrupt ic_invalid_instr m))
    else (let result = tdiv a b in report_overflow result (load_result result m))
compute _ a b m = (instr_fail, raise_interrupt ic_invalid_instr m)

unfoldable pub compute_operand : Option ℤ × Machine → Instruction → InstructionStatus × Machine
unfolding compute
compute_operand (none, m) inst = (instr_fail, m)
compute_operand (some word, m) inst =
    compute inst.op_code (word_to_int m.cpu.ac) (word_to_int word) m

unfoldable pub execute_arithmetic : Instruction → Machine → InstructionStatus × Machine
unfolding compute_operand
execute_arithmetic inst m = compute_operand (fetch_operand inst m) inst

-- The condition code of a comparison.
unfoldable pub compare_code : ℤ → ConditionCode
compare_code result =
    let magnitude = if leb_ℤ (pos 0) result then result else pos 0 -ℤ result in
    if ltb_ℤ (pos max_magnitude) magnitude
    then cc_overflow
    else if eqb_ℤ result (pos 0)
    then cc_zero
    else if ltb_ℤ result (pos 0)
    then cc_neg
    else cc_pos

unfoldable pub compare_operand : Option ℤ × Machine → InstructionStatus × Machine
unfolding compare_code
compare_operand (none, m) = (instr_fail, m)
compare_operand (some word, m) =
    (instr_success, set_cc (compare_code (word_to_int m.cpu.ac -ℤ word_to_int word)) m)

unfoldable pub execute_comparison : Instruction → Machine → InstructionStatus × Machine
unfolding compare_operand
execute_comparison inst m = compare_operand (fetch_operand inst m)
