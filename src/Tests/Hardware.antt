-- ===== src/Tests/Hardware.antt =====
-- The theorems on the words, the memory, the processor and the DMA at concrete inputs.
use project_lucario.Base.{◌≡◌, refl, arith, some}
use project_lucario.Base.Int.{pos, negsuc, tmod, ◌+ℤ◌}
use project_lucario.Machine.{instr_success, op_sum, cc_overflow, sign_bit, op_sdmac}
use project_lucario.Words.{word_to_int, int_to_word, word_of}
use project_lucario.Words.RoundTrip.{int_to_word_lem}
use project_lucario.Cpu.{execute, execute_arithmetic, fetch_operand}
use project_lucario.Alu.{with_result, execute_arithmetic_lem}
use project_lucario.Geometry.{InGeometry, execute-InGeometry}
use project_lucario.Tests.{user_machine, quiet, immediate}

int_to_word_lem_example :
    int_to_word (negsuc 12_345_677)
    ≡ (word_of (tmod (negsuc 12_345_677) (pos sign_bit)), cc_overflow)
int_to_word_lem_example = int_to_word_lem (negsuc 12_345_677) (omega arith)

fetch-immediate : fetch_operand (immediate op_sum 30) user_machine ≡ (some (pos 30), user_machine)
unfolding fetch_operand int_to_word
fetch-immediate = refl

execute_arithmetic_lem_example :
    execute_arithmetic (immediate op_sum 30) user_machine
    ≡ (instr_success, with_result (pos 42) user_machine)
unfolding word_to_int ◌+ℤ◌
execute_arithmetic_lem_example =
    execute_arithmetic_lem (immediate op_sum 30) user_machine fetch-immediate refl

execute-InGeometry_example : InGeometry (execute quiet (immediate op_sdmac 3) user_machine).1.dma
execute-InGeometry_example = execute-InGeometry quiet (immediate op_sdmac 3) user_machine (record {
  track = omega arith;
  cylinder = omega arith;
  sector = omega arith;
  direction = omega arith;
})
