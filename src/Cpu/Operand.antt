-- ===== src/Cpu/Operand.antt =====
-- Effective addresses and operands (src/hardware/cpu.c).
use project_lucario.Base.{Bool, true, false, Option, none, some, if◌then◌else◌}
use project_lucario.Base.Int.{ℤ, pos, ◌+ℤ◌, int32, eqb_ℤ}
use project_lucario.Machine.{
  Machine, Instruction, AddressingMode, addr_direct, addr_immediate, addr_indexed, addr_other,
  cc_zero, cc_neg, cc_pos, MemoryStatus, mem_success, ic_invalid_instr, ic_invalid_addr, set_cc,
}
use project_lucario.Words.{word_to_int, int_to_word, is_negative}
use project_lucario.Memory.{read_memory}
use project_lucario.Interrupt.{raise_interrupt}

unfoldable pub update_psw_flags : Machine → Machine
update_psw_flags m =
    if eqb_ℤ m.cpu.ac (pos 0)
    then set_cc cc_zero m
    else if is_negative m.cpu.ac
    then set_cc cc_neg m
    else set_cc cc_pos m

abbrev pub is_indexed : AddressingMode → Bool
is_indexed addr_indexed = true
is_indexed _ = false

-- The sum is one of `uint32_t`, converted to `address`.
unfoldable pub calculate_effective_address : Instruction → Machine → ℤ
calculate_effective_address inst m =
    if is_indexed inst.direction
    then int32 (pos inst.value +ℤ word_to_int m.cpu.ac)
    else int32 (pos inst.value)

-- What `readMemory` returns, as an operand: on an error the address fault is raised.
unfoldable pub operand_of_read : MemoryStatus × Option ℤ → Machine → Option ℤ × Machine
operand_of_read (mem_success, word) m = (word, m)
operand_of_read (_, _) m = (none, raise_interrupt ic_invalid_addr m)

-- `none` is INSTR_EXEC_FAIL, with nothing written through `outValue`. An immediate operand goes
-- through `intToWord`, which sets the condition code.
unfoldable pub fetch_operand_by : AddressingMode → Instruction → Machine → Option ℤ × Machine
unfolding operand_of_read
fetch_operand_by addr_immediate inst m =
    let (word, cc) = int_to_word (pos inst.value) in (some word, set_cc cc m)
fetch_operand_by addr_direct inst m =
    operand_of_read (read_memory m (calculate_effective_address inst m)) m
fetch_operand_by addr_indexed inst m =
    operand_of_read (read_memory m (calculate_effective_address inst m)) m
fetch_operand_by (addr_other _) inst m = (none, raise_interrupt ic_invalid_instr m)

unfoldable pub fetch_operand : Instruction → Machine → Option ℤ × Machine
unfolding fetch_operand_by
fetch_operand inst m = fetch_operand_by inst.direction inst m
