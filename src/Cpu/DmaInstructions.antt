-- ===== src/Cpu/DmaInstructions.antt =====
-- `executeDMAInstruction` (src/hardware/cpu.c). SDMAON waits until the worker thread has cleared
-- `DMA.pending`, which is the end of one round of its loop: the processor's thread does nothing
-- meanwhile, so the wait is that round.
use project_lucario.Base.{ℕ, Bool, true, ◌&&◌, ◌||◌, not, Option, none, some, if◌then◌else◌}
use project_lucario.Base.Int.{ℤ, pos, pos_part, ltb_ℤ, leb_ℤ, eqb_ℤ, add32}
use project_lucario.Machine.{
  Machine, Dma, Instruction, OpCode, op_sdmap, op_sdmac, op_sdmas, op_sdmaio, op_sdmam, op_sdmaon,
  InstructionStatus, instr_success, instr_fail, ic_invalid_instr, ic_invalid_addr, is_kernel,
  ram_size, disk_tracks, disk_cylinders, disk_sectors, Outside,
}
use project_lucario.Words.{word_to_int}
use project_lucario.Interrupt.{raise_interrupt}
use project_lucario.Dma.{set_dma, dma_round}
use project_lucario.Cpu.Operand.{fetch_operand}

-- A failed case: the interrupt raised, with the early return.
abbrev pub dma_fail : Bool → Machine → InstructionStatus × Machine
dma_fail is_address m =
    (instr_fail, raise_interrupt (if is_address then ic_invalid_addr else ic_invalid_instr) m)

-- SDMAM: the address is relative to RB in user mode, and checked against RL only.
unfoldable pub set_dma_address : ℤ → Machine → InstructionStatus × Machine
set_dma_address data' m =
    let kernel = is_kernel m.cpu.psw.mode in
    let phys = if kernel then data' else add32 m.cpu.rb data' in
    if not kernel && ltb_ℤ m.cpu.rl phys
    then (instr_fail, raise_interrupt ic_invalid_addr m)
    else if ltb_ℤ phys (pos 0) || leb_ℤ (pos ram_size) phys
    then (instr_fail, raise_interrupt ic_invalid_instr m)
    else (instr_success, set_dma (record m.dma { mem_addr = phys }) m)

-- One of the three coordinates, below its bound.
unfoldable pub set_coordinate : (Dma → Dma) → ℕ → ℤ → Machine → InstructionStatus × Machine
set_coordinate write bound data' m =
    if ltb_ℤ data' (pos 0) || leb_ℤ (pos bound) data'
    then (instr_fail, raise_interrupt ic_invalid_instr m)
    else (instr_success, set_dma (write m.dma) m)

-- The switch, on the operand's value.
unfoldable pub dma_by : OpCode → ℤ → Machine → InstructionStatus × Machine
unfolding set_dma_address set_coordinate
dma_by op_sdmap v m = set_coordinate (λ d. record d { track = pos_part v }) disk_tracks v m
dma_by op_sdmac v m = set_coordinate (λ d. record d { cylinder = pos_part v }) disk_cylinders v m
dma_by op_sdmas v m = set_coordinate (λ d. record d { sector = pos_part v }) disk_sectors v m
dma_by op_sdmaio v m =
    if not (eqb_ℤ v (pos 0)) && not (eqb_ℤ v (pos 1))
    then (instr_fail, raise_interrupt ic_invalid_instr m)
    else (instr_success, set_dma (record m.dma { io_direction = pos_part v }) m)
dma_by op_sdmam v m = set_dma_address v m
dma_by op_sdmaon v m = (instr_success, dma_round (set_dma (record m.dma { pending = true }) m))
dma_by _ v m = (instr_fail, raise_interrupt ic_invalid_instr m)

-- The check of the fetch comes last: after a failed fetch the switch has run on the unset variable.
unfoldable pub dma_late_check : Option ℤ → InstructionStatus × Machine → InstructionStatus × Machine
dma_late_check none (instr_success, m) = (instr_fail, raise_interrupt ic_invalid_addr m)
dma_late_check _ r = r

abbrev pub value_or : Option ℤ → ℤ → ℤ
value_or (some word) unset = word
value_or none unset = unset

unfoldable pub execute_dma_instruction :
    Outside → Instruction → Machine → InstructionStatus × Machine
unfolding dma_by dma_late_check
execute_dma_instruction o inst m =
    let (word, fetched) = fetch_operand inst m in
    dma_late_check word (dma_by inst.op_code (word_to_int (value_or word o.dma_data)) fetched)
