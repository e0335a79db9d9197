-- ===== src/Isolation.antt =====
-- What an instruction can do to memory, over all of the instruction set (src/hardware/cpu.c).
pub mod Registers
pub mod Escape
pub mod Undisturbed
pub mod Steps
use project_lucario.Base.{ℕ, ◌≡◌, refl, ◌≢◌, ap, arith, false}
use project_lucario.Base.Int.{ℤ, pos, ◌≤ℤ◌, sub32}
use project_lucario.Machine.{Machine, Instruction, OpCode, op_sdmaon, Outside, set_sp, is_kernel}
use project_lucario.Memory.{write_memory}
use project_lucario.Memory.Protection.{write_memory_isolated}
use project_lucario.Cpu.{
  fetch_operand, update_psw_flags, execute, execute_arithmetic, compute, execute_comparison,
  execute_data_movement, move_by, stack_by, execute_stack_manipulation, execute_interrupts_change,
  execute_branching, execute_return, execute_system_call, execute_dma_instruction, dma_by,
  set_timer, change_mode,
}

ram-fetch_operand : (inst : Instruction) (m : Machine) → (fetch_operand inst m).1.ram ≡ m.ram
unfolding fetch_operand
ram-fetch_operand inst m = ground arith

ram-update_psw_flags : (m : Machine) → (update_psw_flags m).ram ≡ m.ram
unfolding update_psw_flags
ram-update_psw_flags m = ground arith

ram-compute : (op : OpCode) (a b : ℤ) (m : Machine) → (compute op a b m).1.ram ≡ m.ram
unfolding compute
ram-compute op a b m = ground arith

ram-execute_arithmetic :
    (inst : Instruction) (m : Machine) → (execute_arithmetic inst m).1.ram ≡ m.ram
unfolding execute_arithmetic
ram-execute_arithmetic inst m = grind (arith, ram-fetch_operand inst m, ram-compute)

ram-execute_comparison :
    (inst : Instruction) (m : Machine) → (execute_comparison inst m).1.ram ≡ m.ram
unfolding execute_comparison
ram-execute_comparison inst m = ground (arith, ram-fetch_operand inst m)

ram-execute_branching :
    (inst : Instruction) (m : Machine) → (execute_branching inst m).1.ram ≡ m.ram
unfolding execute_branching
ram-execute_branching inst m = ground arith

ram-execute_return : (m : Machine) → (execute_return m).1.ram ≡ m.ram
unfolding execute_return
ram-execute_return m = ground arith

ram-execute_system_call : (m : Machine) → (execute_system_call m).1.ram ≡ m.ram
unfolding execute_system_call
ram-execute_system_call m = refl

ram-execute_interrupts_change :
    (inst : Instruction) (m : Machine) → (execute_interrupts_change inst m).1.ram ≡ m.ram
unfolding execute_interrupts_change
ram-execute_interrupts_change inst m = ground arith

ram-set_timer :
    (inst : Instruction) (m : Machine) → (set_timer (fetch_operand inst m)).1.ram ≡ m.ram
unfolding set_timer
ram-set_timer inst m = ground (arith, ram-fetch_operand inst m)

ram-change_mode : (v : ℕ) (m : Machine) → (change_mode v m).1.ram ≡ m.ram
unfolding change_mode
ram-change_mode v m = ground arith

ram-dma_by : (op : OpCode) (v : ℤ) (m : Machine) → op ≢ op_sdmaon → (dma_by op v m).1.ram ≡ m.ram
unfolding dma_by
ram-dma_by op v m h = ground arith

ram-execute_dma_instruction :
    (o : Outside) (inst : Instruction) (m : Machine)
    → inst.op_code ≢ op_sdmaon
    → (execute_dma_instruction o inst m).1.ram ≡ m.ram
unfolding execute_dma_instruction
ram-execute_dma_instruction o inst m h = grind (arith, ram-fetch_operand inst m, ram-dma_by)

-- A cell of memory outside the partition of a process in user mode.
pub record IsForeign (m : Machine) (i : ℕ) : Type 0 where
  pub user : is_kernel m.cpu.psw.mode ≡ false
  pub foreign : ¬ ((m.cpu.rb ≤ℤ pos i) × (pos i ≤ℤ m.cpu.rl))

module _ (i : ℕ) where
  keeps-write_memory :
      (a w : ℤ) (m : Machine) → IsForeign m i → (write_memory a w m).1.ram i ≡ m.ram i
  keeps-write_memory a w m f = write_memory_isolated m a w i f.user f.foreign

  keeps-move_by :
      (op : OpCode) (o : Outside) (inst : Instruction) (m : Machine)
      → IsForeign m i
      → (move_by op o inst m).1.ram i ≡ m.ram i
  unfolding move_by
  keeps-move_by op o inst m f =
      grind (arith, keeps-write_memory, ram-update_psw_flags, ram-fetch_operand inst m)

  keeps-stack_by : (op : OpCode) (m : Machine) → IsForeign m i → (stack_by op m).1.ram i ≡ m.ram i
  unfolding stack_by
  keeps-stack_by op m f = grind (
    arith,
    keeps-write_memory (sub32 m.cpu.sp (pos 1)) m.cpu.ac (set_sp (sub32 m.cpu.sp (pos 1)) m),
    ram-update_psw_flags,
  )

  -- In user mode no instruction but SDMAON, at any operand, changes a memory cell outside the
  -- process's partition.
  pub execute-isolated :
      (o : Outside) (inst : Instruction) (m : Machine)
      → inst.op_code ≢ op_sdmaon
      → IsForeign m i
      → (execute o inst m).1.ram i ≡ m.ram i
  unfolding execute execute_data_movement execute_stack_manipulation
  execute-isolated o inst m ne f = ground (
    arith,
    ap (λ (r : ℕ → ℤ). r i) (ram-execute_arithmetic inst m),
    ap (λ (r : ℕ → ℤ). r i) (ram-execute_comparison inst m),
    ap (λ (r : ℕ → ℤ). r i) (ram-execute_branching inst m),
    ap (λ (r : ℕ → ℤ). r i) (ram-execute_return m),
    ap (λ (r : ℕ → ℤ). r i) (ram-execute_interrupts_change inst m),
    ap (λ (r : ℕ → ℤ). r i) (ram-set_timer inst m),
    ap (λ (r : ℕ → ℤ). r i) (ram-change_mode inst.value m),
    ap (λ (r : ℕ → ℤ). r i) (ram-execute_system_call m),
    ap (λ (r : ℕ → ℤ). r i) (ram-execute_dma_instruction o inst m ne),
    keeps-move_by inst.op_code o inst m f,
    keeps-stack_by inst.op_code m f,
  )
