-- ===== src/Geometry.antt =====
-- The DMA registers address the virtual disk at every moment (src/hardware/cpu.c, src/hardware/dma.c):
-- the controller reaches DISK with them unchecked.
use project_lucario.Base.{◌<◌, ◌≡◌, arith, true}
use project_lucario.Base.Int.{ℤ}
use project_lucario.Machine.{
  Machine, Dma, Instruction, OpCode, Outside, disk_tracks, disk_cylinders, disk_sectors,
}
use project_lucario.Memory.{write_memory, dma_write_memory}
use project_lucario.Dma.{set_dma, dma_round}
use project_lucario.Cpu.{
  fetch_operand, update_psw_flags, execute, execute_arithmetic, compute, execute_comparison,
  execute_data_movement, execute_stack_manipulation, execute_interrupts_change, execute_branching,
  execute_return, execute_system_call, execute_dma_instruction, dma_by, set_timer, change_mode,
}

-- The registers name a sector of the disk and a direction.
pub record InGeometry (d : Dma) : Type 0 where
  pub track : d.track < disk_tracks
  pub cylinder : d.cylinder < disk_cylinders
  pub sector : d.sector < disk_sectors
  pub direction : d.io_direction < 2

dma-fetch_operand : (inst : Instruction) (m : Machine) → (fetch_operand inst m).1.dma ≡ m.dma
unfolding fetch_operand
dma-fetch_operand inst m = ground arith

dma-update_psw_flags : (m : Machine) → (update_psw_flags m).dma ≡ m.dma
unfolding update_psw_flags
dma-update_psw_flags m = ground arith

dma-write_memory : (a w : ℤ) (m : Machine) → (write_memory a w m).1.dma ≡ m.dma
unfolding write_memory
dma-write_memory a w m = ground arith

dma-compute : (op : OpCode) (a b : ℤ) (m : Machine) → (compute op a b m).1.dma ≡ m.dma
unfolding compute
dma-compute op a b m = ground arith

dma-execute_arithmetic :
    (inst : Instruction) (m : Machine) → (execute_arithmetic inst m).1.dma ≡ m.dma
unfolding execute_arithmetic
dma-execute_arithmetic inst m = grind (arith, dma-fetch_operand inst m, dma-compute)

dma-execute_comparison :
    (inst : Instruction) (m : Machine) → (execute_comparison inst m).1.dma ≡ m.dma
unfolding execute_comparison
dma-execute_comparison inst m = ground (arith, dma-fetch_operand inst m)

dma-execute_branching :
    (inst : Instruction) (m : Machine) → (execute_branching inst m).1.dma ≡ m.dma
unfolding execute_branching
dma-execute_branching inst m = ground arith

dma-execute_data_movement :
    (o : Outside) (inst : Instruction) (m : Machine)
    → (execute_data_movement o inst m).1.dma ≡ m.dma
unfolding execute_data_movement
dma-execute_data_movement o inst m =
    grind (arith, dma-write_memory, dma-update_psw_flags, dma-fetch_operand inst m)

dma-execute_stack_manipulation :
    (inst : Instruction) (m : Machine) → (execute_stack_manipulation inst m).1.dma ≡ m.dma
unfolding execute_stack_manipulation
dma-execute_stack_manipulation inst m = grind (arith, dma-write_memory, dma-update_psw_flags)

dma-simple :
    (inst : Instruction) (m : Machine)
    → ((execute_interrupts_change inst m).1.dma ≡ m.dma)
      × ((execute_return m).1.dma ≡ m.dma)
      × ((execute_system_call m).1.dma ≡ m.dma)
      × ((set_timer (fetch_operand inst m)).1.dma ≡ m.dma)
      × ((change_mode inst.value m).1.dma ≡ m.dma)
unfolding execute_interrupts_change execute_return execute_system_call set_timer change_mode
dma-simple inst m = ground (arith, dma-fetch_operand inst m)

-- A round of the controller clears its flags and keeps its coordinates.
dma_round-InGeometry : (m : Machine) → InGeometry m.dma → InGeometry (dma_round m).dma
unfolding dma_round dma_write_memory
dma_round-InGeometry m g = ground arith

dma_by-InGeometry :
    (op : OpCode) (v : ℤ) (m : Machine) → InGeometry m.dma → InGeometry (dma_by op v m).1.dma
unfolding dma_by
dma_by-InGeometry op v m g =
    ground (arith, dma_round-InGeometry (set_dma (record m.dma { pending = true }) m))

execute_dma_instruction-InGeometry :
    (o : Outside) (inst : Instruction) (m : Machine)
    → InGeometry m.dma
    → InGeometry (execute_dma_instruction o inst m).1.dma
unfolding execute_dma_instruction
execute_dma_instruction-InGeometry o inst m g =
    let fetched : InGeometry (fetch_operand inst m).1.dma = rw dma-fetch_operand g in
    grind (arith, dma_by-InGeometry)

-- Every instruction, at any operand, keeps the DMA registers inside the disk's geometry.
pub execute-InGeometry :
    (o : Outside) (inst : Instruction) (m : Machine)
    → InGeometry m.dma
    → InGeometry (execute o inst m).1.dma
unfolding execute
execute-InGeometry o inst m g = ground (
  arith,
  dma-execute_arithmetic inst m,
  dma-execute_comparison inst m,
  dma-execute_branching inst m,
  dma-execute_data_movement o inst m,
  dma-execute_stack_manipulation inst m,
  dma-simple inst m,
  execute_dma_instruction-InGeometry o inst m g,
)
