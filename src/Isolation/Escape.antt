-- ===== src/Isolation/Escape.antt =====
-- What protects memory can be switched off by the program that it holds in (src/hardware/cpu.c): CHMOD
-- and STRRB check no mode.
use project_lucario.Base.{ℕ, ◌<◌, ◌≡◌, refl, ap, ◌∙◌, arith, true, update, inl}
use project_lucario.Base.Int.{pos, int32}
use project_lucario.Machine.{
  Machine, Instruction, op_chmod, op_str, addr_direct, Outside, ram_size, mode_kernel, set_mode,
  MemoryStatus, mem_success,
}
use project_lucario.Memory.{translate, write_memory, is_valid_instruction}
use project_lucario.Memory.Protection.{write_memory_allowed}
use project_lucario.Cpu.{
  execute, execute_data_movement, finish_access, check_status, calculate_effective_address,
}

-- CHMOD 1, and STR at a direct address
abbrev pub chmod_kernel : Instruction
chmod_kernel = record { op_code = op_chmod; direction = addr_direct; value = 1 }

abbrev pub str_direct : ℕ → Instruction
str_direct a = record { op_code = op_str; direction = addr_direct; value = a }

int32_cell : (a : ℕ) → a < ram_size → int32 (pos a) ≡ pos a
unfolding int32
int32_cell a h = ground arith

-- A store in kernel mode.
kernel_store :
    (a : ℕ) (m : Machine)
    → a < ram_size
    → is_valid_instruction m.cpu.ac ≡ true
    → write_memory (int32 (pos a)) m.cpu.ac (set_mode mode_kernel m)
      ≡ (mem_success, record (set_mode mode_kernel m) { ram = update m.ram a m.cpu.ac })
unfolding translate
kernel_store a m h v =
    ap (λ z. write_memory z m.cpu.ac (set_mode mode_kernel m)) (int32_cell a h)
    ∙ write_memory_allowed (set_mode mode_kernel m) (pos a) m.cpu.ac
        (record { lower = omega arith; upper = omega arith; within = inl refl }) v

-- Whatever the mode and the protection registers, the two instructions CHMOD 1 and STR store the
-- accumulator in any cell of RAM, if it holds a word that memory takes.
pub execute-escapes :
    (o o' : Outside) (a : ℕ) (m : Machine)
    → a < ram_size
    → is_valid_instruction m.cpu.ac ≡ true
    → (execute o' (str_direct a) (execute o chmod_kernel m).1).1
      ≡ record (set_mode mode_kernel m) { ram = update m.ram a m.cpu.ac }
unfolding execute execute_data_movement calculate_effective_address
execute-escapes o o' a m h v =
    ap (λ (r : MemoryStatus × Machine). (check_status (finish_access r)).1) (kernel_store a m h v)
