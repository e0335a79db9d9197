-- ===== src/Memory/Protection.antt =====
-- What the protection registers guarantee of `readMemory` and `writeMemory` (src/hardware/memory.c).
use project_lucario.Base.{ℕ, ◌≡◌, ◌↔◌, ◌≢◌, ◌⊎◌, arith, true, false, some, update}
use project_lucario.Base.Int.{ℤ, pos, negsuc, pos_part, ◌≤ℤ◌, ◌<ℤ◌, tdiv}
use project_lucario.Machine.{Machine, is_kernel, mem_success, ram_size}
use project_lucario.Memory.{translate, read_memory, write_memory, is_valid_instruction}

-- An address that the code may touch: in RAM, and between RB and RL unless the mode is kernel.
pub record IsAllowed (m : Machine) (phys : ℤ) : Type 0 where
  pub lower : pos 0 ≤ℤ phys
  pub upper : phys <ℤ pos ram_size
  pub within : (is_kernel m.cpu.psw.mode ≡ true) ⊎ ((m.cpu.rb ≤ℤ phys) × (phys ≤ℤ m.cpu.rl))

-- A read succeeds with a value exactly when the translated address is allowed and the value stands
-- there in RAM.
pub read_memory_iff :
    (m : Machine) (a v : ℤ)
    → (read_memory m a ≡ (mem_success, some v))
      ↔ (IsAllowed m (translate m a) × (m.ram (pos_part (translate m a)) ≡ v))
unfolding read_memory
read_memory_iff m a v = (λ h. ground arith, λ h. ground arith)

pub read_memory_allowed :
    (m : Machine) (a : ℤ)
    → IsAllowed m (translate m a)
    → read_memory m a ≡ (mem_success, some (m.ram (pos_part (translate m a))))
unfolding read_memory
read_memory_allowed m a h = ground arith

pub write_memory_allowed :
    (m : Machine) (a w : ℤ)
    → IsAllowed m (translate m a)
    → is_valid_instruction w ≡ true
    → write_memory a w m
      ≡ (mem_success, record m { ram = update m.ram (pos_part (translate m a)) w })
unfolding write_memory
write_memory_allowed m a w h v = ground arith

-- A write succeeds exactly when the translated address is allowed and the word has an operation code
-- from 0 to 33, and it changes that cell alone.
pub write_memory_iff :
    (m m' : Machine) (a w : ℤ)
    → (write_memory a w m ≡ (mem_success, m')) ↔ (
        IsAllowed m (translate m a)
        × (is_valid_instruction w ≡ true)
        × (m' ≡ record m { ram = update m.ram (pos_part (translate m a)) w }))
unfolding write_memory
write_memory_iff m m' a w = (λ h. ground arith, λ h. ground arith)

-- A write that fails changes nothing.
pub write_memory_fails :
    (m : Machine) (a w : ℤ) → (write_memory a w m).0 ≢ mem_success → (write_memory a w m).1 ≡ m
unfolding write_memory
write_memory_fails m a w h = ground arith

-- The words that `writeMemory` takes are -999999 to 33999999.
pub is_valid_instruction_iff :
    (w : ℤ) → (is_valid_instruction w ≡ true) ↔ ((negsuc 999_998 ≤ℤ w) × (w ≤ℤ pos 33_999_999))
unfolding is_valid_instruction tdiv
is_valid_instruction_iff (pos n) = (λ h. ground arith, λ h. ground arith)
is_valid_instruction_iff (negsuc n) = (λ h. ground arith, λ h. ground arith)

-- In user mode no write changes a cell outside the process's partition.
pub write_memory_isolated :
    (m : Machine) (a w : ℤ) (i : ℕ)
    → is_kernel m.cpu.psw.mode ≡ false
    → ¬ ((m.cpu.rb ≤ℤ pos i) × (pos i ≤ℤ m.cpu.rl))
    → (write_memory a w m).1.ram i ≡ m.ram i
unfolding write_memory
write_memory_isolated m a w i user outside = ground arith

-- After a write that succeeds, a read at the same address succeeds with the word written.
pub read_memory-write_memory :
    (m : Machine) (a w : ℤ) {m' : Machine}
    → write_memory a w m ≡ (mem_success, m')
    → read_memory m' a ≡ (mem_success, some w)
unfolding write_memory read_memory translate
read_memory-write_memory m a w h = ground arith
