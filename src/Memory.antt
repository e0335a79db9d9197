-- ===== src/Memory.antt =====
-- Main memory (src/hardware/memory.c): translation, protection, and the accesses of the processor
-- and of the DMA controller. An access holds BUS_LOCK from its first step to its last, so it is one
-- function; what it writes to the log is left out. The option of a read is what goes through
-- `outData`.
pub mod Protection
pub mod Refinement
use project_lucario.Base.{
  ℕ, Bool, true, false, ◌&&◌, ◌||◌, Option, none, some, update, if◌then◌else◌,
}
use project_lucario.Base.Int.{ℤ, pos, negsuc, pos_part, ltb_ℤ, leb_ℤ, tdiv, add32}
use project_lucario.Machine.{
  Machine, is_kernel, MemoryStatus, mem_success, mem_err_out_of_bounds, mem_err_protection,
  mem_err_invalid_data, ram_size,
}

unfoldable pub is_physical_address_valid : ℤ → Bool
is_physical_address_valid phys_addr = leb_ℤ (pos 0) phys_addr && ltb_ℤ phys_addr (pos ram_size)

unfoldable pub is_protection_violation : Machine → ℤ → Bool
is_protection_violation m phys_addr =
    if is_kernel m.cpu.psw.mode then false else ltb_ℤ phys_addr m.cpu.rb || ltb_ℤ m.cpu.rl phys_addr

-- The sum of the translation.
unfoldable pub translate : Machine → ℤ → ℤ
translate m logical_addr =
    if is_kernel m.cpu.psw.mode then logical_addr else add32 logical_addr m.cpu.rb

-- The address (-1 on an error) and what is written to `status`.
unfoldable pub get_physical_address : Machine → ℤ → ℤ × MemoryStatus
unfolding translate is_protection_violation is_physical_address_valid
get_physical_address m logical_addr =
    let phys_addr = translate m logical_addr in
    if is_protection_violation m phys_addr
    then (negsuc 0, mem_err_protection)
    else if is_physical_address_valid phys_addr
    then (phys_addr, mem_success)
    else (negsuc 0, mem_err_out_of_bounds)

unfoldable pub read_memory : Machine → ℤ → MemoryStatus × Option ℤ
unfolding get_physical_address
read_memory m logical_addr =
    let (phys_addr, status) = get_physical_address m logical_addr in
    elim status [
      | mem_success ↦ (mem_success, some (m.ram (pos_part phys_addr)))
      | other ↦ (other, none)
    ]

-- `IS_VALID_INSTRUCTION(w)`: an operation code from 0 to 33.
unfoldable pub is_valid_instruction : ℤ → Bool
is_valid_instruction w =
    leb_ℤ (pos 0) (tdiv w (pos 1_000_000)) && leb_ℤ (tdiv w (pos 1_000_000)) (pos 33)

unfoldable pub write_memory : ℤ → ℤ → Machine → MemoryStatus × Machine
unfolding get_physical_address is_valid_instruction
write_memory logical_addr word m =
    if is_valid_instruction word
    then (let (phys_addr, status) = get_physical_address m logical_addr in
        elim status [
          | mem_success ↦ (mem_success, record m { ram = update m.ram (pos_part phys_addr) word })
          | other ↦ (other, m)
        ])
    else (mem_err_invalid_data, m)

unfoldable pub dma_read_memory : Machine → ℤ → MemoryStatus × Option ℤ
unfolding is_physical_address_valid
dma_read_memory m phys_addr =
    if is_physical_address_valid phys_addr
    then (mem_success, some (m.ram (pos_part phys_addr)))
    else (mem_err_out_of_bounds, none)

unfoldable pub dma_write_memory : ℤ → ℤ → Machine → MemoryStatus × Machine
unfolding is_physical_address_valid
dma_write_memory phys_addr word m =
    if is_physical_address_valid phys_addr
    then (mem_success, record m { ram = update m.ram (pos_part phys_addr) word })
    else (mem_err_out_of_bounds, m)

unfoldable pub memory_reset : Machine → Machine
memory_reset m = record m { ram = λ _. pos 0 }
