-- ===== src/Mmu.antt =====
-- The partition table (src/kernel/mmu.c, inc/kernel/mmu.h): which of the twenty blocks are free.
-- An `int` result that is an index or -1 is an option. A loop counts the rounds that are left.
pub mod FirstFit
pub mod Bounds
use project_lucario.Base.{
  ℕ, zero, suc, ◌+◌, ◌-◌, ◌*◌, Bool, true, false, ◌||◌, Option, none, some, ◌==◌, update,
  if◌then◌else◌,
}
use project_lucario.Base.Int.{ℤ, pos, pos_part, ◌+ℤ◌, tdiv, ltb_ℤ, leb_ℤ, add32, sub32}
use project_lucario.Machine.{
  OsStatus, os_success, os_err_memory, max_processes, min_stack_size, partition_size,
  os_reserved_size,
}

abbrev pub Partitions : Type 0
Partitions = ℕ → Bool

-- true = free
unfoldable pub mmu_init : Partitions
mmu_init i = true

-- `GET_BASE_REGISTER` and `GET_LIMIT_REGISTER`
abbrev pub get_base_register : ℕ → ℕ
get_base_register start_block = os_reserved_size + start_block * partition_size

abbrev pub get_limit_register : ℕ → ℕ → ℕ
get_limit_register rb block_count = rb + block_count * partition_size - 1

unfoldable pub calculate_required_blocks : ℤ → ℤ
calculate_required_blocks word_count =
    let total = add32 word_count (pos min_stack_size) in
    if leb_ℤ total (pos min_stack_size) || ltb_ℤ (pos (partition_size * max_processes)) total
    then pos 0
    else tdiv (sub32 (add32 total (pos partition_size)) (pos 1)) (pos partition_size)

-- `for (j = start; ...; j++) FREE_PARTITIONS[j] = b`, for a number of rounds.
unfoldable pub fill_blocks : ℕ → ℕ → Bool → Partitions → Partitions
fill_blocks zero start b free = free
fill_blocks (suc rounds) start b free = fill_blocks rounds (suc start) b (update free start b)

-- The search, at block `i` with `count` free blocks just before it.
unfoldable pub allocate_from : ℕ → ℕ → ℕ → ℕ → Partitions → Option ℕ × Partitions
allocate_from zero required i count free = (none, free)
allocate_from (suc rounds) required i count free = elim (free i) [
  | true ↦ elim (suc count == required) [
    | true ↦ (some (suc i - required), fill_blocks required (suc i - required) false free)
    | false ↦ allocate_from rounds required (suc i) (suc count) free
  ]
  | false ↦ allocate_from rounds required (suc i) 0 free
]

unfoldable pub allocate_memory : ℤ → Partitions → Option ℕ × Partitions
allocate_memory required_blocks free =
    if leb_ℤ required_blocks (pos 0) || ltb_ℤ (pos max_processes) required_blocks
    then (none, free)
    else allocate_from max_processes (pos_part required_blocks) 0 0 free

unfoldable pub free_memory : ℤ → ℤ → Partitions → OsStatus × Partitions
free_memory start_block block_count free =
    if ltb_ℤ start_block (pos 0)
      || leb_ℤ (pos max_processes) start_block
      || leb_ℤ block_count (pos 0)
      || ltb_ℤ (pos max_processes) (add32 start_block block_count)
    then (os_err_memory, free)
    else (os_success, fill_blocks (pos_part block_count) (pos_part start_block) true free)
