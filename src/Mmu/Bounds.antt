-- ===== src/Mmu/Bounds.antt =====
-- The sizes that `calculateRequiredBlocks` returns, and the registers of a partition
-- (src/kernel/mmu.c, inc/kernel/mmu.h).
use project_lucario.Base.{ℕ, ◌+◌, ◌*◌, ◌/◌, ◌≤◌, ◌<◌, ◌≡◌, arith}
use project_lucario.Base.Int.{pos, add32, sub32, tdiv, ◌+ℤ◌, ◌-ℤ◌, int32}
use project_lucario.Machine.{
  max_processes, partition_size, min_stack_size, ram_size, os_reserved_size,
}
use project_lucario.Mmu.{calculate_required_blocks, get_base_register, get_limit_register}

-- The number of blocks is the least that holds the words and the smallest stack, for every program of
-- at least one word that fits the twenty blocks.
calculate_required_blocks_least :
    (words : ℕ)
    → 1 ≤ words
    → words + min_stack_size ≤ partition_size * max_processes
    → (n : ℕ) × (calculate_required_blocks (pos words) ≡ pos n)
      × (1 ≤ n)
      × (n ≤ max_processes)
      × (words + min_stack_size ≤ n * partition_size)
      × (n * partition_size < words + min_stack_size + partition_size)
unfolding calculate_required_blocks add32 sub32 int32 ◌+ℤ◌ ◌-ℤ◌ tdiv
calculate_required_blocks_least words lo hi =
    ((words + 134) / 85, ground arith, omega arith, omega arith, omega arith, omega arith)

-- The registers of a run of blocks stay in user memory, and two runs that do not overlap as blocks do
-- not overlap as addresses.
pub partition_bounds :
    (s n t : ℕ)
    → 1 ≤ n
    → s + n ≤ max_processes
    → s + n ≤ t
    → (os_reserved_size ≤ get_base_register s)
      × (get_limit_register (get_base_register s) n < ram_size)
      × (get_limit_register (get_base_register s) n < get_base_register t)
partition_bounds s n t lo hi apart = omega arith
