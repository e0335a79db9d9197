-- ===== src/Machine/Constants.antt =====
-- The sizes and limits of inc/definitions.h and inc/kernel/mmu.h.
use project_lucario.Base.{ℕ, ◌-◌, ◌/◌}

abbrev pub ram_size : ℕ
ram_size = 2000

abbrev pub os_reserved_size : ℕ
os_reserved_size = 300

abbrev pub disk_tracks : ℕ
disk_tracks = 10

abbrev pub disk_cylinders : ℕ
disk_cylinders = 10

abbrev pub disk_sectors : ℕ
disk_sectors = 100

abbrev pub max_magnitude : ℕ
max_magnitude = 9_999_999

abbrev pub default_stack_size : ℕ
default_stack_size = 100

abbrev pub min_stack_size : ℕ
min_stack_size = 50

abbrev pub max_processes : ℕ
max_processes = 20

abbrev pub sign_bit : ℕ
sign_bit = 10_000_000

-- `PARTITION_SIZE`: the user memory in twenty equal blocks.
abbrev pub partition_size : ℕ
partition_size = (ram_size - os_reserved_size) / max_processes

-- Lines that the monitor keeps (inc/console.h).
abbrev pub max_history_lines : ℕ
max_history_lines = 100
