-- ===== src/Core.antt =====
-- The kernel's process table (src/kernel/core.c): `initOS`, `getFreePCBIndex` and `createProcess`;
-- the restart command of src/console.c. The thread itself (`osStart`, `osStop`) stands in Threads.
pub mod Failure
pub mod Loading
pub mod Phases
pub mod Completion
use project_lucario.Base.{
  ℕ, zero, suc, ◌+◌, ◌-◌, ◌*◌, Bool, true, false, Option, none, some, List, [], ◌∷◌, take, update,
  if◌then◌else◌,
}
use project_lucario.Base.Int.{ℤ, pos, negsuc, pos_part, add32, sub32}
use project_lucario.Machine.{
  Machine, Pcb, ProcessTable, ProcessState, new, ready, finished, is_finished, Text, Cpu, zero_cpu,
  mode_user, OsStatus, os_success, os_err_max_processes, os_err_memory, os_err_disk, max_processes,
  partition_size,
}
use project_lucario.Memory.{dma_write_memory, memory_reset}
use project_lucario.Disk.{read_sector}
use project_lucario.Mmu.{
  mmu_init, calculate_required_blocks, allocate_memory, get_base_register, get_limit_register,
}
use project_lucario.Scheduler.{each_process}
use project_lucario.Step.{cpu_reset, set_yield}
use project_lucario.Vfs.{
  Host, FileMeta, Place, Vfs, VfsStatus, vfs_success, vfs_file_exists, vfs_get_metadata,
  vfs_load_to_disk, next_place, copy_name,
}

-- The machine with the file system.
pub record System : Type 0 where
  pub machine : Machine
  pub vfs : Vfs

abbrev pub flush : Pcb → Pcb
flush p = record p { state = finished; pid = negsuc 0 }

unfoldable pub init_os : Machine → Machine
init_os m = record m {
  free_partitions = mmu_init;
  next_pid = pos 1;
  table = each_process flush max_processes 0 m.table;
  current = none;
}

unfoldable pub handle_restart_command : Machine → Machine
handle_restart_command m = init_os (set_yield false (memory_reset (cpu_reset m)))

-- The first FINISHED entry at or after `i`.
unfoldable pub free_pcb_from : ℕ → ℕ → ProcessTable → Option ℕ
free_pcb_from zero i table = none
free_pcb_from (suc rounds) i table = elim (is_finished (table i).state) [
  | true ↦ some i
  | false ↦ free_pcb_from rounds (suc i) table
]

unfoldable pub get_free_pcb_index : ProcessTable → Option ℕ
get_free_pcb_index table = free_pcb_from max_processes 0 table

-- The copy of a program from the disk to RAM, word by word, for a number of rounds.
unfoldable pub load_words : ℕ → ℤ → Place → Machine → Machine
load_words zero target p m = m
load_words (suc rounds) target p m =
    let word = (read_sector p.track p.cylinder p.sector m.disk).1 in
    load_words rounds (add32 target (pos 1)) (next_place p) (dma_write_memory target word m).1

-- The registers with which a program starts.
unfoldable pub initial_context : ℕ → ℕ → FileMeta → Cpu
initial_context rb blocks meta = record zero_cpu {
  rb = pos rb;
  rl = pos (get_limit_register rb blocks);
  rx = meta.word_count;
  sp = pos (blocks * partition_size - 1);
  psw = record zero_cpu.psw {
    pc = sub32 meta.start_pc (pos 1);
    mode = mode_user;
    interrupt_enable = true;
  };
  timer_limit = 2;
}

abbrev pub set_state : ℕ → ProcessState → Machine → Machine
set_state k s m = record m { table = update m.table k (record (m.table k) { state = s }) }

-- The entry of a process that has been loaded.
unfoldable pub fill_pcb : ℕ → ℕ → ℕ → FileMeta → Machine → Machine
fill_pcb k start blocks meta m = record m {
  next_pid = add32 m.next_pid (pos 1);
  table = update m.table k (record {
    pid = m.next_pid;
    state = ready;
    context = initial_context (get_base_register start) blocks meta;
    program_name = copy_name meta.program_name;
    start_block = pos start;
    block_count = pos blocks;
    sleep_tics = pos 0;
  });
}

-- `createProcess` from the allocation on.
unfoldable pub place_process : ℕ → FileMeta → System → OsStatus × System
place_process k meta s =
    let required_blocks = calculate_required_blocks meta.word_count in
    let (start_block, free) = allocate_memory required_blocks s.machine.free_partitions in
    elim start_block [
      | none ↦ (os_err_memory, record s { machine = set_state k finished s.machine })
      | some start ↦
          let allocated = record s.machine { free_partitions = free } in
          let base = pos (get_base_register start) in
          let place : Place = record {
            track = meta.start_track;
            cylinder = meta.start_cylinder;
            sector = meta.start_sector;
          } in
          let loaded = load_words (pos_part meta.word_count) base place allocated in
          (
            os_success,
            record s { machine = fill_pcb k start (pos_part required_blocks) meta loaded },
          )
    ]

-- A failed attempt gives the entry back.
abbrev pub give_up : ℕ → System → OsStatus × System
give_up k s = (os_err_disk, record s { machine = set_state k finished s.machine })

-- From `vfsGetMetadata` on.
unfoldable pub create_from_disk : ℕ → Text → System → OsStatus × System
create_from_disk k name s = elim (vfs_get_metadata name s.vfs) [
  | none ↦ give_up k s
  | some meta ↦ place_process k meta s
]

-- The load to the disk, if the program is not there yet.
unfoldable pub ensure_loaded : Host → Text → System → VfsStatus × System
ensure_loaded host name s =
    if vfs_file_exists name s.vfs
    then (vfs_success, s)
    else (let (status, vfs', disk') = vfs_load_to_disk host name s.vfs s.machine.disk in
        (status, record s { vfs = vfs'; machine = record s.machine { disk = disk' } }))

abbrev pub on_loaded : ℕ → Text → VfsStatus × System → OsStatus × System
on_loaded k name (vfs_success, s) = create_from_disk k name s
on_loaded k name (_, s) = give_up k s

unfoldable pub create_process : Host → Text → System → OsStatus × System
create_process host name s = elim (get_free_pcb_index s.machine.table) [
  | none ↦ (os_err_max_processes, s)
  | some k ↦
      on_loaded k name (ensure_loaded host name (record s { machine = set_state k new s.machine }))
]
