-- ===== src/Core/Phases.antt =====
-- The creation of a process (src/kernel/core.c, `createProcess`) in the steps between which the
-- kernel's thread may run: each is one that writes what both threads see. The search for an entry with
-- its reservation, a load to the disk, `allocateMemory` and the filling of an entry are taken whole.
use project_lucario.Base.{ℕ, zero, suc, none, some, update}
use project_lucario.Base.Int.{ℤ, pos, pos_part, add32}
use project_lucario.Machine.{
  Pcb, new, ready, finished, Text, OsStatus, os_success, os_err_max_processes, os_err_memory,
  os_err_disk,
}
use project_lucario.Memory.{dma_write_memory}
use project_lucario.Disk.{read_sector}
use project_lucario.Mmu.{calculate_required_blocks, allocate_memory, get_base_register}
use project_lucario.Vfs.{
  Host, FileMeta, Place, VfsStatus, vfs_success, vfs_get_metadata, next_place, copy_name,
}
use project_lucario.Core.{System, get_free_pcb_index, set_state, ensure_loaded, initial_context}

-- Where the creation stands: it has found no entry yet, has made entry `k` NEW, has the program on
-- the disk, has its metadata, copies words (those that are left, the address and the sector), has
-- copied all, has filled the entry, or has returned.
pub data Phase : Type 0 where
  searching : Phase
  reserving : ℕ → Phase
  stored : ℕ → Phase
  described : ℕ → FileMeta → Phase
  copying : ℕ → FileMeta → ℕ → ℕ → ℤ → Place → Phase
  copied : ℕ → FileMeta → ℕ → Phase
  filled : ℕ → Phase
  returned : OsStatus → Phase

abbrev pub blocks_of : FileMeta → ℕ
blocks_of meta = pos_part (calculate_required_blocks meta.word_count)

abbrev pub place_of : FileMeta → Place
place_of meta = record {
  track = meta.start_track;
  cylinder = meta.start_cylinder;
  sector = meta.start_sector;
}

-- The entry with all but its state.
abbrev pub filled_entry : ℕ → FileMeta → ℤ → Pcb → Pcb
filled_entry start meta pid p = record {
  pid = pid;
  state = p.state;
  context = initial_context (get_base_register start) (blocks_of meta) meta;
  program_name = copy_name meta.program_name;
  start_block = pos start;
  block_count = pos (blocks_of meta);
  sleep_tics = pos 0;
}

abbrev pub failing : ℕ → OsStatus → System → Phase × System
failing k status s = (returned status, record s { machine = set_state k finished s.machine })

abbrev pub after_loading : ℕ → VfsStatus × System → Phase × System
after_loading k (vfs_success, s) = (stored k, s)
after_loading k (_, s) = failing k os_err_disk s

-- The next step.
unfoldable pub advance : Host → Text → Phase → System → Phase × System
advance host name searching s = elim (get_free_pcb_index s.machine.table) [
  | none ↦ (returned os_err_max_processes, s)
  | some k ↦ (reserving k, record s { machine = set_state k new s.machine })
]
advance host name (reserving k) s = after_loading k (ensure_loaded host name s)
advance host name (stored k) s = elim (vfs_get_metadata name s.vfs) [
  | none ↦ failing k os_err_disk s
  | some meta ↦ (described k meta, s)
]
advance host name (described k meta) s =
    let required = calculate_required_blocks meta.word_count in
    let (start_block, free) = allocate_memory required s.machine.free_partitions in
    elim start_block [
      | none ↦ failing k os_err_memory s
      | some start ↦ (
        copying k meta start (pos_part meta.word_count) (pos (get_base_register start))
            (place_of meta),
        record s { machine = record s.machine { free_partitions = free } },
      )
    ]
advance host name (copying k meta start zero target p) s = (copied k meta start, s)
advance host name (copying k meta start (suc rounds) target p) s =
    let word = (read_sector p.track p.cylinder p.sector s.machine.disk).1 in
    (
      copying k meta start rounds (add32 target (pos 1)) (next_place p),
      record s { machine = (dma_write_memory target word s.machine).1 },
    )
advance host name (copied k meta start) s = (
  filled k,
  record s {
    machine = record s.machine {
      next_pid = add32 s.machine.next_pid (pos 1);
      table =
          update s.machine.table k (filled_entry start meta s.machine.next_pid (s.machine.table k));
    };
  },
)
advance host name (filled k) s =
    (returned os_success, record s { machine = set_state k ready s.machine })
advance host name (returned status) s = (returned status, s)

-- A number of steps with nothing between them.
abbrev pub advance_all : Host → Text → ℕ → Phase × System → Phase × System
advance_all host name zero c = c
advance_all host name (suc n) c = advance_all host name n (advance host name c.0 c.1)
