-- ===== src/Kernel/Programs.antt =====
-- The memory of a process that `createProcess` (src/kernel/core.c) has created: the program, from the
-- host's file over the virtual disk to the partition.
use project_lucario.Base.{
  ℕ, ◌+◌, ◌*◌, ◌≤◌, ◌<◌, ◌≡◌, refl, sym, ap, ◌∙◌, subst, arith, false, Option, none, some, List,
  length, update_self,
}
use project_lucario.Base.Int.{ℤ, pos, pos_part, ◌≤ℤ◌, ◌-ℤ◌, ◌+ℤ◌, add32, sub32, int32, tdiv}
use project_lucario.Machine.{
  Pcb, Text, Disk, OsStatus, os_success, max_processes, min_stack_size, partition_size, ram_size,
}
use project_lucario.Mmu.{Partitions, allocate_memory, calculate_required_blocks, get_base_register}
use project_lucario.Mmu.FirstFit.{allocate_memory_sound}
use project_lucario.Vfs.{
  Host, HostFile, FileMeta, Vfs, Place, VfsStatus, vfs_success, vfs_err_not_found,
  vfs_err_disk_full, vfs_file_exists, vfs_load_to_disk, vfs_get_metadata, vfs_register_file,
  load_file, write_words, linear, total_disk_sectors,
}
use project_lucario.Vfs.Places.{IsPlace}
use project_lucario.Vfs.Storage.{scanned}
use project_lucario.Vfs.Catalog.{entry, vfs_get_metadata-vfs_register_file}
use project_lucario.Core.{
  System, load_words, place_process, fill_pcb, create_from_disk, on_loaded, create_process,
  ensure_loaded, get_free_pcb_index,
}
use project_lucario.Core.Failure.{create_process-some, reserved}
use project_lucario.Core.Loading.{load_words-write_words}
use project_lucario.Kernel.Owners.{first_cell}
use project_lucario.Kernel.Creation.{
  allocate_memory_count, place_process-some, place_process-none, loaded, free_place, created_entry,
}

-- A program of so few words fits its blocks with its stack.
words_fit :
    (w n : ℕ)
    → w ≤ total_disk_sectors
    → calculate_required_blocks (pos w) ≡ pos n
    → 1 ≤ n
    → w + min_stack_size ≤ n * partition_size
unfolding calculate_required_blocks add32 sub32 int32 ◌+ℤ◌ ◌-ℤ◌ tdiv
words_fit w n few e least = ground arith

module _ (host : Host) (path : Text) (file : HostFile) (vfs : Vfs) (disk : Disk) where
  abbrev written : Place × Disk
  written = write_words host (pos_part file.word_count) file.lines vfs.free_place disk

  abbrev registered : Vfs
  registered =
      (vfs_register_file path file.program_name vfs.free_place file.word_count file.start_pc
        (record vfs { free_place = written.0 })).1

  load_file-success :
      (load_file host path file vfs disk).0 ≡ vfs_success
      → (file.word_count ≤ℤ pos total_disk_sectors -ℤ pos (linear vfs.free_place))
        × (length vfs.catalog < max_processes)
        × (load_file host path file vfs disk ≡ (vfs_success, registered, written.1))
  unfolding load_file vfs_register_file
  load_file-success h = ground arith

abbrev stored : System → VfsStatus × Vfs × Disk → VfsStatus × System
stored s (status, vfs, disk) =
    (status, record s { vfs = vfs; machine = record s.machine { disk = disk } })

ensure_loaded-opened :
    (host : Host) (name : Text) (file : HostFile) (s : System)
    → vfs_file_exists name s.vfs ≡ false
    → host.open_file name ≡ some file
    → ensure_loaded host name s ≡ stored s (load_file host name file s.vfs s.machine.disk)
unfolding ensure_loaded vfs_load_to_disk
ensure_loaded-opened host name file s fresh opened = rw (fresh, opened)

create_from_disk-found :
    (k : ℕ) (name : Text) (s : System) (meta : FileMeta)
    → vfs_get_metadata name s.vfs ≡ some meta
    → create_from_disk k name s ≡ place_process k meta s
create_from_disk-found k name s meta e = unfold create_from_disk in rw (e, create_from_disk) refl

on_loaded-success :
    (k : ℕ) (name : Text) (r : VfsStatus × System)
    → (on_loaded k name r).0 ≡ os_success
    → r.0 ≡ vfs_success
on_loaded-success k name (vfs_success, s) h = refl
on_loaded-success k name (vfs_err_not_found, s) h = absurd (ground arith)
on_loaded-success k name (vfs_err_disk_full, s) h = absurd (ground arith)

-- A creation from the catalogue that succeeds, with the words of the program on the disk.
module _ (k i : ℕ) (host : Host) (lines : List Text) (meta : FileMeta) (s : System) (disk : Disk)
    (v : IsPlace (free_place k meta s))
    (stored : s.machine.disk
      ≡ (write_words host (pos_part meta.word_count) lines (free_place k meta s) disk).1)
    (fits : linear (free_place k meta s) + pos_part meta.word_count ≤ total_disk_sectors)
    (h : i < pos_part meta.word_count) where
  counted : meta.word_count ≡ pos (pos_part meta.word_count)
  counted = ground arith

  room :
      {start : ℕ} {free : Partitions}
      → allocate_memory (calculate_required_blocks meta.word_count) s.machine.free_partitions
        ≡ (some start, free)
      → get_base_register start + pos_part meta.word_count ≤ ram_size
  room {start} {free} e =
      let (n, same, least, most) =
        allocate_memory_count (calculate_required_blocks meta.word_count) s.machine.free_partitions
          e in
      let run =
        allocate_memory_sound n s.machine.free_partitions least most
          (subst (λ r. allocate_memory r s.machine.free_partitions ≡ (some start, free)) same e) in
      omega (
        arith,
        words_fit (pos_part meta.word_count) n (omega (arith, fits))
            (sym (ap calculate_required_blocks counted) ∙ same) least,
        run.1,
      )

  loaded_word :
      {start : ℕ} {free : Partitions}
      → allocate_memory (calculate_required_blocks meta.word_count) s.machine.free_partitions
        ≡ (some start, free)
      → (loaded k meta s start free).ram (get_base_register start + i) ≡ scanned host i lines
  loaded_word {start} {free} e =
      let n = pos_part meta.word_count in
      let place = free_place k meta s in
      let base = get_base_register start in
      ap
        (λ (d : Disk).
          (load_words n (pos base) place
              (record s.machine { free_partitions = free; disk = d })).ram
            (base + i))
        stored
      ∙ load_words-write_words host n base i lines place
          (record s.machine { free_partitions = free; disk = disk }) v fits (room e) h

  placed_word :
      (r : Option ℕ × Partitions)
      → allocate_memory (calculate_required_blocks meta.word_count) s.machine.free_partitions ≡ r
      → (place_process k meta s).0 ≡ os_success
      → (place_process k meta s).1.machine.ram
          (first_cell ((place_process k meta s).1.machine.table k) + i)
        ≡ scanned host i lines
  unfolding fill_pcb
  placed_word (none, free) e done = absurd (let q = place_process-none k meta s e in cc)
  placed_word (some start, free) e done =
      let m = loaded k meta s start free in
      let p =
        created_entry start (pos_part (calculate_required_blocks meta.word_count)) m.next_pid
          meta in
      ap (λ (r : OsStatus × System). r.1.machine.ram (first_cell (r.1.machine.table k) + i))
        (place_process-some k meta s e)
      ∙ ap (λ (q : Pcb). m.ram (first_cell q + i)) (update_self m.table k p)
      ∙ loaded_word e

sectors_fit :
    (i used : ℕ) (words : ℤ)
    → words ≤ℤ pos total_disk_sectors -ℤ pos used
    → i < pos_part words
    → used + pos_part words ≤ total_disk_sectors
unfolding ◌-ℤ◌
sectors_fit i used words fits h = ground arith

-- The creation of a process from a file of the host that is not in the catalogue.
module _ (host : Host) (name : Text) (file : HostFile) (k : ℕ) (s : System)
    (found : get_free_pcb_index s.machine.table ≡ some k)
    (fresh : vfs_file_exists name s.vfs ≡ false) (opened : host.open_file name ≡ some file)
    (short : length name ≤ 255) (done : (create_process host name s).0 ≡ os_success) where
  abbrev started : System
  started = reserved host name s k

  abbrev filed : VfsStatus × Vfs × Disk
  filed = load_file host name file s.vfs s.machine.disk

  abbrev filed_system : System
  filed_system =
      (stored started (
        vfs_success,
        registered host name file s.vfs s.machine.disk,
        (written host name file s.vfs s.machine.disk).1,
      )).1

  abbrev its_entry : FileMeta
  its_entry = entry name file.program_name s.vfs.free_place file.word_count file.start_pc

  created_by : create_process host name s ≡ on_loaded k name (stored started filed)
  created_by =
      create_process-some host name s k found
      ∙ ap (on_loaded k name) (ensure_loaded-opened host name file started fresh opened)

  filed_well :
      (file.word_count ≤ℤ pos total_disk_sectors -ℤ pos (linear s.vfs.free_place))
      × (length s.vfs.catalog < max_processes)
      × (filed ≡ (
        vfs_success,
        registered host name file s.vfs s.machine.disk,
        (written host name file s.vfs s.machine.disk).1,
      ))
  filed_well = load_file-success host name file s.vfs s.machine.disk (
      on_loaded-success k name (stored started filed)
        (sym (ap (λ (r : OsStatus × System). r.0) created_by) ∙ done))

  its_metadata : vfs_get_metadata name filed_system.vfs ≡ some its_entry
  unfolding vfs_file_exists
  its_metadata =
      vfs_get_metadata-vfs_register_file name file.program_name s.vfs.free_place file.word_count
        file.start_pc
        (record s.vfs { free_place = (written host name file s.vfs s.machine.disk).0 }) short fresh
        filed_well.1

  create_process-placed : create_process host name s ≡ place_process k its_entry filed_system
  create_process-placed =
      created_by
      ∙ ap (λ r. on_loaded k name (stored started r)) filed_well.2
      ∙ create_from_disk-found k name filed_system its_entry its_metadata

-- When `createProcess` succeeds for a program that was not in the catalogue, the `i`-th word of the
-- new process's partition is the `i`-th number of the host's file, for every word of the program. The
-- path has at most 255 bytes, and the free pointer of the disk is at a place of its geometry.
pub create_process-holds :
    (host : Host) (name : Text) (file : HostFile) (k i : ℕ) (s : System)
    → get_free_pcb_index s.machine.table ≡ some k
    → vfs_file_exists name s.vfs ≡ false
    → host.open_file name ≡ some file
    → length name ≤ 255
    → IsPlace s.vfs.free_place
    → i < pos_part file.word_count
    → (create_process host name s).0 ≡ os_success
    → (create_process host name s).1.machine.ram
        (first_cell ((create_process host name s).1.machine.table k) + i)
      ≡ scanned host i file.lines
create_process-holds host name file k i s found fresh opened short v h done =
    let same = create_process-placed host name file k s found fresh opened short done in
    let fits = (filed_well host name file k s found fresh opened short done).0 in
    ap (λ (r : OsStatus × System). r.1.machine.ram (first_cell (r.1.machine.table k) + i)) same
    ∙ placed_word k i host file.lines (its_entry host name file k s found fresh opened short done)
        (filed_system host name file k s found fresh opened short done) s.machine.disk
        (record { cylinder = v.cylinder; sector = v.sector }) refl
        (sectors_fit i (linear s.vfs.free_place) file.word_count fits h) h _ refl
        (sym (ap (λ (r : OsStatus × System). r.0) same) ∙ done)
