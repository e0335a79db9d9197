-- ===== src/Vfs/Store.antt =====
-- What the virtual file system (src/kernel/vfs.c) promises, without sectors: a store of programs with
-- their words, and the number of sectors that are used up.
use project_lucario.Base.{
  ℕ, zero, suc, ◌+◌, Bool, true, false, ◌||◌, none, some, List, [], ◌∷◌, ◌++◌, leb, length,
  if◌then◌else◌,
}
use project_lucario.Base.Int.{ℤ, pos, pos_part, ◌-ℤ◌, ltb_ℤ}
use project_lucario.Machine.{Text, Disk, max_processes}
use project_lucario.Vfs.{
  Host, HostFile, FileMeta, Place, Vfs, VfsStatus, vfs_success, vfs_err_disk_full,
  vfs_err_not_found, linear, next_place, total_disk_sectors, same_text, copy_name,
  read_program_word, vfs_load_to_disk,
}
use project_lucario.Vfs.Layout.{start_of}
use project_lucario.Vfs.Storage.{word_at}

pub record StoredProgram : Type 0 where
  pub file_path : Text
  pub program_name : Text
  pub start_pc : ℤ
  pub words : List ℤ

pub record Store : Type 0 where
  pub programs : List StoredProgram
  pub used : ℕ

-- The numbers that a host file holds.
abbrev pub scanned_words : Host → ℕ → List Text → List ℤ
scanned_words host zero lines = []
scanned_words host (suc n) lines =
    let (w, rest) = read_program_word host lines in w ∷ scanned_words host n rest

abbrev pub program_from : Host → Text → HostFile → StoredProgram
program_from host path file = record {
  file_path = copy_name path;
  program_name = copy_name file.program_name;
  start_pc = file.start_pc;
  words = scanned_words host (pos_part file.word_count) file.lines;
}

abbrev pub is_known : Text → List StoredProgram → Bool
is_known name [] = false
is_known name (p ∷ ps) =
    if same_text p.file_path name || same_text p.program_name name then true else is_known name ps

abbrev pub store_file : Host → Text → HostFile → Store → VfsStatus × Store
store_file host path file a =
    let grown = record a { used = a.used + pos_part file.word_count } in
    if ltb_ℤ (pos total_disk_sectors -ℤ pos a.used) file.word_count
    then (vfs_err_disk_full, a)
    else if leb max_processes (length a.programs)
    then (vfs_err_disk_full, grown)
    else (vfs_success, record grown { programs = a.programs ++ (program_from host path file ∷ []) })

abbrev pub store_load : Host → Text → Store → VfsStatus × Store
store_load host path a =
    if is_known path a.programs then (vfs_success, a) else elim (host.open_file path) [
      | none ↦ (vfs_err_not_found, a)
      | some file ↦ store_file host path file a
    ]

-- The store that a catalogue and a disk hold.
abbrev pub read_back : ℕ → Place → Disk → List ℤ
read_back zero p disk = []
read_back (suc n) p disk = word_at disk p ∷ read_back n (next_place p) disk

abbrev pub programs_of : List FileMeta → Disk → List StoredProgram
programs_of [] disk = []
programs_of (meta ∷ metas) disk =
    record {
      file_path = meta.file_path;
      program_name = meta.program_name;
      start_pc = meta.start_pc;
      words = read_back (pos_part meta.word_count) (start_of meta) disk;
    }
    ∷ programs_of metas disk

abbrev pub store_of : Vfs → Disk → Store
store_of vfs disk = record { programs = programs_of vfs.catalog disk; used = linear vfs.free_place }

-- Several loads, one after the other, each with the host's files at its time.
abbrev pub load_all : List (Host × Text) → Vfs → Disk → List VfsStatus × Vfs × Disk
load_all [] vfs disk = ([], vfs, disk)
load_all ((host, path) ∷ loads) vfs disk =
    let (status, vfs', disk') = vfs_load_to_disk host path vfs disk in
    let (statuses, last_vfs, last_disk) = load_all loads vfs' disk' in
    (status ∷ statuses, last_vfs, last_disk)

abbrev pub store_load_all : List (Host × Text) → Store → List VfsStatus × Store
store_load_all [] a = ([], a)
store_load_all ((host, path) ∷ loads) a =
    let (status, a') = store_load host path a in
    let (statuses, last) = store_load_all loads a' in (status ∷ statuses, last)
