-- ===== src/Vfs.antt =====
-- The virtual file system (src/kernel/vfs.c): the catalogue of the programs on the virtual disk, and
-- the loader that copies a host file to it.
--
-- The host's files and `sscanf` are the C library's: `Host` stands for them. A file is the three
-- values that `fscanf` reads from its head and the lines that `fgets` returns after it.
pub mod Places
pub mod Catalog
pub mod Storage
pub mod Layout
pub mod Leak
pub mod Keeping
pub mod Store
pub mod ReadBack
pub mod Refinement
pub mod Program
pub mod Startup
use project_lucario.Base.{
  ℕ, zero, suc, ◌+◌, ◌*◌, ◌%◌, Bool, true, false, ◌&&◌, ◌||◌, Option, none, some, List, [], ◌∷◌,
  ◌++◌, leb, ltb, ◌==◌, length, take, if◌then◌else◌,
}
use project_lucario.Base.Int.{ℤ, pos, pos_part, ◌-ℤ◌, ltb_ℤ}
use project_lucario.Machine.{Text, Disk, disk_tracks, disk_cylinders, disk_sectors, max_processes}
use project_lucario.Disk.{write_sector}

pub record HostFile : Type 0 where
  pub start_pc : ℤ
  pub word_count : ℤ
  pub program_name : Text
  pub lines : List Text

pub record Host : Type 0 where
  pub open_file : Text → Option HostFile
  pub scan_int : Text → Option ℤ

pub data VfsStatus : Type 0 where
  vfs_success vfs_err_not_found vfs_err_disk_full : VfsStatus

-- `FileMeta_t`
pub record FileMeta : Type 0 where
  pub file_path : Text
  pub program_name : Text
  pub start_track : ℕ
  pub start_cylinder : ℕ
  pub start_sector : ℕ
  pub word_count : ℤ
  pub start_pc : ℤ

-- A place on the disk: track, cylinder and sector.
pub record Place : Type 0 where
  pub track : ℕ
  pub cylinder : ℕ
  pub sector : ℕ

-- The static variables of vfs.c: the first `catalogCount` entries of the catalogue, and the first
-- free place. The disk itself is the machine's.
pub record Vfs : Type 0 where
  pub catalog : List FileMeta
  pub free_place : Place

-- `strcmp(a, b) == 0`
unfoldable pub same_text : Text → Text → Bool
same_text [] [] = true
same_text [] (b ∷ bs) = false
same_text (a ∷ as') [] = false
same_text (a ∷ as') (b ∷ bs) = a == b && same_text as' bs

abbrev pub is_named : Text → FileMeta → Bool
is_named identifier meta =
    same_text meta.file_path identifier || same_text meta.program_name identifier

unfoldable pub find_meta : Text → List FileMeta → Option FileMeta
find_meta identifier [] = none
find_meta identifier (meta ∷ metas) =
    if is_named identifier meta then some meta else find_meta identifier metas

unfoldable pub vfs_get_metadata : Text → Vfs → Option FileMeta
unfolding find_meta
vfs_get_metadata identifier vfs = find_meta identifier vfs.catalog

unfoldable pub file_exists : Text → List FileMeta → Bool
file_exists identifier [] = false
file_exists identifier (meta ∷ metas) =
    if is_named identifier meta then true else file_exists identifier metas

unfoldable pub vfs_file_exists : Text → Vfs → Bool
unfolding file_exists
vfs_file_exists identifier vfs = file_exists identifier vfs.catalog

unfoldable pub get_entry : List FileMeta → ℕ → Option FileMeta
get_entry [] i = none
get_entry (meta ∷ metas) zero = some meta
get_entry (meta ∷ metas) (suc i) = get_entry metas i

-- `none` is VFS_ERR_NOT_FOUND.
unfoldable pub vfs_get_catalog_entry : ℤ → Vfs → Option FileMeta
unfolding get_entry
vfs_get_catalog_entry index vfs =
    if ltb_ℤ index (pos 0) then none else get_entry vfs.catalog (pos_part index)

unfoldable pub vfs_get_catalog_count : Vfs → ℕ
vfs_get_catalog_count vfs = length vfs.catalog

-- `strncpy(to, from, 255)` into 256 bytes, with the last one cleared.
abbrev pub copy_name : Text → Text
copy_name name = take 255 name

unfoldable pub vfs_register_file : Text → Text → Place → ℤ → ℤ → Vfs → VfsStatus × Vfs
vfs_register_file file_path program_name place words start_pc vfs =
    if leb max_processes (length vfs.catalog) then (vfs_err_disk_full, vfs) else (
      vfs_success,
      record vfs {
        catalog =
            vfs.catalog
            ++ (record {
              file_path = copy_name file_path;
              program_name = copy_name program_name;
              start_track = place.track;
              start_cylinder = place.cylinder;
              start_sector = place.sector;
              word_count = words;
              start_pc = start_pc;
            }
                ∷ []);
      },
    )

abbrev pub origin : Place
origin = record { track = 0; cylinder = 0; sector = 0 }

unfoldable pub vfs_clear_catalog : Vfs → Vfs
vfs_clear_catalog vfs = record { catalog = []; free_place = origin }

-- The next sector, by `uint8_t` counters: sectors, then cylinders, then tracks.
unfoldable pub next_place : Place → Place
next_place p =
    let sector' = (p.sector + 1) % 256 in
    let cylinder' = (p.cylinder + 1) % 256 in
    if leb disk_sectors sector'
    then if leb disk_cylinders cylinder'
      then record { track = (p.track + 1) % 256; cylinder = 0; sector = 0 }
      else record p { cylinder = cylinder'; sector = 0 }
    else record p { sector = sector' }

-- A line up to the first "//".
unfoldable pub strip_comment : Text → Text
strip_comment [] = []
strip_comment (a ∷ []) = a ∷ []
strip_comment (a ∷ b ∷ rest) = if a == b'/' && b == b'/' then [] else a ∷ strip_comment (b ∷ rest)

-- The next line with a number on it; 0 at the end of the file.
unfoldable pub read_program_word : Host → List Text → ℤ × List Text
read_program_word host [] = (pos 0, [])
read_program_word host (line ∷ lines) = elim (host.scan_int (strip_comment line)) [
  | some w ↦ (w, lines)
  | none ↦ read_program_word host lines
]

-- The loop that writes the words of a file to the disk, for a number of rounds.
unfoldable pub write_words : Host → ℕ → List Text → Place → Disk → Place × Disk
write_words host zero lines p disk = (p, disk)
write_words host (suc rounds) lines p disk =
    let (w, rest) = read_program_word host lines in
    write_words host rounds rest (next_place p) (write_sector p.track p.cylinder p.sector w disk).1

abbrev pub total_disk_sectors : ℕ
total_disk_sectors = disk_tracks * disk_cylinders * disk_sectors

-- `usedSectors`: the number of the first free sector.
unfoldable pub linear : Place → ℕ
linear p = p.track * disk_cylinders * disk_sectors + p.cylinder * disk_sectors + p.sector

-- Everything after a successful `fopen`.
unfoldable pub load_file : Host → Text → HostFile → Vfs → Disk → VfsStatus × Vfs × Disk
load_file host file_path file vfs disk =
    if ltb_ℤ (pos total_disk_sectors -ℤ pos (linear vfs.free_place)) file.word_count
    then (vfs_err_disk_full, vfs, disk)
    else (let (place, disk') =
          write_words host (pos_part file.word_count) file.lines vfs.free_place disk in
        let (status, vfs') =
          vfs_register_file file_path file.program_name vfs.free_place file.word_count file.start_pc
            (record vfs { free_place = place }) in
        (status, vfs', disk'))

unfoldable pub vfs_load_to_disk : Host → Text → Vfs → Disk → VfsStatus × Vfs × Disk
vfs_load_to_disk host file_path vfs disk =
    if vfs_file_exists file_path vfs
    then (vfs_success, vfs, disk)
    else elim (host.open_file file_path) [
      | none ↦ (vfs_err_not_found, vfs, disk)
      | some file ↦ load_file host file_path file vfs disk
    ]
