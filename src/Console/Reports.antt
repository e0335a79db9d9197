-- ===== src/Console/Reports.antt =====
-- The tables that the console shows (src/console.c): `printProcessStatus`, `printMemoryStatus` and the
-- counts and the map of `printDiskStatus`. Colours and layout are left out.
use project_lucario.Base.{
  ℕ, zero, suc, ◌*◌, ◌/◌, Bool, ◌&&◌, Option, none, some, List, [], ◌∷◌, ltb, leb, ◌==◌,
  if◌then◌else◌,
}
use project_lucario.Base.Int.{ℤ, pos, pos_part, ◌*ℤ◌, tdiv, int32}
use project_lucario.Machine.{
  Pcb, ProcessTable, is_finished, Text, max_processes, partition_size, ram_size, disk_tracks,
  disk_cylinders, disk_sectors,
}
use project_lucario.Mmu.{Partitions, get_base_register, get_limit_register}
use project_lucario.Console.Screens.{state_to_string}
use project_lucario.Vfs.{Vfs, FileMeta, Place, total_disk_sectors}

-- A line of `ps`: the PID, the state, the share of memory in percent, and the name.
pub record ProcessRow : Type 0 where
  pub pid : ℤ
  pub state : Text
  pub mem_percentage : ℤ
  pub program_name : Text

unfoldable pub process_row : Pcb → ProcessRow
unfolding state_to_string
process_row p = record {
  pid = p.pid;
  state = state_to_string p.state;
  mem_percentage = tdiv (int32 (p.block_count *ℤ pos (partition_size * 100))) (pos ram_size);
  program_name = p.program_name;
}

unfoldable pub process_rows : ℕ → ℕ → ProcessTable → List ProcessRow
unfolding process_row
process_rows zero i table = []
process_rows (suc rounds) i table =
    let rows = process_rows rounds (suc i) table in
    if is_finished (table i).state then rows else process_row (table i) ∷ rows

-- A line of `memstat`: the block's first and last address, and whether it is free.
pub record BlockRow : Type 0 where
  pub base : ℕ
  pub limit : ℕ
  pub is_free : Bool

unfoldable pub block_rows : ℕ → ℕ → Partitions → List BlockRow
block_rows zero i free = []
block_rows (suc rounds) i free =
    record {
      base = get_base_register i;
      limit = get_limit_register (get_base_register i) 1;
      is_free = free i;
    }
    ∷ block_rows rounds (suc i) free

unfoldable pub occupied_blocks : ℕ → ℕ → Partitions → ℕ
occupied_blocks zero i free = 0
occupied_blocks (suc rounds) i free =
    let rest = occupied_blocks rounds (suc i) free in if free i then rest else suc rest

unfoldable pub memory_usage : Partitions → ℕ
unfolding occupied_blocks
memory_usage free = (occupied_blocks max_processes 0 free * 100) / max_processes

-- The map of `diskstat`: the number of the file in each sector, if there is one.
abbrev pub DiskMap : Type 0
DiskMap = ℕ → ℕ → ℕ → Option ℕ

-- The walk over the sectors of a file, by `int` counters.
unfoldable pub next_sector : Place → Place
next_sector p =
    if leb disk_sectors (suc p.sector)
    then if leb disk_cylinders (suc p.cylinder)
      then record { track = suc p.track; cylinder = 0; sector = 0 }
      else record p { cylinder = suc p.cylinder; sector = 0 }
    else record p { sector = suc p.sector }

abbrev pub on_disk : Place → Bool
on_disk p = ltb p.track disk_tracks && (ltb p.cylinder disk_cylinders && ltb p.sector disk_sectors)

abbrev pub mark : ℕ → Place → DiskMap → DiskMap
mark file p map t c s =
    if t == p.track && (c == p.cylinder && s == p.sector) then some file else map t c s

-- The loop over the words of one file: the map and the count of occupied sectors.
unfoldable pub mark_words : ℕ → ℕ → Place → DiskMap × ℕ → DiskMap × ℕ
mark_words file zero p (map, occupied) = (map, occupied)
mark_words file (suc rounds) p (map, occupied) =
    mark_words file rounds (next_sector p)
      (if on_disk p then (mark file p map, suc occupied) else (map, occupied))

unfoldable pub mark_files : ℕ → List FileMeta → DiskMap × ℕ → DiskMap × ℕ
mark_files i [] marked = marked
mark_files i (meta ∷ metas) marked = mark_files (suc i) metas (
    mark_words i (pos_part meta.word_count)
      (record {
        track = meta.start_track;
        cylinder = meta.start_cylinder;
        sector = meta.start_sector;
      })
      marked)

-- The file that the character of the ten sectors from `s` on shows: only the first two are looked at.
abbrev pub display_id : DiskMap → ℕ → ℕ → ℕ → Option ℕ
display_id map t c s = elim (map t c s) [
  | some file ↦ some file
  | none ↦ if ltb (suc s) disk_sectors then map t c (suc s) else none
]

pub record DiskReport : Type 0 where
  pub display : ℕ → ℕ → ℕ → Option ℕ
  pub occupied_sectors : ℕ
  pub usage_percent : ℕ
  pub programs : List FileMeta

unfoldable pub disk_report : Vfs → DiskReport
unfolding mark_files mark_words
disk_report vfs =
    let (map, occupied) = mark_files 0 vfs.catalog ((λ _ _ _. none), 0) in
    record {
      display = λ t c g. display_id map t c (g * 10);
      occupied_sectors = occupied;
      usage_percent = (occupied * 100) / total_disk_sectors;
      programs = vfs.catalog;
    }
