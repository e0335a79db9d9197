-- ===== src/Vfs/Leak.antt =====
-- `vfsLoadToDisk` (src/kernel/vfs.c) with the catalogue full: the sectors that a refused file takes.
use project_lucario.Base.{ℕ, ◌+◌, ◌≤◌, ◌<◌, ◌≡◌, refl, subst, sym, arith, length}
use project_lucario.Base.Int.{pos, pos_part, ◌≤ℤ◌, ◌-ℤ◌}
use project_lucario.Machine.{Text, Disk, max_processes}
use project_lucario.Vfs.{
  Host, HostFile, Place, Vfs, VfsStatus, vfs_err_disk_full, vfs_register_file, load_file,
  write_words, total_disk_sectors, linear,
}
use project_lucario.Vfs.Storage.{place_after, word_at, scanned, write_words_before, write_words_lem}
use project_lucario.Vfs.Layout.{IsLaidOut, place-write_words}

load_file-full :
    (host : Host) (path : Text) (file : HostFile) (vfs : Vfs) (disk : Disk)
    → max_processes ≤ length vfs.catalog
    → file.word_count ≤ℤ pos total_disk_sectors -ℤ pos (linear vfs.free_place)
    → load_file host path file vfs disk ≡ (
        let (place, disk') =
          write_words host (pos_part file.word_count) file.lines vfs.free_place disk in
        (vfs_err_disk_full, record vfs { free_place = place }, disk'))
unfolding load_file vfs_register_file
load_file-full host path file vfs disk full fits = ground arith

sectors_left :
    (file : HostFile) (used : ℕ)
    → used ≤ total_disk_sectors
    → file.word_count ≤ℤ pos total_disk_sectors -ℤ pos used
    → used + pos_part file.word_count ≤ total_disk_sectors
unfolding ◌-ℤ◌
sectors_left file used inside fits = ground arith

-- What a refused file leaves: its status, the catalogue as it was, the free pointer as many sectors on
-- as the file has words, the file's words in those sectors, and the sectors before them as they were.
abbrev pub HasLeaked : Host → HostFile → Vfs → Disk → VfsStatus × Vfs × Disk → Type 0
HasLeaked host file vfs disk (status, vfs', disk') =
    (status ≡ vfs_err_disk_full)
    × (vfs'.catalog ≡ vfs.catalog)
    × (linear vfs'.free_place ≡ linear vfs.free_place + pos_part file.word_count)
    × ((i : ℕ)
        → i < pos_part file.word_count
        → word_at disk' (place_after i vfs.free_place) ≡ scanned host i file.lines)
    × ((q : Place) → linear q < linear vfs.free_place → word_at disk' q ≡ word_at disk q)

-- Where the files lie one behind another before the free pointer, and the catalogue is full, a program
-- that fits the rest of the disk is refused, with the catalogue unchanged; but the free pointer has
-- moved on by as many sectors as the program has words, these sectors hold the numbers of the host's
-- file in their order, and every sector before them holds what it held.
pub load_file_leaks :
    (host : Host) (path : Text) (file : HostFile) (vfs : Vfs) (disk : Disk)
    → IsLaidOut vfs
    → max_processes ≤ length vfs.catalog
    → file.word_count ≤ℤ pos total_disk_sectors -ℤ pos (linear vfs.free_place)
    → HasLeaked host file vfs disk (load_file host path file vfs disk)
load_file_leaks host path file vfs disk v full fits =
    let n = pos_part file.word_count in
    let room = sectors_left file (linear vfs.free_place) v.within_disk fits in
    subst (HasLeaked host file vfs disk) (sym (load_file-full host path file vfs disk full fits)) (
      refl,
      refl,
      (place-write_words host n file.lines vfs.free_place disk v.free room).0,
      λ i h. write_words_lem host n i file.lines vfs.free_place disk v.free room h,
      λ q h. write_words_before host n file.lines vfs.free_place q disk v.free room h,
    )
