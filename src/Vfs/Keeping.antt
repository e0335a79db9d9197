-- ===== src/Vfs/Keeping.antt =====
-- What `vfsLoadToDisk` (src/kernel/vfs.c) does to the files that are on the disk already.
use project_lucario.Base.{
  ℕ, ◌+◌, ◌≤◌, ◌≡◌, refl, arith, Bool, true, false, Option, none, some, [], ◌∷◌, ◌++◌,
  if◌then◌else◌, leb, length,
}
use project_lucario.Base.Int.{ℤ, pos, pos_part, ◌-ℤ◌, ltb_ℤ}
use project_lucario.Machine.{Text, Disk, max_processes}
use project_lucario.Vfs.{
  Host, HostFile, FileMeta, Place, Vfs, VfsStatus, vfs_success, vfs_err_disk_full,
  vfs_err_not_found, linear, total_disk_sectors, write_words, vfs_register_file, load_file,
  vfs_load_to_disk, vfs_file_exists, copy_name,
}
use project_lucario.Vfs.Layout.{IsLaidOut, place-write_words, LieBetween-le, LieBetween-append}
use project_lucario.Vfs.Places.{IsPlace}

pub room_left :
    (used : ℕ) (words : ℤ)
    → used ≤ total_disk_sectors
    → ltb_ℤ (pos total_disk_sectors -ℤ pos used) words ≡ false
    → used + pos_part words ≤ total_disk_sectors
unfolding ◌-ℤ◌
room_left used words h e = ground arith

-- The layout of what a load returns.
abbrev LeavesLaidOut : VfsStatus × Vfs × Disk → Type 0
LeavesLaidOut r = IsLaidOut r.1

module _ (host : Host) (path : Text) (vfs : Vfs) (disk : Disk) (v : IsLaidOut vfs) where
  -- The words that are written for a file that fits.
  module _ (file : HostFile)
      (fits : linear vfs.free_place + pos_part file.word_count ≤ total_disk_sectors) where
    abbrev moved : Place × Disk
    moved = write_words host (pos_part file.word_count) file.lines vfs.free_place disk

    behind : (linear moved.0 ≡ linear vfs.free_place + pos_part file.word_count) × IsPlace moved.0
    behind =
        place-write_words host (pos_part file.word_count) file.lines vfs.free_place disk v.free fits

    abbrev registered : VfsStatus × Vfs
    registered =
        vfs_register_file path file.program_name vfs.free_place file.word_count file.start_pc
          (record vfs { free_place = moved.0 })

    registered-IsLaidOut : IsLaidOut registered.1
    unfolding vfs_register_file
    registered-IsLaidOut = by_room (leb max_processes (length vfs.catalog))
      where
        added : FileMeta
        added = record {
          file_path = copy_name path;
          program_name = copy_name file.program_name;
          start_track = vfs.free_place.track;
          start_cylinder = vfs.free_place.cylinder;
          start_sector = vfs.free_place.sector;
          word_count = file.word_count;
          start_pc = file.start_pc;
        }

        by_room :
            (full : Bool)
            → let r : VfsStatus × Vfs =
                if full then (vfs_err_disk_full, record vfs { free_place = moved.0 }) else (
                  vfs_success,
                  record vfs { free_place = moved.0; catalog = vfs.catalog ++ (added ∷ []) },
                ) in
              IsLaidOut r.1
        by_room true = record {
          free = behind.1;
          within_disk = omega (arith, behind.0);
          files =
              LieBetween-le 0 (linear vfs.free_place) (linear moved.0) vfs.catalog v.files
                (omega (arith, behind.0));
        }
        by_room false = record {
          free = behind.1;
          within_disk = omega (arith, behind.0);
          files =
              LieBetween-append 0 (linear moved.0) vfs.catalog added v.files
                (record { cylinder = v.free.cylinder; sector = v.free.sector })
                (omega (arith, behind.0));
        }

  load_file-LeavesLaidOut : (file : HostFile) → LeavesLaidOut (load_file host path file vfs disk)
  unfolding load_file
  load_file-LeavesLaidOut file =
      by_size (ltb_ℤ (pos total_disk_sectors -ℤ pos (linear vfs.free_place)) file.word_count) refl
    where
      by_size :
          (too_large : Bool)
          → ltb_ℤ (pos total_disk_sectors -ℤ pos (linear vfs.free_place)) file.word_count
            ≡ too_large
          → LeavesLaidOut (
              if too_large
              then (vfs_err_disk_full, vfs, disk)
              else (let (place, disk') =
                    write_words host (pos_part file.word_count) file.lines vfs.free_place disk in
                  let (status, vfs') =
                    vfs_register_file path file.program_name vfs.free_place file.word_count
                      file.start_pc
                      (record vfs { free_place = place }) in
                  (status, vfs', disk')))
      by_size true e = v
      by_size false e =
          registered-IsLaidOut file
            (room_left (linear vfs.free_place) file.word_count v.within_disk e)

  load-LeavesLaidOut : LeavesLaidOut (vfs_load_to_disk host path vfs disk)
  unfolding vfs_load_to_disk
  load-LeavesLaidOut = by_name (vfs_file_exists path vfs) (host.open_file path)
    where
      by_name :
          (known : Bool) (opened : Option HostFile)
          → LeavesLaidOut (
              if known
              then (vfs_success, vfs, disk)
              else elim opened as (λ _. VfsStatus × Vfs × Disk) [
                | none ↦ (vfs_err_not_found, vfs, disk)
                | some file ↦ load_file host path file vfs disk
              ])
      by_name true opened = v
      by_name false none = v
      by_name false (some file) = load_file-LeavesLaidOut file

  -- The files of the catalogue lie one behind another, all before the free pointer and that on the
  -- disk: `vfsLoadToDisk` keeps this, whatever it returns.
  pub vfs_load_to_disk-IsLaidOut : IsLaidOut (vfs_load_to_disk host path vfs disk).1
  vfs_load_to_disk-IsLaidOut = load-LeavesLaidOut
