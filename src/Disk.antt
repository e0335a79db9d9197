-- ===== src/Disk.antt =====
-- The virtual disk (src/hardware/disk.c): sectors addressed by track, cylinder and sector.
use project_lucario.Base.{ℕ, Bool, ◌||◌, ◌&&◌, leb, ◌==◌, if◌then◌else◌}
use project_lucario.Base.Int.{ℤ, pos}
use project_lucario.Machine.{
  Disk, DiskStatus, disk_success, disk_err_out_of_bounds, disk_tracks, disk_cylinders, disk_sectors,
}

abbrev pub out_of_geometry : ℕ → ℕ → ℕ → Bool
out_of_geometry track cylinder sector =
    leb disk_tracks track || leb disk_cylinders cylinder || leb disk_sectors sector

-- `DISK[t][c][s] = word`
abbrev pub set_sector : ℕ → ℕ → ℕ → ℤ → Disk → Disk
set_sector t c s word disk t' c' s' =
    if t' == t && (c' == c && s' == s) then word else disk t' c' s'

-- The buffer is cleared on an error.
unfoldable pub read_sector : ℕ → ℕ → ℕ → Disk → DiskStatus × ℤ
read_sector track cylinder sector disk =
    if out_of_geometry track cylinder sector
    then (disk_err_out_of_bounds, pos 0)
    else (disk_success, disk track cylinder sector)

unfoldable pub write_sector : ℕ → ℕ → ℕ → ℤ → Disk → DiskStatus × Disk
write_sector track cylinder sector word disk =
    if out_of_geometry track cylinder sector
    then (disk_err_out_of_bounds, disk)
    else (disk_success, set_sector track cylinder sector word disk)
