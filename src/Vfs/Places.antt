-- ===== src/Vfs/Places.antt =====
-- The free pointer walks the disk sector by sector (src/kernel/vfs.c).
use project_lucario.Base.{◌+◌, ◌<◌, ◌≡◌, arith}
use project_lucario.Machine.{disk_tracks, disk_cylinders, disk_sectors}
use project_lucario.Vfs.{Place, next_place, linear, total_disk_sectors}

-- A place on the disk, or the one just after its last sector.
pub record IsPlace (p : Place) : Type 0 where
  pub cylinder : p.cylinder < disk_cylinders
  pub sector : p.sector < disk_sectors

-- While there is room the next place is the next sector in the linear order, so the counters never
-- leave the disk before it is full.
pub next_place_lem :
    (p : Place)
    → IsPlace p
    → linear p < total_disk_sectors
    → (linear (next_place p) ≡ linear p + 1) × IsPlace (next_place p) × (p.track < disk_tracks)
unfolding next_place linear
next_place_lem p v h = ground arith
