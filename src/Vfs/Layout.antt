-- ===== src/Vfs/Layout.antt =====
-- How the files lie on the virtual disk (src/kernel/vfs.c): one behind another, all before the free
-- pointer.
use project_lucario.Base.{ℕ, subst, zero, suc, ◌+◌, ◌≤◌, ◌≡◌, arith, some, List, [], ◌∷◌, ◌++◌}
use project_lucario.Base.Int.{pos_part}
use project_lucario.Machine.{Text, Disk}
use project_lucario.Disk.{write_sector}
use project_lucario.Vfs.{
  Host, FileMeta, Place, Vfs, next_place, linear, total_disk_sectors, read_program_word,
  write_words, get_entry,
}
use project_lucario.Vfs.Places.{IsPlace, next_place_lem}
use project_lucario.Vfs.Storage.{place_after}

abbrev pub start_of : FileMeta → Place
start_of meta = record {
  track = meta.start_track;
  cylinder = meta.start_cylinder;
  sector = meta.start_sector;
}

-- The first sector behind a file.
abbrev pub end_of : FileMeta → ℕ
end_of meta = linear (start_of meta) + pos_part meta.word_count

-- The files of a list lie one behind another between two sectors, counted in the linear order.
abbrev pub LieBetween : ℕ → List FileMeta → ℕ → Type 0
LieBetween a [] b = a ≤ b
LieBetween a (meta ∷ metas) b =
    (a ≤ linear (start_of meta)) × IsPlace (start_of meta) × LieBetween (end_of meta) metas b

-- The invariant of the file system.
pub record IsLaidOut (vfs : Vfs) : Type 0 where
  pub free : IsPlace vfs.free_place
  pub within_disk : linear vfs.free_place ≤ total_disk_sectors
  pub files : LieBetween 0 vfs.catalog (linear vfs.free_place)

-- The free pointer behind the words that are written.
pub place-write_words :
    (host : Host) (n : ℕ) (lines : List Text) (p : Place) (disk : Disk)
    → IsPlace p
    → linear p + n ≤ total_disk_sectors
    → (linear (write_words host n lines p disk).0 ≡ linear p + n)
      × IsPlace (write_words host n lines p disk).0
unfolding write_words
place-write_words host zero lines p disk v fits = (omega arith, v)
place-write_words host (suc n) lines p disk v fits =
    let (w, rest) = read_program_word host lines in
    let next = next_place_lem p v (omega arith) in
    let behind =
      place-write_words host n rest (next_place p)
        (write_sector p.track p.cylinder p.sector w disk).1 next.1 (omega (arith, next.0)) in
    (omega (arith, behind.0, next.0), behind.1)

pub linear-place_after :
    (i : ℕ) (p : Place)
    → IsPlace p
    → linear p + i ≤ total_disk_sectors
    → linear (place_after i p) ≡ linear p + i
linear-place_after zero p v fits = omega arith
linear-place_after (suc i) p v fits =
    let next = next_place_lem p v (omega arith) in
    omega (arith, next.0, linear-place_after i (next_place p) next.1 (omega (arith, next.0)))

pub LieBetween-le :
    (a b c : ℕ) (metas : List FileMeta) → LieBetween a metas b → b ≤ c → LieBetween a metas c
LieBetween-le a b c [] h le = omega arith
LieBetween-le a b c (meta ∷ metas) h le = (h.0, h.1, LieBetween-le (end_of meta) b c metas h.2 le)

pub LieBetween-append :
    (a c : ℕ) (metas : List FileMeta) (meta : FileMeta)
    → LieBetween a metas (linear (start_of meta))
    → IsPlace (start_of meta)
    → end_of meta ≤ c
    → LieBetween a (metas ++ (meta ∷ [])) c
LieBetween-append a c [] meta h v le = (h, v, le)
LieBetween-append a c (first ∷ metas) meta h v le =
    (h.0, h.1, LieBetween-append (end_of first) c metas meta h.2 v le)

pub LieBetween-ordered : (a b : ℕ) (metas : List FileMeta) → LieBetween a metas b → a ≤ b
LieBetween-ordered a b [] h = h
LieBetween-ordered a b (meta ∷ metas) h =
    omega (arith, h.0, LieBetween-ordered (end_of meta) b metas h.2)

first_entry : {a b : FileMeta} → some a ≡ some b → a ≡ b
first_entry e = cc

pub LieBetween-entry :
    (a b j : ℕ) (metas : List FileMeta) {meta : FileMeta}
    → LieBetween a metas b
    → get_entry metas j ≡ some meta
    → IsPlace (start_of meta) × (end_of meta ≤ b)
unfolding get_entry
LieBetween-entry a b j [] h e = absurd (ground arith)
LieBetween-entry a b zero (first ∷ metas) h e =
    subst (λ r. IsPlace (start_of r) × (end_of r ≤ b)) (first_entry e)
      (h.1, LieBetween-ordered (end_of first) b metas h.2)
LieBetween-entry a b (suc j) (first ∷ metas) h e = LieBetween-entry (end_of first) b j metas h.2 e
