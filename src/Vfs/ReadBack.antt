-- ===== src/Vfs/ReadBack.antt =====
-- Reading the programs of the catalogue back from the disk (src/kernel/vfs.c).
use project_lucario.Base.{
  ℕ, zero, suc, ◌+◌, ◌≤◌, ◌<◌, ◌≡◌, refl, ap, ◌∙◌, arith, List, [], ◌∷◌, ◌++◌, length,
}
use project_lucario.Base.Int.{pos_part}
use project_lucario.Machine.{Text, Disk}
use project_lucario.Vfs.{
  Host, FileMeta, Place, linear, next_place, total_disk_sectors, write_words, file_exists,
  read_program_word,
}
use project_lucario.Disk.{write_sector}
use project_lucario.Vfs.Places.{IsPlace, next_place_lem}
use project_lucario.Vfs.Storage.{word_at, write_words_lem}
use project_lucario.Vfs.Layout.{start_of, end_of, LieBetween, LieBetween-ordered}
use project_lucario.Vfs.Store.{scanned_words, is_known, read_back, programs_of}

-- What is written is read back.
pub read_back-write_words :
    (host : Host) (n : ℕ) (lines : List Text) (p : Place) (disk : Disk)
    → IsPlace p
    → linear p + n ≤ total_disk_sectors
    → read_back n p (write_words host n lines p disk).1 ≡ scanned_words host n lines
unfolding write_words
read_back-write_words host zero lines p disk v fits = refl
read_back-write_words host (suc n) lines p disk v fits =
    let (w, rest) = read_program_word host lines in
    let next = next_place_lem p v (omega arith) in
    let head = write_words_lem host (suc n) 0 lines p disk v fits (omega arith) in
    let tail =
      read_back-write_words host n rest (next_place p)
        (write_sector p.track p.cylinder p.sector w disk).1 next.1 (omega (arith, next.0)) in
    ap (λ x. x ∷ read_back n (next_place p) (write_words host (suc n) lines p disk).1) head
    ∙ ap (λ xs. w ∷ xs) tail

-- Two disks that hold the same before a sector hold the same programs there.
module _ (d d' : Disk) (bound : ℕ) (within : bound ≤ total_disk_sectors)
    (same : (q : Place) → linear q < bound → word_at d' q ≡ word_at d q) where
  read_back-same :
      (n : ℕ) (p : Place) → IsPlace p → linear p + n ≤ bound → read_back n p d' ≡ read_back n p d
  read_back-same zero p v fits = refl
  read_back-same (suc n) p v fits =
      let next = next_place_lem p v (omega (arith, within)) in
      ap (λ x. x ∷ read_back n (next_place p) d') (same p (omega arith))
      ∙ ap (λ xs. word_at d p ∷ xs) (read_back-same n (next_place p) next.1 (omega (arith, next.0)))

  pub programs_of-same :
      (a : ℕ) (metas : List FileMeta)
      → LieBetween a metas bound
      → programs_of metas d' ≡ programs_of metas d
  programs_of-same a [] h = refl
  programs_of-same a (meta ∷ metas) h =
      rw
        (
          read_back-same (pos_part meta.word_count) (start_of meta) h.1
              (LieBetween-ordered (end_of meta) bound metas h.2),
          programs_of-same (end_of meta) metas h.2,
        )
        refl

pub programs_of-++ :
    (metas more : List FileMeta) (disk : Disk)
    → programs_of (metas ++ more) disk ≡ programs_of metas disk ++ programs_of more disk
programs_of-++ [] more disk = refl
programs_of-++ (meta ∷ metas) more disk = rw (programs_of-++ metas more disk) refl

pub length-programs_of :
    (metas : List FileMeta) (disk : Disk) → length (programs_of metas disk) ≡ length metas
length-programs_of [] disk = refl
length-programs_of (meta ∷ metas) disk = ap suc (length-programs_of metas disk)

pub is_known-programs_of :
    (name : Text) (metas : List FileMeta) (disk : Disk)
    → is_known name (programs_of metas disk) ≡ file_exists name metas
unfolding file_exists
is_known-programs_of name [] disk = refl
is_known-programs_of name (meta ∷ metas) disk = rw (is_known-programs_of name metas disk) refl
