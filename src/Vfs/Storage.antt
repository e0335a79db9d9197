-- ===== src/Vfs/Storage.antt =====
-- The words of a program on the disk: what the loop of `vfsLoadToDisk` (src/kernel/vfs.c) leaves there.
use project_lucario.Base.{ℕ, zero, suc, ◌+◌, ◌≤◌, ◌<◌, ◌≡◌, refl, ◌∙◌, arith, List}
use project_lucario.Base.Int.{ℤ}
use project_lucario.Machine.{Disk, Text}
use project_lucario.Disk.{read_sector, write_sector}
use project_lucario.Vfs.{
  Host, Place, next_place, linear, total_disk_sectors, read_program_word, write_words,
}
use project_lucario.Vfs.Places.{IsPlace, next_place_lem}

-- The place `i` sectors on, and the word that a read of it returns.
abbrev pub place_after : ℕ → Place → Place
place_after zero p = p
place_after (suc i) p = place_after i (next_place p)

abbrev pub word_at : Disk → Place → ℤ
word_at disk p = (read_sector p.track p.cylinder p.sector disk).1

-- The `i`-th number that the host's file holds, and 0 behind its end.
abbrev pub scanned : Host → ℕ → List Text → ℤ
scanned host zero lines = (read_program_word host lines).0
scanned host (suc i) lines = scanned host i (read_program_word host lines).1

word_at-write_sector :
    (p : Place) (w : ℤ) (disk : Disk)
    → IsPlace p
    → linear p < total_disk_sectors
    → word_at (write_sector p.track p.cylinder p.sector w disk).1 p ≡ w
unfolding read_sector write_sector linear
word_at-write_sector p w disk v h = ground (arith, v.cylinder, v.sector)

word_at_other :
    (p q : Place) (w : ℤ) (disk : Disk)
    → linear q < linear p
    → word_at (write_sector p.track p.cylinder p.sector w disk).1 q ≡ word_at disk q
unfolding read_sector write_sector linear
word_at_other p q w disk h = ground arith

pub write_words_before :
    (host : Host) (n : ℕ) (lines : List Text) (p q : Place) (disk : Disk)
    → IsPlace p
    → linear p + n ≤ total_disk_sectors
    → linear q < linear p
    → word_at (write_words host n lines p disk).1 q ≡ word_at disk q
unfolding write_words
write_words_before host zero lines p q disk v fits h = refl
write_words_before host (suc n) lines p q disk v fits h =
    let (w, rest) = read_program_word host lines in
    let next : (linear (next_place p) ≡ linear p + 1) × IsPlace (next_place p) =
      ((next_place_lem p v (omega arith)).0, (next_place_lem p v (omega arith)).1) in
    write_words_before host n rest (next_place p) q
      (write_sector p.track p.cylinder p.sector w disk).1 next.1 (omega (arith, next.0))
      (omega (arith, next.0))
    ∙ word_at_other p q w disk h

-- When a program that fits the disk is written from a place on, the sector `i` places on holds the
-- `i`-th number of the host's file, or 0 behind the file's end, for every word of the program.
pub write_words_lem :
    (host : Host) (n i : ℕ) (lines : List Text) (p : Place) (disk : Disk)
    → IsPlace p
    → linear p + n ≤ total_disk_sectors
    → i < n
    → word_at (write_words host n lines p disk).1 (place_after i p) ≡ scanned host i lines
unfolding write_words
write_words_lem host zero i lines p disk v fits h = absurd (omega arith)
write_words_lem host (suc n) zero lines p disk v fits h =
    let (w, rest) = read_program_word host lines in
    let next = next_place_lem p v (omega arith) in
    write_words_before host n rest (next_place p) p
      (write_sector p.track p.cylinder p.sector w disk).1 next.1 (omega (arith, next.0))
      (omega (arith, next.0))
    ∙ word_at-write_sector p w disk v (omega arith)
write_words_lem host (suc n) (suc i) lines p disk v fits h =
    let (w, rest) = read_program_word host lines in
    let next = next_place_lem p v (omega arith) in
    write_words_lem host n i rest (next_place p) (write_sector p.track p.cylinder p.sector w disk).1
      next.1 (omega (arith, next.0)) (omega arith)
