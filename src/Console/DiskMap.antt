-- ===== src/Console/DiskMap.antt =====
-- What `diskstat` shows of the files that lie on the disk (src/console.c, `printDiskStatus`).
use project_lucario.Base.{
  ℕ, suc, ◌+◌, ◌*◌, ◌≤◌, ◌<◌, ◌≡◌, refl, ap, ◌∙◌, arith, true, Option, none, some, List, [], ◌∷◌,
  ltb, if◌then◌else◌,
}
use project_lucario.Machine.{disk_cylinders, disk_sectors}
use project_lucario.Vfs.{Vfs, FileMeta, Place, linear, total_disk_sectors}
use project_lucario.Vfs.Layout.{end_of, IsLaidOut, LieBetween, LieBetween-le}
use project_lucario.Console.Reports.{DiskMap, mark_files, display_id, disk_report}
use project_lucario.Console.Marks.{file_at, words_in, or_else, mark_files_lem}

words_in-fits : (a b : ℕ) (metas : List FileMeta) → LieBetween a metas b → a + words_in metas ≤ b
words_in-fits a b [] v = omega (arith, v)
words_in-fits a b (meta ∷ metas) v = omega (arith, v.0, words_in-fits (end_of meta) b metas v.2)

or_else-none : (x : Option ℕ) → or_else x none ≡ x
or_else-none none = refl
or_else-none (some f) = refl

display_id_lem :
    (map : DiskMap) (t c s : ℕ)
    → suc s < disk_sectors
    → display_id map t c s ≡ or_else (map t c s) (map t c (suc s))
display_id_lem map t c s h = by_first (map t c s)
  where
    inside : ltb (suc s) disk_sectors ≡ true
    inside = ground arith

    by_first :
        (x : Option ℕ)
        → elim x as (λ _. Option ℕ) [
          | some file ↦ some file
          | none ↦ if ltb (suc s) disk_sectors then map t c (suc s) else none
        ]
          ≡ or_else x (map t c (suc s))
    by_first (some file) = refl
    by_first none = rw inside refl

module _ (vfs : Vfs) (v : IsLaidOut vfs) where
  abbrev marked_disk : DiskMap × ℕ
  marked_disk = mark_files 0 vfs.catalog ((λ _ _ _. none), 0)

  within : LieBetween 0 vfs.catalog total_disk_sectors
  within =
      LieBetween-le 0 (linear vfs.free_place) total_disk_sectors vfs.catalog v.files v.within_disk

  marked_at :
      (t c s n : ℕ)
      → c < disk_cylinders
      → s < disk_sectors
      → t * 1_000 + c * 100 + s ≡ n
      → marked_disk.0 t c s ≡ file_at 0 vfs.catalog n
  unfolding linear
  marked_at t c s n hc hs e =
      let q : Place = record { track = t; cylinder = c; sector = s } in
      let same : linear q ≡ n = omega (arith, e) in
      (mark_files_lem 0 0 vfs.catalog q (λ _ _ _. none) 0 within
        (record { cylinder = hc; sector = hs })).0
      ∙ or_else-none _
      ∙ ap (file_at 0 vfs.catalog) same

  counted : marked_disk.1 ≡ words_in vfs.catalog
  counted =
      (mark_files_lem 0 0 vfs.catalog (record { track = 0; cylinder = 0; sector = 0 })
        (λ _ _ _. none) 0 within (record { cylinder = omega arith; sector = omega arith })).1
      ∙ omega arith

-- Where the files of the catalogue lie one behind another on the disk, each character of `diskstat`'s
-- map shows the file that the first of its ten sectors belongs to, or else the file of the second, or
-- else none; the count of occupied sectors is that of the words of all files, and the usage is at most
-- 100 percent.
pub disk_report-shows :
    (vfs : Vfs) (t c g : ℕ)
    → IsLaidOut vfs
    → c < disk_cylinders
    → g < 10
    → ((disk_report vfs).display t c g
        ≡ or_else
            (file_at 0 vfs.catalog (t * 1_000 + c * 100 + g * 10))
            (file_at 0 vfs.catalog (t * 1_000 + c * 100 + g * 10 + 1)))
      × ((disk_report vfs).occupied_sectors ≡ words_in vfs.catalog)
      × ((disk_report vfs).usage_percent ≤ 100)
unfolding disk_report
disk_report-shows vfs t c g v hc hg =
    let n = t * 1_000 + c * 100 + g * 10 in
    let map = (marked_disk vfs v).0 in
    let first = marked_at vfs v t c (g * 10) n hc (omega arith) refl in
    let second = marked_at vfs v t c (suc (g * 10)) (n + 1) hc (omega arith) (omega arith) in
    (
      display_id_lem map t c (g * 10) (omega arith)
          ∙ ap (λ x. or_else x (map t c (suc (g * 10)))) first
          ∙ ap (or_else (file_at 0 vfs.catalog n)) second,
      counted vfs v,
      omega (arith, counted vfs v, words_in-fits 0 total_disk_sectors vfs.catalog (within vfs v)),
    )
