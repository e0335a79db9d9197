-- ===== src/Console/Marks.antt =====
-- What the loops of `diskstat` mark (src/console.c, `printDiskStatus`).
use project_lucario.Base.{
  ℕ, zero, suc, ◌+◌, ◌≤◌, ◌<◌, ◌≡◌, refl, ap, ◌∙◌, arith, Bool, true, false, ◌&&◌, Option, none,
  some, List, [], ◌∷◌, leb, ltb, ◌==◌, if◌then◌else◌,
}
use project_lucario.Base.Int.{pos_part}
use project_lucario.Vfs.{FileMeta, Place, linear, total_disk_sectors}
use project_lucario.Vfs.Places.{IsPlace}
use project_lucario.Vfs.Layout.{start_of, end_of, LieBetween, LieBetween-ordered}
use project_lucario.Console.Reports.{DiskMap, next_sector, on_disk, mark, mark_words, mark_files}

-- The number of the file, counted from `i`, that a sector of the linear order belongs to.
abbrev pub file_at : ℕ → List FileMeta → ℕ → Option ℕ
file_at i [] n = none
file_at i (meta ∷ metas) n =
    if leb (linear (start_of meta)) n && ltb n (end_of meta)
    then some i
    else file_at (suc i) metas n

abbrev pub words_in : List FileMeta → ℕ
words_in [] = 0
words_in (meta ∷ metas) = pos_part meta.word_count + words_in metas

abbrev pub shows : DiskMap → Place → Option ℕ
shows map q = map q.track q.cylinder q.sector

abbrev pub or_else : Option ℕ → Option ℕ → Option ℕ
or_else (some f) other = some f
or_else none other = other

next_sector_lem :
    (p : Place)
    → IsPlace p
    → linear p < total_disk_sectors
    → (linear (next_sector p) ≡ linear p + 1) × IsPlace (next_sector p) × (on_disk p ≡ true)
unfolding next_sector linear
next_sector_lem p v h = ground arith

shows-mark :
    (file : ℕ) (p q : Place) (map : DiskMap)
    → IsPlace p
    → IsPlace q
    → shows (mark file p map) q ≡ (if linear q == linear p then some file else shows map q)
unfolding linear
shows-mark file p q map v w = ground arith

mark_words_lem :
    (file n : ℕ) (p q : Place) (map : DiskMap) (occupied : ℕ)
    → IsPlace p
    → IsPlace q
    → linear p + n ≤ total_disk_sectors
    → (shows (mark_words file n p (map, occupied)).0 q ≡ (
        if leb (linear p) (linear q) && ltb (linear q) (linear p + n)
        then some file
        else shows map q))
      × ((mark_words file n p (map, occupied)).1 ≡ occupied + n)
unfolding mark_words
mark_words_lem file zero p q map occupied v w fits = (ground arith, omega arith)
mark_words_lem file (suc n) p q map occupied v w fits =
    let next = next_sector_lem p v (omega arith) in
    let rest =
      mark_words_lem file n (next_sector p) q (mark file p map) (suc occupied) next.1 w
        (omega (arith, next.0)) in
    let marked = shows-mark file p q map v w in
    let step : mark_words file (suc n) p (map, occupied)
        ≡ mark_words file n (next_sector p) (mark file p map, suc occupied) =
      ap
        (λ b.
          mark_words file n (next_sector p)
            (if b then (mark file p map, suc occupied) else (map, occupied)))
        next.2 in
    (
      ap (λ (r : DiskMap × ℕ). shows r.0 q) step
          ∙ rest.0
          ∙ joined (linear p) (linear (next_sector p)) (linear q) n (shows (mark file p map) q)
              (shows map q) next.0 marked,
      ap (λ (r : DiskMap × ℕ). r.1) step ∙ rest.1 ∙ omega arith,
    )
  where
    joined :
        (a a' b n' : ℕ) (x y : Option ℕ)
        → a' ≡ a + 1
        → x ≡ (if b == a then some file else y)
        → (if leb a' b && ltb b (a' + n') then some file else x)
          ≡ (if leb a b && ltb b (a + suc n') then some file else y)
    joined a a' b n' x y e h = ground arith

file_at-before :
    (i a b n : ℕ) (metas : List FileMeta) → LieBetween a metas b → n < a → file_at i metas n ≡ none
file_at-before i a b n [] v h = refl
file_at-before i a b n (meta ∷ metas) v h =
    let rest = file_at-before (suc i) (end_of meta) b n metas v.2 (omega (arith, v.0)) in
    ground (arith, v.0, rest)

-- A sector of the first file is none of the others'.
first_or_else :
    (i : ℕ) (b : Bool) (others shown : Option ℕ)
    → (b ≡ true → others ≡ none)
    → or_else others (if b then some i else shown) ≡ or_else (if b then some i else others) shown
first_or_else i true others shown h = ap (λ r. or_else r (some i)) (h refl)
first_or_else i false others shown h = refl

pub mark_files_lem :
    (i a : ℕ) (metas : List FileMeta) (q : Place) (map : DiskMap) (occupied : ℕ)
    → LieBetween a metas total_disk_sectors
    → IsPlace q
    → (shows (mark_files i metas (map, occupied)).0 q
        ≡ or_else (file_at i metas (linear q)) (shows map q))
      × ((mark_files i metas (map, occupied)).1 ≡ occupied + words_in metas)
unfolding mark_files
mark_files_lem i a [] q map occupied v w = (refl, omega arith)
mark_files_lem i a (meta ∷ metas) q map occupied v w =
    let fits = LieBetween-ordered (end_of meta) total_disk_sectors metas v.2 in
    let n = pos_part meta.word_count in
    let first = mark_words_lem i n (start_of meta) q map occupied v.1 w fits in
    let r = mark_words i n (start_of meta) (map, occupied) in
    let rest = mark_files_lem (suc i) (end_of meta) metas q r.0 r.1 v.2 w in
    (
      rest.0
          ∙ ap (or_else (file_at (suc i) metas (linear q))) first.0
          ∙ first_or_else i
              (leb (linear (start_of meta)) (linear q) && ltb (linear q) (end_of meta))
              (file_at (suc i) metas (linear q)) (shows map q)
              (λ e.
                file_at-before (suc i) (end_of meta) total_disk_sectors (linear q) metas v.2
                  (ground (arith, e))),
      rest.1 ∙ omega (arith, first.1),
    )
