-- ===== src/Kernel/Counts.antt =====
-- The word counts of the catalogue (src/kernel/vfs.c): what a load of a file adds to them.
use project_lucario.Base.{
  ℕ, ◌^◌, ◌<◌, ◌≡◌, refl, sym, ◌∙◌, subst, arith, some, List, [], ◌∷◌, ◌++◌, Bool-cases, false, leb,
  length, Option-cases, inl, inr,
}
use project_lucario.Base.Int.{ℤ, pos, pos_part, ltb_ℤ, ◌-ℤ◌}
use project_lucario.Machine.{Text, Disk, max_processes}
use project_lucario.Vfs.{
  Host, HostFile, FileMeta, Vfs, vfs_get_metadata, find_meta, is_named, vfs_file_exists,
  vfs_load_to_disk, load_file, vfs_register_file, total_disk_sectors, linear,
}
use project_lucario.Core.{System, ensure_loaded}

-- The word counts of a list of catalogue entries are `int` values.
abbrev pub AreInts : List FileMeta → Type 0
AreInts [] = Unit
AreInts (meta ∷ metas) = (pos_part meta.word_count < 2 ^ 31) × AreInts metas

same_entry : {a b : FileMeta} → some a ≡ some b → a ≡ b
same_entry e = cc

AreInts-append :
    (metas : List FileMeta) (meta : FileMeta)
    → AreInts metas
    → pos_part meta.word_count < 2 ^ 31
    → AreInts (metas ++ (meta ∷ []))
AreInts-append [] meta v h = (h, tt)
AreInts-append (first ∷ metas) meta v h = (v.0, AreInts-append metas meta v.1 h)

AreInts-find_meta :
    (name : Text) (metas : List FileMeta) {meta : FileMeta}
    → AreInts metas
    → find_meta name metas ≡ some meta
    → pos_part meta.word_count < 2 ^ 31
unfolding find_meta
AreInts-find_meta name [] v e = absurd (ground arith)
AreInts-find_meta name (first ∷ metas) {meta} v e = elim (Bool-cases (is_named name first)) [
  | inl b ↦
      let found : find_meta name (first ∷ metas) ≡ some first = rw b refl in
      subst (λ r. pos_part r.word_count < 2 ^ 31) (same_entry (sym found ∙ e)) v.0
  | inr b ↦
      let later : find_meta name (first ∷ metas) ≡ find_meta name metas = rw b refl in
      AreInts-find_meta name metas v.1 (sym later ∙ e)
]

fitting_int :
    (w : ℤ) (used : ℕ) → ltb_ℤ (pos total_disk_sectors -ℤ pos used) w ≡ false → pos_part w < 2 ^ 31
unfolding ◌-ℤ◌
fitting_int w used h = ground arith

pub AreInts-metadata :
    (name : Text) (vfs : Vfs) {meta : FileMeta}
    → AreInts vfs.catalog
    → vfs_get_metadata name vfs ≡ some meta
    → pos_part meta.word_count < 2 ^ 31
unfolding vfs_get_metadata
AreInts-metadata name vfs v e = AreInts-find_meta name vfs.catalog v e

AreInts-load_file :
    (host : Host) (path : Text) (file : HostFile) (vfs : Vfs) (disk : Disk)
    → AreInts vfs.catalog
    → AreInts (load_file host path file vfs disk).1.catalog
unfolding load_file vfs_register_file
AreInts-load_file host path file vfs disk v =
    let large = ltb_ℤ (pos total_disk_sectors -ℤ pos (linear vfs.free_place)) file.word_count in
    elim (Bool-cases large) [
      | inl b ↦ rw b v
      | inr b ↦ elim (Bool-cases (leb max_processes (length vfs.catalog))) [
        | inl full ↦ rw (b, full) v
        | inr room ↦
            rw (b, room)
              (AreInts-append vfs.catalog _ v
                (fitting_int file.word_count (linear vfs.free_place) b))
      ]
    ]

pub AreInts-ensure_loaded :
    (host : Host) (name : Text) (s : System)
    → AreInts s.vfs.catalog
    → AreInts (ensure_loaded host name s).1.vfs.catalog
unfolding ensure_loaded vfs_load_to_disk
AreInts-ensure_loaded host name s v = elim (Bool-cases (vfs_file_exists name s.vfs)) [
  | inl there ↦ rw there v
  | inr fresh ↦ elim (Option-cases (host.open_file name)) [
    | inl e ↦ rw (fresh, e) v
    | inr (file, e) ↦ rw (fresh, e) (AreInts-load_file host name file s.vfs s.machine.disk v)
  ]
]
