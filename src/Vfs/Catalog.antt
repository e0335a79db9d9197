-- ===== src/Vfs/Catalog.antt =====
-- The catalogue of the virtual file system (src/kernel/vfs.c).
use project_lucario.Base.{
  ℕ, zero, suc, ◌⊎◌, ◌≤◌, ◌<◌, ◌≡◌, refl, ap, arith, true, false, none, some, List, [], ◌∷◌, ◌++◌,
  length, take, leb, inl, inr,
}
use project_lucario.Base.Int.{ℤ}
use project_lucario.Machine.{Text, max_processes}
use project_lucario.Vfs.{
  FileMeta, Place, Vfs, same_text, is_named, find_meta, file_exists, vfs_file_exists,
  vfs_get_metadata, vfs_register_file, copy_name,
}

-- `vfsFileExists` and `vfsGetMetadata` agree, for every name and catalogue.
pub vfs_file_exists_iff :
    (name : Text) (vfs : Vfs)
    → vfs_file_exists name vfs ≡ (elim (vfs_get_metadata name vfs) [ none ↦ false | some _ ↦ true ])
unfolding vfs_file_exists vfs_get_metadata
vfs_file_exists_iff name vfs = agree vfs.catalog
  where
    agree :
        (metas : List FileMeta)
        → file_exists name metas ≡ (elim (find_meta name metas) [ none ↦ false | some _ ↦ true ])
    agree [] = refl
    agree (meta ∷ metas) = ground (arith, agree metas)

same_text_refl : (t : Text) → same_text t t ≡ true
unfolding same_text
same_text_refl [] = refl
same_text_refl (c ∷ t) = ground (arith, same_text_refl t)

take-short : (n : ℕ) (t : Text) → length t ≤ n → take n t ≡ t
take-short zero [] h = refl
take-short (suc n) [] h = refl
take-short zero (c ∷ t) h = absurd (omega arith)
take-short (suc n) (c ∷ t) h = ap (λ r. c ∷ r) (take-short n t (omega arith))

find_meta-append :
    (name : Text) (metas : List FileMeta) (meta : FileMeta)
    → is_named name meta ≡ true
    → (file_exists name metas ≡ true) ⊎ (find_meta name (metas ++ (meta ∷ [])) ≡ some meta)
unfolding find_meta file_exists
find_meta-append name [] meta h = inr (rw h refl)
find_meta-append name (first ∷ metas) meta h = ground (arith, find_meta-append name metas meta h)

-- The entry of a file with a short path.
abbrev pub entry : Text → Text → Place → ℤ → ℤ → FileMeta
entry path name place words pc' = record {
  file_path = path;
  program_name = copy_name name;
  start_track = place.track;
  start_cylinder = place.cylinder;
  start_sector = place.sector;
  word_count = words;
  start_pc = pc';
}

-- A file registered, while the catalogue has room, under a path of at most 255 bytes that no entry had
-- before is found under that path, with the place, the length and the start that were given.
pub vfs_get_metadata-vfs_register_file :
    (path name : Text) (place : Place) (words start_pc : ℤ) (vfs : Vfs)
    → length path ≤ 255
    → vfs_file_exists path vfs ≡ false
    → length vfs.catalog < max_processes
    → vfs_get_metadata path (vfs_register_file path name place words start_pc vfs).1
      ≡ some (entry path name place words start_pc)
unfolding vfs_get_metadata vfs_register_file vfs_file_exists
vfs_get_metadata-vfs_register_file path name place words start_pc vfs short fresh room =
    let not_full : leb 20 (length vfs.catalog) ≡ false = ground arith in
    rw (not_full, take-short 255 path short)
      (elim (find_meta-append path vfs.catalog (entry path name place words start_pc) named) [
        | inl old ↦ cc
        | inr found ↦ found
      ])
  where
    named : is_named path (entry path name place words start_pc) ≡ true
    named = ground (arith, same_text_refl path)
