-- ===== src/Vfs/Refinement.antt =====
-- The loader (src/kernel/vfs.c, `vfsLoadToDisk`) against the store of programs.
use project_lucario.Base.{
  ◌+◌, ◌≤◌, ◌≡◌, refl, ap, ◌∙◌, arith, List, [], ◌∷◌, ◌++◌, length, leb, Bool-cases, Option-cases,
  inl, inr,
}
use project_lucario.Base.Int.{pos, pos_part, ◌-ℤ◌, ltb_ℤ}
use project_lucario.Machine.{Text, Disk, max_processes}
use project_lucario.Vfs.{
  Host, HostFile, FileMeta, Place, Vfs, VfsStatus, vfs_success, vfs_err_disk_full, copy_name,
  linear, total_disk_sectors, write_words, vfs_register_file, load_file, vfs_load_to_disk,
  file_exists, vfs_file_exists, vfs_clear_catalog,
}
use project_lucario.Vfs.Storage.{write_words_before}
use project_lucario.Vfs.Layout.{IsLaidOut, place-write_words}
use project_lucario.Vfs.Keeping.{room_left, vfs_load_to_disk-IsLaidOut}
use project_lucario.Vfs.Store.{
  Store, program_from, store_file, store_load, programs_of, store_of, load_all, store_load_all,
}
use project_lucario.Vfs.ReadBack.{
  read_back-write_words, programs_of-same, programs_of-++, length-programs_of, is_known-programs_of,
}

abbrev seen : VfsStatus × Vfs × Disk → VfsStatus × Store
seen (status, vfs, disk) = (status, store_of vfs disk)

-- The entry that is registered for a file.
abbrev meta_of : Text → HostFile → Place → FileMeta
meta_of path file place = record {
  file_path = copy_name path;
  program_name = copy_name file.program_name;
  start_track = place.track;
  start_cylinder = place.cylinder;
  start_sector = place.sector;
  word_count = file.word_count;
  start_pc = file.start_pc;
}

module _ (host : Host) (path : Text) (vfs : Vfs) (disk : Disk) (v : IsLaidOut vfs) where
  -- The words that are written for a file that fits.
  module _ (file : HostFile)
      (fits : linear vfs.free_place + pos_part file.word_count ≤ total_disk_sectors) where
    abbrev moved : Place × Disk
    moved = write_words host (pos_part file.word_count) file.lines vfs.free_place disk

    kept : programs_of vfs.catalog moved.1 ≡ programs_of vfs.catalog disk
    kept =
        programs_of-same disk moved.1 (linear vfs.free_place) v.within_disk
          (λ q h.
            write_words_before host (pos_part file.word_count) file.lines vfs.free_place q disk
              v.free fits h)
          0 vfs.catalog v.files

    used_up : linear moved.0 ≡ linear vfs.free_place + pos_part file.word_count
    used_up =
        (place-write_words host (pos_part file.word_count) file.lines vfs.free_place disk v.free
          fits).0

    store_of-refused :
        store_of (record vfs { free_place = moved.0 }) moved.1
        ≡ record (store_of vfs disk) { used = linear vfs.free_place + pos_part file.word_count }
    store_of-refused =
        ap (λ ps. record { programs = ps; used = linear moved.0 }) kept
        ∙ ap (λ u. record { programs = programs_of vfs.catalog disk; used = u }) used_up

    store_of-added :
        store_of
          (record vfs {
            free_place = moved.0;
            catalog = vfs.catalog ++ (meta_of path file vfs.free_place ∷ []);
          })
          moved.1
        ≡ record {
          used = linear vfs.free_place + pos_part file.word_count;
          programs = programs_of vfs.catalog disk ++ (program_from host path file ∷ []);
        }
    store_of-added =
        ap (λ ps. record { programs = ps; used = linear moved.0 })
          (programs_of-++ vfs.catalog (meta_of path file vfs.free_place ∷ []) moved.1
            ∙ ap (λ ps. ps ++ programs_of (meta_of path file vfs.free_place ∷ []) moved.1) kept
            ∙ ap
                (λ ws.
                  programs_of vfs.catalog disk
                  ++ (record (program_from host path file) { words = ws } ∷ []))
                (read_back-write_words host (pos_part file.word_count) file.lines vfs.free_place
                  disk v.free fits))
        ∙ ap
            (λ u. record {
              used = u;
              programs = programs_of vfs.catalog disk ++ (program_from host path file ∷ []);
            })
            used_up

  load_file-store_file :
      (file : HostFile)
      → seen (load_file host path file vfs disk) ≡ store_file host path file (store_of vfs disk)
  unfolding load_file vfs_register_file
  load_file-store_file file =
      elim (Bool-cases
        (ltb_ℤ (pos total_disk_sectors -ℤ pos (linear vfs.free_place)) file.word_count)) [
          | inl e ↦ rw e refl
          | inr e ↦
              let fits = room_left (linear vfs.free_place) file.word_count v.within_disk e in
              elim (Bool-cases (leb max_processes (length vfs.catalog))) [
                | inl full ↦
                    rw (e, length-programs_of vfs.catalog disk, full)
                      (ap (λ a. (vfs_err_disk_full, a)) (store_of-refused file fits))
                | inr room ↦
                    rw (e, length-programs_of vfs.catalog disk, room)
                      (ap (λ a. (vfs_success, a)) (store_of-added file fits))
              ]
        ]

  vfs_load_to_disk-store_load :
      seen (vfs_load_to_disk host path vfs disk) ≡ store_load host path (store_of vfs disk)
  unfolding vfs_load_to_disk vfs_file_exists
  vfs_load_to_disk-store_load = elim (Bool-cases (file_exists path vfs.catalog)) [
    | inl e ↦ rw (is_known-programs_of path vfs.catalog disk, e) refl
    | inr e ↦
        rw (is_known-programs_of path vfs.catalog disk, e)
          (elim (Option-cases (host.open_file path)) [
            | inl closed ↦ rw closed refl
            | inr (file, opened) ↦ rw opened (load_file-store_file file)
          ])
  ]

abbrev pub all_seen : List VfsStatus × Vfs × Disk → List VfsStatus × Store
all_seen (statuses, vfs, disk) = (statuses, store_of vfs disk)

load_all-store_load_all :
    (loads : List (Host × Text)) (vfs : Vfs) (disk : Disk)
    → IsLaidOut vfs
    → all_seen (load_all loads vfs disk) ≡ store_load_all loads (store_of vfs disk)
load_all-store_load_all [] vfs disk v = refl
load_all-store_load_all ((host, path) ∷ loads) vfs disk v =
    let r = vfs_load_to_disk host path vfs disk in
    let add : VfsStatus → List VfsStatus × Store → List VfsStatus × Store = λ s t. (s ∷ t.0, t.1) in
    ap (add r.0)
      (load_all-store_load_all loads r.1 r.2 (vfs_load_to_disk-IsLaidOut host path vfs disk v))
    ∙ ap (λ (q : VfsStatus × Store). add q.0 (store_load_all loads q.1))
        (vfs_load_to_disk-store_load host path vfs disk v)

cleared-IsLaidOut : (vfs : Vfs) → IsLaidOut (vfs_clear_catalog vfs)
unfolding vfs_clear_catalog linear
cleared-IsLaidOut vfs = record {
  free = record { cylinder = omega arith; sector = omega arith };
  within_disk = omega arith;
  files = omega arith;
}

-- From the empty catalogue on, any loads with `vfsLoadToDisk` return the statuses of the same loads
-- into a store of programs, and leave that store: reading the disk from the place of each catalogue
-- entry gives the words that the host's file held, whatever has been loaded since, and the free
-- pointer counts the sectors, those of programs that the full catalogue has refused too.
pub load_all-refines :
    (loads : List (Host × Text)) (vfs : Vfs) (disk : Disk)
    → all_seen (load_all loads (vfs_clear_catalog vfs) disk)
      ≡ store_load_all loads (record { programs = []; used = 0 })
unfolding vfs_clear_catalog linear
load_all-refines loads vfs disk =
    load_all-store_load_all loads (vfs_clear_catalog vfs) disk (cleared-IsLaidOut vfs)
