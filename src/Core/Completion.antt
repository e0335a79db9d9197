-- ===== src/Core/Completion.antt =====
-- A creation that nothing interrupts, step by step, is `createProcess` (src/kernel/core.c).
use project_lucario.Base.{
  ℕ, zero, suc, ◌≡◌, refl, ap, ◌∙◌, update, update_self, update-update, inl, inr, Option-cases,
}
use project_lucario.Base.Int.{ℤ, pos, add32}
use project_lucario.Machine.{Machine, Pcb, ProcessTable, ready, Text, OsStatus, os_success}
use project_lucario.Mmu.{calculate_required_blocks, allocate_memory}
use project_lucario.Vfs.{
  Host, FileMeta, Place, VfsStatus, vfs_success, vfs_err_not_found, vfs_err_disk_full,
  vfs_get_metadata, next_place,
}
use project_lucario.Core.{
  System, get_free_pcb_index, set_state, ensure_loaded, create_process, create_from_disk,
  place_process, on_loaded, load_words, fill_pcb,
}
use project_lucario.Core.Phases.{
  Phase, searching, reserving, stored, described, copying, copied, filled, returned, blocks_of,
  filled_entry, after_loading, advance, advance_all,
}

-- What `createProcess` still does from a phase on.
abbrev rest_of : Host → Text → Phase → System → OsStatus × System
rest_of host name searching s = create_process host name s
rest_of host name (reserving k) s = on_loaded k name (ensure_loaded host name s)
rest_of host name (stored k) s = create_from_disk k name s
rest_of host name (described k meta) s = place_process k meta s
rest_of host name (copying k meta start rounds target p) s = (
  os_success,
  record s {
    machine = fill_pcb k start (blocks_of meta) meta (load_words rounds target p s.machine);
  },
)
rest_of host name (copied k meta start) s =
    (os_success, record s { machine = fill_pcb k start (blocks_of meta) meta s.machine })
rest_of host name (filled k) s = (os_success, record s { machine = set_state k ready s.machine })
rest_of host name (returned status) s = (status, s)

-- An entry that is filled and made READY.
set_state-filled :
    (k start : ℕ) (meta : FileMeta) (m : Machine)
    → set_state k ready (record m {
      next_pid = add32 m.next_pid (pos 1);
      table = update m.table k (filled_entry start meta m.next_pid (m.table k));
    })
      ≡ fill_pcb k start (blocks_of meta) meta m
unfolding fill_pcb
set_state-filled k start meta m =
    let entry = filled_entry start meta m.next_pid (m.table k) in
    let counted = record m { next_pid = add32 m.next_pid (pos 1) } in
    ap
      (λ (p : Pcb). record counted {
        table = update (update m.table k entry) k (record p { state = ready });
      })
      (update_self m.table k entry)
    ∙ ap (λ (t : ProcessTable). record counted { table = t })
        (update-update m.table k entry (record entry { state = ready }))

module _ (host : Host) (name : Text) where
  -- No step changes what the creation comes to in the end.
  rest_of-advance :
      (c : Phase) (s : System)
      → rest_of host name (advance host name c s).0 (advance host name c s).1
        ≡ rest_of host name c s
  unfolding advance create_process create_from_disk place_process load_words
  rest_of-advance searching s = elim (Option-cases (get_free_pcb_index s.machine.table)) [
    | inl e ↦ rw (e, advance, create_process) refl
    | inr (k, e) ↦ rw (e, advance, create_process) refl
  ]
  rest_of-advance (reserving k) s = after (ensure_loaded host name s)
    where
      after :
          (r : VfsStatus × System)
          → rest_of host name (after_loading k r).0 (after_loading k r).1 ≡ on_loaded k name r
      after (vfs_success, s') = refl
      after (vfs_err_not_found, s') = refl
      after (vfs_err_disk_full, s') = refl
  rest_of-advance (stored k) s = elim (Option-cases (vfs_get_metadata name s.vfs)) [
    | inl e ↦ rw (e, advance, create_from_disk) refl
    | inr (meta, e) ↦ rw (e, advance, create_from_disk) refl
  ]
  rest_of-advance (described k meta) s =
      let required = calculate_required_blocks meta.word_count in
      elim (Option-cases (allocate_memory required s.machine.free_partitions).0) [
        | inl e ↦ rw (e, advance, place_process) refl
        | inr (start, e) ↦ rw (e, advance, place_process) refl
      ]
  rest_of-advance (copying k meta start zero target p) s = refl
  rest_of-advance (copying k meta start (suc rounds) target p) s = refl
  rest_of-advance (copied k meta start) s =
      ap (λ (m : Machine). (os_success, record s { machine = m }))
        (set_state-filled k start meta s.machine)
  rest_of-advance (filled k) s = refl
  rest_of-advance (returned status) s = refl

  -- A creation that nothing interrupts comes to its end, with what `createProcess` returns.
  abbrev Completes : Phase → System → Type 0
  Completes c s =
      (n : ℕ) × (advance_all host name n (c, s)
        ≡ (returned (rest_of host name c s).0, (rest_of host name c s).1))

  Completes-step :
      (c : Phase) (s : System)
      → Completes (advance host name c s).0 (advance host name c s).1
      → Completes c s
  Completes-step c s (n, e) =
      (suc n, e ∙ ap (λ (r : OsStatus × System). (returned r.0, r.1)) (rest_of-advance c s))

  Completes-returned : (status : OsStatus) (s : System) → Completes (returned status) s
  Completes-returned status s = (0, refl)

  Completes-copied :
      (k : ℕ) (meta : FileMeta) (start : ℕ) (s : System) → Completes (copied k meta start) s
  unfolding advance
  Completes-copied k meta start s =
      Completes-step (copied k meta start) s (Completes-step (filled k) _ (0, refl))

  Completes-copying :
      (k : ℕ) (meta : FileMeta) (start rounds : ℕ) (target : ℤ) (p : Place) (s : System)
      → Completes (copying k meta start rounds target p) s
  unfolding advance
  Completes-copying k meta start zero target p s =
      Completes-step (copying k meta start zero target p) s (Completes-copied k meta start s)
  Completes-copying k meta start (suc rounds) target p s =
      Completes-step (copying k meta start (suc rounds) target p) s
        (Completes-copying k meta start rounds (add32 target (pos 1)) (next_place p) _)

  Completes-described : (k : ℕ) (meta : FileMeta) (s : System) → Completes (described k meta) s
  unfolding advance
  Completes-described k meta s =
      let required = calculate_required_blocks meta.word_count in
      Completes-step (described k meta) s
        (elim (Option-cases (allocate_memory required s.machine.free_partitions).0) [
          | inl e ↦ rw (e, advance) (Completes-returned _ _)
          | inr (start, e) ↦ rw (e, advance) (Completes-copying k meta start _ _ _ _)
        ])

  Completes-stored : (k : ℕ) (s : System) → Completes (stored k) s
  unfolding advance
  Completes-stored k s =
      Completes-step (stored k) s (elim (Option-cases (vfs_get_metadata name s.vfs)) [
        | inl e ↦ rw (e, advance) (Completes-returned _ _)
        | inr (meta, e) ↦ rw (e, advance) (Completes-described k meta s)
      ])

  Completes-reserving : (k : ℕ) (s : System) → Completes (reserving k) s
  unfolding advance
  Completes-reserving k s = Completes-step (reserving k) s (after (ensure_loaded host name s))
    where
      after : (r : VfsStatus × System) → Completes (after_loading k r).0 (after_loading k r).1
      after (vfs_success, s') = Completes-stored k s'
      after (vfs_err_not_found, s') = Completes-returned _ _
      after (vfs_err_disk_full, s') = Completes-returned _ _

  -- Uninterrupted, the steps are `createProcess`: after some number of them the creation has returned
  -- its status and left its system.
  advance_all-create_process :
      (s : System)
      → (n : ℕ) × (advance_all host name n (searching, s)
          ≡ (returned (create_process host name s).0, (create_process host name s).1))
  unfolding advance
  advance_all-create_process s =
      Completes-step searching s (elim (Option-cases (get_free_pcb_index s.machine.table)) [
        | inl e ↦ rw (e, advance) (Completes-returned _ _)
        | inr (k, e) ↦ rw (e, advance) (Completes-reserving k _)
      ])
