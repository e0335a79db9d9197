-- ===== src/Core/Failure.antt =====
-- A `createProcess` that fails leaves the machine as it was, up to the disk (src/kernel/core.c).
use project_lucario.Base.{
  update, update_self, update-update, update_id, ℕ, zero, suc, ◌+◌, ◌<◌, ◌≡◌, refl, ◌≢◌, ap, sym,
  ◌∙◌, subst, arith, true, false, Option, none, some, inl, inr, Bool-cases, Option-cases,
}
use project_lucario.Base.Int.{ℤ}
use project_lucario.Machine.{
  Machine, Pcb, ProcessTable, ProcessState, new, finished, is_finished, Text, OsStatus, os_success,
  os_err_max_processes, max_processes,
}
use project_lucario.Vfs.{Host, VfsStatus, vfs_success, vfs_err_not_found, vfs_err_disk_full}
use project_lucario.Core.{
  System, free_pcb_from, get_free_pcb_index, set_state, place_process, create_from_disk,
  ensure_loaded, on_loaded, create_process,
}

-- What the search for a free entry returns.
abbrev FreeEntry : ℕ → ℕ → ProcessTable → Option ℕ → Type 0
FreeEntry n i table none = Unit
FreeEntry n i table (some k) = (k < i + n) × (is_finished (table k).state ≡ true)

free_pcb_from-FreeEntry :
    (n i : ℕ) (table : ProcessTable) → FreeEntry n i table (free_pcb_from n i table)
free_pcb_from-FreeEntry zero i table = unfold free_pcb_from in tt
free_pcb_from-FreeEntry (suc n) i table = elim (Bool-cases (is_finished (table i).state)) [
  | inl f ↦ rw (here f) (omega arith, f)
  | inr g ↦
      rw (skip g) (weaken (free_pcb_from n (suc i) table) (free_pcb_from-FreeEntry n (suc i) table))
]
  where
    here : is_finished (table i).state ≡ true → free_pcb_from (suc n) i table ≡ some i
    here f = unfold free_pcb_from in rw (f, free_pcb_from) refl

    skip :
        is_finished (table i).state ≡ false
        → free_pcb_from (suc n) i table ≡ free_pcb_from n (suc i) table
    skip g = unfold free_pcb_from in rw (g, free_pcb_from) refl

    weaken : (r : Option ℕ) → FreeEntry n (suc i) table r → FreeEntry (suc n) i table r
    weaken none h = tt
    weaken (some k) h = (omega (arith, h.0), h.1)

pub get_free_pcb_index-finished :
    (table : ProcessTable) {k : ℕ}
    → get_free_pcb_index table ≡ some k
    → (k < max_processes) × (is_finished (table k).state ≡ true)
unfolding get_free_pcb_index
get_free_pcb_index-finished table e =
    subst (FreeEntry max_processes 0 table) e (free_pcb_from-FreeEntry max_processes 0 table)

pub is_finished-eq : (s : ProcessState) → is_finished s ≡ true → s ≡ finished
is_finished-eq s h = ground arith

-- A FINISHED entry that is made NEW and FINISHED again is the entry that it was.
set_state_back :
    (k : ℕ) (m : Machine)
    → is_finished (m.table k).state ≡ true
    → set_state k finished (set_state k new m) ≡ m
set_state_back k m h =
    let entry = record (m.table k) { state = new } in
    ap
      (λ (p : Pcb). record m {
        table = update (update m.table k entry) k (record p { state = finished });
      })
      (update_self m.table k entry)
    ∙ ap (λ (t : ProcessTable). record m { table = t })
        (update-update m.table k entry (record entry { state = finished })
          ∙ update_id m.table k
              (ap (λ s. record (m.table k) { state = s }) (is_finished-eq (m.table k).state h)))

create_from_disk_fails :
    (k : ℕ) (name : Text) (s : System)
    → (create_from_disk k name s).0 ≢ os_success
    → (create_from_disk k name s).1.machine ≡ set_state k finished s.machine
unfolding create_from_disk place_process
create_from_disk_fails k name s h = ground arith

-- The rest of the system, with another disk.
abbrev pub with_disk : (ℕ → ℕ → ℕ → ℤ) → Machine → Machine
with_disk disk m = record m { disk = disk }

pub ensure_loaded_machine :
    (host : Host) (name : Text) (s : System)
    → (ensure_loaded host name s).1.machine
      ≡ with_disk (ensure_loaded host name s).1.machine.disk s.machine
unfolding ensure_loaded
ensure_loaded_machine host name s = ground arith

on_loaded_fails :
    (k : ℕ) (name : Text) (r : VfsStatus × System)
    → (on_loaded k name r).0 ≢ os_success
    → (on_loaded k name r).1.machine ≡ set_state k finished r.1.machine
on_loaded_fails k name (vfs_success, s) h = create_from_disk_fails k name s h
on_loaded_fails k name (vfs_err_not_found, s) h = refl
on_loaded_fails k name (vfs_err_disk_full, s) h = refl

module _ (host : Host) (name : Text) (s : System) where
  pub create_process-none :
      get_free_pcb_index s.machine.table ≡ none
      → create_process host name s ≡ (os_err_max_processes, s)
  unfolding create_process
  create_process-none e = rw (e, create_process) refl

  abbrev pub reserved : ℕ → System
  reserved k = record s { machine = set_state k new s.machine }

  pub create_process-some :
      (k : ℕ)
      → get_free_pcb_index s.machine.table ≡ some k
      → create_process host name s ≡ on_loaded k name (ensure_loaded host name (reserved k))
  unfolding create_process
  create_process-some k e = rw (e, create_process) refl

-- A `createProcess` that reports an error leaves the process table, the partitions, RAM, the
-- registers and the rest of the machine as they were: only the disk and the catalogue may differ.
pub create_process_fails :
    (host : Host) (name : Text) (s : System)
    → (create_process host name s).0 ≢ os_success
    → (create_process host name s).1.machine
      ≡ record s.machine { disk = (create_process host name s).1.machine.disk }
create_process_fails host name s h = elim (Option-cases (get_free_pcb_index s.machine.table)) [
  | inl e ↦ rw (create_process-none host name s e) refl
  | inr (k, e) ↦
      same_after (create_process host name s).1.machine
        (ensure_loaded host name (reserved host name s k)).1.machine.disk (failed k e)
]
  where
    loaded : ℕ → VfsStatus × System
    loaded k = ensure_loaded host name (reserved host name s k)

    same_after :
        (m : Machine) (disk : ℕ → ℕ → ℕ → ℤ)
        → m ≡ with_disk disk s.machine
        → m ≡ with_disk m.disk s.machine
    same_after m disk e = e ∙ ap (λ (x : Machine). with_disk x.disk s.machine) (sym e)

    failed :
        (k : ℕ)
        → get_free_pcb_index s.machine.table ≡ some k
        → (create_process host name s).1.machine ≡ with_disk (loaded k).1.machine.disk s.machine
    failed k e =
        ap (λ (r : OsStatus × System). r.1.machine) (create_process-some host name s k e)
        ∙ on_loaded_fails k name (loaded k)
            (λ q. h (ap (λ (r : OsStatus × System). r.0) (create_process-some host name s k e) ∙ q))
        ∙ ap (set_state k finished) (ensure_loaded_machine host name (reserved host name s k))
        ∙ ap (with_disk (loaded k).1.machine.disk)
            (set_state_back k s.machine (get_free_pcb_index-finished s.machine.table e).1)
