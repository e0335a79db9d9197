-- ===== src/Kernel/Creation.antt =====
-- `createProcess` (src/kernel/core.c) when it succeeds: what it adds to the tables.
use project_lucario.Base.{
  update-update, ℕ, zero, suc, ◌<◌, ◌≤◌, ◌≡◌, refl, sym, ap, ◌∙◌, subst, arith, true, Option, none,
  some, update, Option-cases, inl, inr,
}
use project_lucario.Base.Int.{ℤ, pos, negsuc, pos_part, add32}
use project_lucario.Machine.{
  Machine, Pcb, ProcessTable, OsStatus, os_success, os_err_memory, os_err_disk, Text, max_processes,
  new, ready, is_finished,
}
use project_lucario.Memory.{dma_write_memory}
use project_lucario.Disk.{read_sector}
use project_lucario.Mmu.{Partitions, allocate_memory, calculate_required_blocks, get_base_register}
use project_lucario.Vfs.{
  Host, FileMeta, Place, VfsStatus, vfs_success, vfs_err_not_found, vfs_err_disk_full,
  vfs_get_metadata, copy_name, next_place,
}
use project_lucario.Core.{
  System, load_words, place_process, fill_pcb, initial_context, create_from_disk, on_loaded,
  create_process, ensure_loaded, set_state, get_free_pcb_index,
}
use project_lucario.Core.Failure.{
  create_process-none, create_process-some, reserved, ensure_loaded_machine, with_disk,
  get_free_pcb_index-finished,
}
use project_lucario.Kernel.Frame.{tables}

-- The copy of the words keeps the tables, the current process and the next PID.
pub kept-dma_write_memory :
    (a w : ℤ) (m : Machine)
    → (tables (dma_write_memory a w m).1 ≡ tables m)
      × ((dma_write_memory a w m).1.next_pid ≡ m.next_pid)
unfolding dma_write_memory
kept-dma_write_memory a w m = ground arith

kept-load_words :
    (n : ℕ) (target : ℤ) (p : Place) (m : Machine)
    → (tables (load_words n target p m) ≡ tables m)
      × ((load_words n target p m).next_pid ≡ m.next_pid)
unfolding load_words
kept-load_words zero target p m = (refl, refl)
kept-load_words (suc n) target p m =
    let word = (read_sector p.track p.cylinder p.sector m.disk).1 in
    let rest =
      kept-load_words n (add32 target (pos 1)) (next_place p) (dma_write_memory target word m).1 in
    let first = kept-dma_write_memory target word m in (rest.0 ∙ first.0, rest.1 ∙ first.1)

-- `allocateMemory` returns a run only for one to twenty blocks.
pub allocate_memory_count :
    (r : ℤ) (free : Partitions) {s : ℕ} {free' : Partitions}
    → allocate_memory r free ≡ (some s, free')
    → (n : ℕ) × (r ≡ pos n) × (1 ≤ n) × (n ≤ max_processes)
unfolding allocate_memory
allocate_memory_count (pos n) free e = (n, refl, ground arith, ground arith)
allocate_memory_count (negsuc n) free e = absurd (ground arith)

-- The entry of a process that has been created in a run of blocks.
abbrev pub created_entry : ℕ → ℕ → ℤ → FileMeta → Pcb
created_entry start n pid meta = record {
  pid = pid;
  state = ready;
  context = initial_context (get_base_register start) n meta;
  program_name = copy_name meta.program_name;
  start_block = pos start;
  block_count = pos n;
  sleep_tics = pos 0;
}

-- What the creation of a program in entry `k` does to the tables, from a machine `m` whose entry is not
-- in use.
pub record IsCreated (k : ℕ) (meta : FileMeta) (m m' : Machine) : Type 0 where
  pub start : ℕ
  pub count : ℕ
  pub free : Partitions
  pub required : calculate_required_blocks meta.word_count ≡ pos count
  pub allocated : allocate_memory (pos count) m.free_partitions ≡ (some start, free)
  pub least : 1 ≤ count
  pub most : count ≤ max_processes
  pub result :
      tables m' ≡ (update m.table k (created_entry start count m.next_pid meta), free, m.current)

module _ (k : ℕ) (meta : FileMeta) (s : System) where
  abbrev pub free_place : Place
  free_place = record {
    track = meta.start_track;
    cylinder = meta.start_cylinder;
    sector = meta.start_sector;
  }

  -- The machine with the words of the program in the blocks from `start` on.
  abbrev pub loaded : ℕ → Partitions → Machine
  loaded start free =
      load_words (pos_part meta.word_count) (pos (get_base_register start)) free_place
        (record s.machine { free_partitions = free })

  fill_pcb-IsCreated :
      (start n : ℕ) (free : Partitions)
      → calculate_required_blocks meta.word_count ≡ pos n
      → allocate_memory (pos n) s.machine.free_partitions ≡ (some start, free)
      → 1 ≤ n
      → n ≤ max_processes
      → IsCreated k meta s.machine (fill_pcb k start n meta (loaded start free))
  unfolding fill_pcb
  fill_pcb-IsCreated start n free required allocated least most =
      let (kept, pid) =
        kept-load_words (pos_part meta.word_count) (pos (get_base_register start)) free_place
          (record s.machine { free_partitions = free }) in
      record {
        start = start;
        count = n;
        free = free;
        required = required;
        allocated = allocated;
        least = least;
        most = most;
        result =
            ap
              (λ (z : ℤ × ProcessTable × Partitions × Option ℕ).
                (update z.1 k (created_entry start n z.0 meta), z.2, z.3))
              (ground (arith, kept, pid));
      }

  pub place_process-none :
      {free : Partitions}
      → allocate_memory (calculate_required_blocks meta.word_count) s.machine.free_partitions
        ≡ (none, free)
      → (place_process k meta s).0 ≡ os_err_memory
  unfolding place_process
  place_process-none e = rw (e, place_process) refl

  pub place_process-some :
      {start : ℕ} {free : Partitions}
      → allocate_memory (calculate_required_blocks meta.word_count) s.machine.free_partitions
        ≡ (some start, free)
      → place_process k meta s ≡ (
        os_success,
        record s {
          machine =
              fill_pcb k start
                (pos_part (calculate_required_blocks meta.word_count))
                meta
                (loaded start free);
        },
      )
  unfolding place_process
  place_process-some {start} e =
      rw (e, place_process)
        (ap
          (λ (f : Partitions). (
            os_success,
            record s {
              machine =
                  fill_pcb k start (pos_part (calculate_required_blocks meta.word_count)) meta
                    (loaded start f);
            },
          ))
          (ap (λ (r : Option ℕ × Partitions). r.1) e))

  placed :
      (r : Option ℕ × Partitions)
      → allocate_memory (calculate_required_blocks meta.word_count) s.machine.free_partitions ≡ r
      → (place_process k meta s).0 ≡ os_success
      → IsCreated k meta s.machine (place_process k meta s).1.machine
  placed (none, free) e h = absurd (let q = place_process-none e in cc)
  placed (some start, free) e h =
      let (n, same, least, most) =
        allocate_memory_count (calculate_required_blocks meta.word_count) s.machine.free_partitions
          e in
      subst (IsCreated k meta s.machine)
        (sym (
          ap (λ (r : OsStatus × System). r.1.machine) (place_process-some e)
          ∙ ap (λ z. fill_pcb k start (pos_part z) meta (loaded start free)) same))
        (fill_pcb-IsCreated start n free same
          (ap (λ z. allocate_memory z s.machine.free_partitions) (sym same) ∙ e) least most)

  place_process-IsCreated :
      (place_process k meta s).0 ≡ os_success
      → IsCreated k meta s.machine (place_process k meta s).1.machine
  place_process-IsCreated h = placed _ refl h

  place_process_vfs : (place_process k meta s).1.vfs ≡ s.vfs
  unfolding place_process
  place_process_vfs =
      let required = calculate_required_blocks meta.word_count in
      elim (Option-cases (allocate_memory required s.machine.free_partitions).0) [
        | inl e ↦ rw (e, place_process) refl
        | inr (start, e) ↦ rw (e, place_process) refl
      ]

-- A creation of the program that the catalogue holds under the name.
abbrev pub CreatesFrom : ℕ → Text → Machine → System → Type 0
CreatesFrom k name m s' =
    (meta : FileMeta) × (vfs_get_metadata name s'.vfs ≡ some meta) × IsCreated k meta m s'.machine

create_from_disk-CreatesFrom :
    (k : ℕ) (name : Text) (s : System) (r : Option FileMeta)
    → vfs_get_metadata name s.vfs ≡ r
    → (create_from_disk k name s).0 ≡ os_success
    → CreatesFrom k name s.machine (create_from_disk k name s).1
create_from_disk-CreatesFrom k name s none e h = absurd (let q = from_disk_none in cc)
  where
    from_disk_none : (create_from_disk k name s).0 ≡ os_err_disk
    from_disk_none = unfold create_from_disk in rw (e, create_from_disk) refl
create_from_disk-CreatesFrom k name s (some meta) e h =
    subst (λ (r : OsStatus × System). CreatesFrom k name s.machine r.1) (sym from_disk_some)
      (
        meta,
        ap (λ v. vfs_get_metadata name v) (place_process_vfs k meta s) ∙ e,
        place_process-IsCreated k meta s
            (sym (ap (λ (r : OsStatus × System). r.0) from_disk_some) ∙ h),
      )
  where
    from_disk_some : create_from_disk k name s ≡ place_process k meta s
    from_disk_some = unfold create_from_disk in rw (e, create_from_disk) refl

on_loaded-CreatesFrom :
    (k : ℕ) (name : Text) (r : VfsStatus × System)
    → (on_loaded k name r).0 ≡ os_success
    → CreatesFrom k name r.1.machine (on_loaded k name r).1
on_loaded-CreatesFrom k name (vfs_success, s) h =
    create_from_disk-CreatesFrom k name s (vfs_get_metadata name s.vfs) refl h
on_loaded-CreatesFrom k name (vfs_err_not_found, s) h = absurd (ground arith)
on_loaded-CreatesFrom k name (vfs_err_disk_full, s) h = absurd (ground arith)

-- The entry's state before the creation is of no matter, nor is the disk.
IsCreated-set_state :
    (k : ℕ) (meta : FileMeta) (m m1 m' : Machine)
    → m1 ≡ with_disk m1.disk (set_state k new m)
    → IsCreated k meta m1 m'
    → IsCreated k meta m m'
IsCreated-set_state k meta m m1 m' e c = record {
  start = c.start;
  count = c.count;
  free = c.free;
  required = c.required;
  allocated =
      ap (λ (x : Machine). allocate_memory (pos c.count) x.free_partitions) (sym e) ∙ c.allocated;
  least = c.least;
  most = c.most;
  result =
      c.result
      ∙ ap
          (λ (x : Machine).
            (update x.table k (created_entry c.start c.count x.next_pid meta), c.free, x.current))
          e
      ∙ ap (λ t. (t, c.free, m.current)) (update-update m.table k _ _);
}

-- When `createProcess` succeeds, it has created the program of that name in an entry that was FINISHED.
pub create_process-CreatesFrom :
    (host : Host) (name : Text) (s : System)
    → (create_process host name s).0 ≡ os_success
    → (k : ℕ) × (k < max_processes)
      × (is_finished (s.machine.table k).state ≡ true)
      × CreatesFrom k name s.machine (create_process host name s).1
create_process-CreatesFrom host name s h =
    elim (Option-cases (get_free_pcb_index s.machine.table)) [
      | inl e ↦
          absurd
            (let q = ap (λ (r : OsStatus × System). r.0) (create_process-none host name s e) in cc)
      | inr (k, e) ↦
          let (lt, fin) = get_free_pcb_index-finished s.machine.table e in
          let same = create_process-some host name s k e in
          let begun = ensure_loaded host name (reserved host name s k) in
          let (meta, found, c) =
            on_loaded-CreatesFrom k name begun
              (sym (ap (λ (r : OsStatus × System). r.0) same) ∙ h) in
          (
            k,
            lt,
            fin,
            subst (λ (r : OsStatus × System). CreatesFrom k name s.machine r.1) (sym same)
                (
                  meta,
                  found,
                  IsCreated-set_state k meta s.machine begun.1.machine _
                      (ensure_loaded_machine host name (reserved host name s k)) c,
                ),
          )
    ]
