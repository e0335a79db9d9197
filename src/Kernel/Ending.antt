-- ===== src/Kernel/Ending.antt =====
-- A creation (src/kernel/core.c, `createProcess`) comes to its end, whatever the kernel's thread and
-- the DMA controller do between its steps.
use project_lucario.Base.{
  ℕ, zero, suc, ◌+◌, ◌-◌, ◌^◌, ◌≤◌, ◌<◌, ◌≡◌, refl, ap, arith, Option-cases, inl, inr,
}
use project_lucario.Base.Int.{pos, pos_part, add32, int32, ◌+ℤ◌}
use project_lucario.Machine.{Machine, Text, OsStatus}
use project_lucario.Mmu.{allocate_memory, calculate_required_blocks}
use project_lucario.Vfs.{
  Host, FileMeta, VfsStatus, vfs_success, vfs_err_not_found, vfs_err_disk_full, vfs_get_metadata,
}
use project_lucario.Dma.{dma_round}
use project_lucario.Step.{worker_round}
use project_lucario.Core.{System, get_free_pcb_index, ensure_loaded}
use project_lucario.Core.Phases.{
  Phase, searching, reserving, stored, described, copying, copied, filled, returned, after_loading,
  advance,
}
use project_lucario.Kernel.Creation.{allocate_memory_count}
use project_lucario.Kernel.Interleaving.{creation, work, transfer, Reaches, called, turn}
use project_lucario.Kernel.Counts.{AreInts, AreInts-metadata, AreInts-ensure_loaded}

-- How many steps of its own a creation still makes at most.
abbrev left : Phase → ℕ
left searching = 1657
left (reserving k) = 1656
left (stored k) = 1655
left (described k meta) = 1654
left (copying k meta start rounds target p) = rounds + 3
left (copied k meta start) = 2
left (filled k) = 1
left (returned status) = 0

-- The blocks of a process hold at most 1650 words besides the smallest stack.
few_words :
    (meta : FileMeta) (n : ℕ)
    → pos_part meta.word_count < 2 ^ 31
    → calculate_required_blocks meta.word_count ≡ pos n
    → 1 ≤ n
    → pos_part meta.word_count ≤ 1650
unfolding calculate_required_blocks add32 int32 ◌+ℤ◌
few_words meta n h e least = ground arith

-- What holds of a creation between its steps.
abbrev pub CanEnd : Phase → System → Type 0
CanEnd (described k meta) s = (pos_part meta.word_count < 2 ^ 31) × AreInts s.vfs.catalog
CanEnd _ s = AreInts s.vfs.catalog

CanEnd-catalog : (c : Phase) (s : System) → CanEnd c s → AreInts s.vfs.catalog
CanEnd-catalog searching s v = v
CanEnd-catalog (reserving k) s v = v
CanEnd-catalog (stored k) s v = v
CanEnd-catalog (described k meta) s v = v.1
CanEnd-catalog (copying k meta start rounds target p) s v = v
CanEnd-catalog (copied k meta start) s v = v
CanEnd-catalog (filled k) s v = v
CanEnd-catalog (returned status) s v = v

-- The other threads leave the file system alone.
CanEnd-machine :
    (c : Phase) (s : System) (m : Machine) → CanEnd c s → CanEnd c (record s { machine = m })
CanEnd-machine searching s m v = v
CanEnd-machine (reserving k) s m v = v
CanEnd-machine (stored k) s m v = v
CanEnd-machine (described k meta) s m v = v
CanEnd-machine (copying k meta start rounds target p) s m v = v
CanEnd-machine (copied k meta start) s m v = v
CanEnd-machine (filled k) s m v = v
CanEnd-machine (returned status) s m v = v

-- At most so many steps are left.
abbrev Steps : ℕ → Phase × System → Type 0
Steps n (c, s) = (left c ≤ n) × CanEnd c s

module _ (host : Host) (name : Text) where
  Steps-after_loading :
      (k : ℕ) (r : VfsStatus × System) → AreInts r.1.vfs.catalog → Steps 1655 (after_loading k r)
  Steps-after_loading k (vfs_success, s) v = (omega arith, v)
  Steps-after_loading k (vfs_err_not_found, s) v = (omega arith, v)
  Steps-after_loading k (vfs_err_disk_full, s) v = (omega arith, v)

  Steps-advance : (c : Phase) (s : System) → CanEnd c s → Steps (left c - 1) (advance host name c s)
  unfolding advance
  Steps-advance searching s v = elim (Option-cases (get_free_pcb_index s.machine.table)) [
    | inl e ↦ rw (e, advance) (omega arith, v)
    | inr (k, e) ↦ rw (e, advance) (omega arith, v)
  ]
  Steps-advance (reserving k) s v =
      Steps-after_loading k (ensure_loaded host name s) (AreInts-ensure_loaded host name s v)
  Steps-advance (stored k) s v = elim (Option-cases (vfs_get_metadata name s.vfs)) [
    | inl e ↦ rw (e, advance) (omega arith, v)
    | inr (meta, e) ↦ rw (e, advance) (omega arith, (AreInts-metadata name s.vfs v e, v))
  ]
  Steps-advance (described k meta) s v =
      let required = calculate_required_blocks meta.word_count in
      elim (Option-cases (allocate_memory required s.machine.free_partitions).0) [
        | inl e ↦ rw (e, advance) (omega arith, v.1)
        | inr (start, e) ↦
            let (n, same, least, most) =
              allocate_memory_count required s.machine.free_partitions
                (ap (λ r. (r, (allocate_memory required s.machine.free_partitions).1)) e) in
            rw (e, advance) (omega (arith, few_words meta n v.0 same least), v.1)
      ]
  Steps-advance (copying k meta start zero target p) s v = (omega arith, v)
  Steps-advance (copying k meta start (suc rounds) target p) s v = (omega arith, v)
  Steps-advance (copied k meta start) s v = (omega arith, v)
  Steps-advance (filled k) s v = (omega arith, v)
  Steps-advance (returned status) s v = (omega arith, v)

-- How many of the turns are the creation's own.
abbrev pub own_steps :
    {host : Host} {name : Text} {s : System} {c : Phase × System} → Reaches host name s c → ℕ
own_steps called = 0
own_steps (turn r (creation c)) = suc (own_steps r)
own_steps (turn r (work o c)) = own_steps r
own_steps (turn r (transfer c)) = own_steps r

module _ {host : Host} {name : Text} {s : System} (v : AreInts s.vfs.catalog) where
  Steps-Reaches : {c : Phase × System} (r : Reaches host name s c) → Steps (1657 - own_steps r) c
  Steps-Reaches called = (omega arith, v)
  Steps-Reaches (turn r (creation c)) =
      let before = Steps-Reaches r in
      let after = Steps-advance host name c.0 c.1 before.1 in
      (omega (arith, before.0, after.0), after.1)
  Steps-Reaches (turn r (work o c)) =
      let before = Steps-Reaches r in
      (before.0, CanEnd-machine c.0 c.1 (worker_round o c.1.machine) before.1)
  Steps-Reaches (turn r (transfer c)) =
      let before = Steps-Reaches r in
      (before.0, CanEnd-machine c.0 c.1 (dma_round c.1.machine) before.1)

is_returned : (c : Phase) → left c ≡ 0 → (status : OsStatus) × (c ≡ returned status)
is_returned searching e = absurd (omega arith)
is_returned (reserving k) e = absurd (omega arith)
is_returned (stored k) e = absurd (omega arith)
is_returned (described k meta) e = absurd (omega arith)
is_returned (copying k meta start rounds target p) e = absurd (omega arith)
is_returned (copied k meta start) e = absurd (omega arith)
is_returned (filled k) e = absurd (omega arith)
is_returned (returned status) e = (status, refl)

-- Where the word counts of the catalogue are `int` values, a creation has returned a status after 1657
-- steps of its own (1650 words are the most that the blocks hold), however many rounds of the
-- kernel's thread and of the DMA controller come between them.
pub Reaches-returns :
    (host : Host) (name : Text) (s : System) (c : Phase × System)
    → AreInts s.vfs.catalog
    → (r : Reaches host name s c) → 1657 ≤ own_steps r
    → (status : OsStatus) × (c.0 ≡ returned status)
Reaches-returns host name s c v r h = is_returned c.0 (omega (arith, (Steps-Reaches v r).0))
