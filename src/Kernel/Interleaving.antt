-- ===== src/Kernel/Interleaving.antt =====
-- A creation (src/kernel/core.c, `createProcess`) while the kernel's thread and the DMA controller
-- work between its steps.
use project_lucario.Base.{ℕ, zero, suc, ◌≡◌, ap, Option-cases, inl, inr}
use project_lucario.Machine.{Machine, Outside, Text, new, OsStatus}
use project_lucario.Disk.{read_sector}
use project_lucario.Dma.{dma_round}
use project_lucario.Mmu.{allocate_memory, calculate_required_blocks}
use project_lucario.Step.{worker_round}
use project_lucario.Vfs.{
  Host, VfsStatus, vfs_success, vfs_err_not_found, vfs_err_disk_full, vfs_get_metadata,
}
use project_lucario.Core.{System, get_free_pcb_index, ensure_loaded}
use project_lucario.Core.Failure.{ensure_loaded_machine}
use project_lucario.Core.Phases.{
  Phase, searching, reserving, stored, described, copying, copied, filled, returned, after_loading,
  advance,
}
use project_lucario.Kernel.Frame.{tables, tables-dma_round}
use project_lucario.Kernel.Owners.{IsSound}
use project_lucario.Kernel.Creation.{kept-dma_write_memory}
use project_lucario.Kernel.Admission.{IsSound-tables}
use project_lucario.Kernel.Rounds.{worker_round-IsSound}
use project_lucario.Kernel.Reserved.{
  IsReserved, owner, Invariant, reserved, given_up, allocated, IsFilled-copied, published,
}
use project_lucario.Kernel.Held.{Held-worker_round, Held-tables}

IsReserved-tables : (k : ℕ) (m x : Machine) → tables x ≡ tables m → IsReserved k m → IsReserved k x
IsReserved-tables k m x e r = record {
  old = r.old;
  dead = r.dead;
  held = Held-tables k (record r.old { state = new }) r.old m x e r.held;
}

IsReserved-worker_round :
    (o : Outside) (k : ℕ) (m : Machine) → IsReserved k m → IsReserved k (worker_round o m)
IsReserved-worker_round o k m v = record {
  old = v.old;
  dead = v.dead;
  held = Held-worker_round k (record v.old { state = new }) v.old o m v.held;
}

module _ (host : Host) (name : Text) where
  after_loading-Invariant :
      (k : ℕ) (r : VfsStatus × System)
      → IsReserved k r.1.machine
      → Invariant (after_loading k r).0 (after_loading k r).1.machine
  after_loading-Invariant k (vfs_success, s) v = v
  after_loading-Invariant k (vfs_err_not_found, s) v = given_up k s.machine v
  after_loading-Invariant k (vfs_err_disk_full, s) v = given_up k s.machine v

  -- A step of the creation.
  advance-Invariant :
      (c : Phase) (s : System)
      → Invariant c s.machine
      → Invariant (advance host name c s).0 (advance host name c s).1.machine
  unfolding advance
  advance-Invariant searching s v = elim (Option-cases (get_free_pcb_index s.machine.table)) [
    | inl e ↦ rw (e, advance) v
    | inr (k, e) ↦ rw (e, advance) (reserved k s.machine e v)
  ]
  advance-Invariant (reserving k) s v =
      after_loading-Invariant k (ensure_loaded host name s)
        (IsReserved-tables k s.machine _ (ap tables (ensure_loaded_machine host name s)) v)
  advance-Invariant (stored k) s v = elim (Option-cases (vfs_get_metadata name s.vfs)) [
    | inl e ↦ rw (e, advance) (given_up k s.machine v)
    | inr (meta, e) ↦ rw (e, advance) v
  ]
  advance-Invariant (described k meta) s v =
      let required = calculate_required_blocks meta.word_count in
      elim (Option-cases (allocate_memory required s.machine.free_partitions).0) [
        | inl e ↦ rw (e, advance) (given_up k s.machine v)
        | inr (start, e) ↦
            rw (e, advance)
              (
                record v.old { state = new },
                allocated k meta s.machine
                    (ap (λ r. (r, (allocate_memory required s.machine.free_partitions).1)) e) v,
              )
      ]
  advance-Invariant (copying k meta start zero target p) s v = v
  advance-Invariant (copying k meta start (suc rounds) target p) s (e, v) =
      let word = (read_sector p.track p.cylinder p.sector s.machine.disk).1 in
      (
        e,
        Held-tables k e (owner meta start) s.machine _
            (kept-dma_write_memory target word s.machine).0 v,
      )
  advance-Invariant (copied k meta start) s (e, v) = IsFilled-copied k start meta s.machine e v
  advance-Invariant (filled k) s v = published k s.machine v
  advance-Invariant (returned status) s v = v

-- A round of the kernel's thread.
worker_round-Invariant :
    (o : Outside) (c : Phase) (m : Machine) → Invariant c m → Invariant c (worker_round o m)
worker_round-Invariant o searching m v = worker_round-IsSound o m v
worker_round-Invariant o (reserving k) m v = IsReserved-worker_round o k m v
worker_round-Invariant o (stored k) m v = IsReserved-worker_round o k m v
worker_round-Invariant o (described k meta) m v = IsReserved-worker_round o k m v
worker_round-Invariant o (copying k meta start rounds target p) m (e, v) =
    (e, Held-worker_round k e (owner meta start) o m v)
worker_round-Invariant o (copied k meta start) m (e, v) =
    (e, Held-worker_round k e (owner meta start) o m v)
worker_round-Invariant o (filled k) m v = record {
  entry = v.entry;
  owning = v.owning;
  same = v.same;
  held = Held-worker_round k v.entry v.owning o m v.held;
}
worker_round-Invariant o (returned status) m v = worker_round-IsSound o m v

-- What leaves the tables alone.
Invariant-tables : (c : Phase) (m x : Machine) → tables x ≡ tables m → Invariant c m → Invariant c x
Invariant-tables searching m x same v = IsSound-tables m x same v
Invariant-tables (reserving k) m x same v = IsReserved-tables k m x same v
Invariant-tables (stored k) m x same v = IsReserved-tables k m x same v
Invariant-tables (described k meta) m x same v = IsReserved-tables k m x same v
Invariant-tables (copying k meta start rounds target p) m x same (e, v) =
    (e, Held-tables k e (owner meta start) m x same v)
Invariant-tables (copied k meta start) m x same (e, v) =
    (e, Held-tables k e (owner meta start) m x same v)
Invariant-tables (filled k) m x same v = record {
  entry = v.entry;
  owning = v.owning;
  same = v.same;
  held = Held-tables k v.entry v.owning m x same v.held;
}
Invariant-tables (returned status) m x same v = IsSound-tables m x same v

-- The threads take turns: the creation goes on, the kernel's thread makes a round, or the DMA
-- controller makes one.
pub data Turn (host : Host) (name : Text) : Phase × System → Phase × System → Type 0 where
  creation : (c : Phase × System) → Turn host name c (advance host name c.0 c.1)
  work :
      (o : Outside) (c : Phase × System)
      → Turn host name c (c.0, record c.1 { machine = worker_round o c.1.machine })
  transfer :
      (c : Phase × System) → Turn host name c (c.0, record c.1 { machine = dma_round c.1.machine })

-- What any number of turns leads to from the call of `createProcess` in a system.
pub data Reaches (host : Host) (name : Text) (s : System) : Phase × System → Type 0 where
  called : Reaches host name s (searching, s)
  turn : {c d : Phase × System} → Reaches host name s c → Turn host name c d → Reaches host name s d

module _ {host : Host} {name : Text} where
  Turn-Invariant :
      {c d : Phase × System}
      → Turn host name c d
      → Invariant c.0 c.1.machine
      → Invariant d.0 d.1.machine
  Turn-Invariant (creation c) v = advance-Invariant host name c.0 c.1 v
  Turn-Invariant (work o c) v = worker_round-Invariant o c.0 c.1.machine v
  Turn-Invariant (transfer c) v =
      Invariant-tables c.0 c.1.machine _ (tables-dma_round c.1.machine) v

  Reaches-Invariant :
      {s : System} {c : Phase × System}
      → Reaches host name s c
      → IsSound s.machine
      → Invariant c.0 c.1.machine
  Reaches-Invariant called v = v
  Reaches-Invariant (turn r t) v = Turn-Invariant t (Reaches-Invariant r v)

-- A creation that starts where each live process holds its own run of occupied blocks, every occupied
-- block belongs to a live process, and the process that runs is alive, returns to a system of which
-- the same holds, whatever its status, and however the rounds of the kernel's thread and of the DMA
-- controller come between its steps.
pub Reaches-IsSound :
    (host : Host) (name : Text) (s t : System) (status : OsStatus)
    → IsSound s.machine
    → Reaches host name s (returned status, t)
    → IsSound t.machine
Reaches-IsSound host name s t status v r = Reaches-Invariant r v
