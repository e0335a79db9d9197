-- ===== src/Kernel/Admission.antt =====
-- A creation keeps the blocks with their processes (src/kernel/core.c, `createProcess`).
use project_lucario.Base.{
  ℕ, ◌+◌, ◌≤◌, ◌<◌, ◌≡◌, ◌≢◌, refl, sym, ap, ◌∙◌, subst, arith, false, Option, none, some, update,
  leb, ltb, ◌&&◌, if◌then◌else◌, Bool-cases, inl, inr, ◌==◌,
}
use project_lucario.Machine.{Machine, Pcb, ProcessTable, OsStatus, os_success, max_processes, Text}
use project_lucario.Mmu.{Partitions, mmu_init}
use project_lucario.Mmu.FirstFit.{AllFree, AllFree-at, allocate_memory_sound}
use project_lucario.Scheduler.{each_process}
use project_lucario.Scheduler.Table.{each_process_lem}
use project_lucario.Vfs.{Host, FileMeta}
use project_lucario.Core.{System, create_process, init_os, flush}
use project_lucario.Core.Failure.{create_process_fails}
use project_lucario.Kernel.Frame.{tables}
use project_lucario.Kernel.Owners.{is_live, IsPartitioned, IsSound, RunsLive}
use project_lucario.Kernel.Transfers.{IsPartitioned-acquire}
use project_lucario.Kernel.Creation.{IsCreated, created_entry, create_process-CreatesFrom}

-- The invariant speaks of the tables alone.
abbrev TablesSound : ProcessTable × Partitions × Option ℕ → Type 0
TablesSound (table, free, current) = IsPartitioned table free × RunsLive table current

pub IsSound-tables : (m m' : Machine) → tables m' ≡ tables m → IsSound m → IsSound m'
IsSound-tables m m' e v =
    let both = subst TablesSound (sym e) (v.partitioned, v.running) in
    record { partitioned = both.0; running = both.1 }

module _ (k : ℕ) (meta : FileMeta) (m m' : Machine) (h : k < max_processes)
    (dead : is_live (m.table k) ≡ false) (c : IsCreated k meta m m') (v : IsSound m) where
  abbrev created : Pcb
  created = created_entry c.start c.count m.next_pid meta

  found :
      AllFree c.count c.start m.free_partitions
      × (c.start + c.count ≤ max_processes)
      × ((b : ℕ)
          → c.free b
            ≡ (if leb c.start b && ltb b (c.start + c.count) then false else m.free_partitions b))
  found = allocate_memory_sound c.count m.free_partitions c.least c.most c.allocated

  IsPartitioned-created : IsPartitioned (update m.table k created) c.free
  IsPartitioned-created =
      IsPartitioned-acquire m.table m.free_partitions c.free k created h dead refl
        (record { start = refl; count = refl; some_block = c.least; inside = found.1 })
        (λ b t.
          AllFree-at c.count c.start b m.free_partitions found.0 (ground arith) (ground arith))
        found.2 v.partitioned

  running-created : (r : Option ℕ) → RunsLive m.table r → RunsLive (update m.table k created) r
  running-created none r = tt
  running-created (some j) r =
      (r.0, elim (Bool-cases (j == k)) [ inl e ↦ rw e refl | inr ne ↦ rw ne r.1 ])

  IsSound-created : IsSound m'
  IsSound-created =
      let both =
        subst TablesSound (sym c.result)
          (IsPartitioned-created, running-created m.current v.running) in
      record { partitioned = both.0; running = both.1 }

-- Whatever `createProcess` returns, the invariant holds after it.
pub create_process-IsSound :
    (host : Host) (name : Text) (s : System)
    → IsSound s.machine
    → IsSound (create_process host name s).1.machine
create_process-IsSound host name s v = by_status (create_process host name s).0 refl
  where
    failed :
        (create_process host name s).0 ≢ os_success → IsSound (create_process host name s).1.machine
    failed ne = IsSound-tables s.machine _ (ap tables (create_process_fails host name s ne)) v

    by_status :
        (r : OsStatus)
        → (create_process host name s).0 ≡ r
        → IsSound (create_process host name s).1.machine
    by_status os_success e =
        let (k, h, fin, (meta, stored, c)) = create_process-CreatesFrom host name s e in
        IsSound-created k meta s.machine _ h (ground arith) c v
    by_status _ e = failed (λ q. let both = sym e ∙ q in ground arith)

-- A partition table with all blocks free and a process table with all entries FINISHED.
pub init_os-IsSound : (m : Machine) → IsSound (init_os m)
unfolding init_os mmu_init
init_os-IsSound m = record {
  partitioned = record {
    runs = λ j h l. absurd (let q = flushed j h in cc);
    occupied = λ j b h l t. absurd (let q = flushed j h in cc);
    disjoint = λ i j b hi hj li lj ti tj. absurd (let q = flushed i hi in cc);
    no_leak = λ b h f. absurd (ground arith);
  };
  running = tt;
}
  where
    flushed :
        (j : ℕ) → j < max_processes → is_live (each_process flush max_processes 0 m.table j) ≡ false
    flushed j h = rw (each_process_lem flush max_processes 0 m.table j) (ground arith)
