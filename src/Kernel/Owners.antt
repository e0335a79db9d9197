-- ===== src/Kernel/Owners.antt =====
-- Which process holds which blocks (src/kernel/core.c, src/kernel/mmu.c): the invariant of the process
-- table and the partition table, and the steps that leave every process its blocks.
use project_lucario.Base.{
  ℕ, ◌+◌, ◌≤◌, ◌<◌, ◌≡◌, refl, sym, ◌∙◌, Bool, true, false, ◌&&◌, Option, none, some, leb, ltb,
}
use project_lucario.Base.Int.{pos, pos_part}
use project_lucario.Machine.{Machine, Pcb, ProcessTable, max_processes, is_finished}
use project_lucario.Mmu.{Partitions, get_base_register, get_limit_register}

abbrev pub is_live : Pcb → Bool
is_live p = elim (is_finished p.state) [ true ↦ false | false ↦ true ]

-- Block `b` is one of the process's blocks.
abbrev pub holds : Pcb → ℕ → Bool
holds p b =
    leb (pos_part p.start_block) b && ltb b (pos_part p.start_block + pos_part p.block_count)

-- The first and the last cell of the process's partition.
abbrev pub first_cell : Pcb → ℕ
first_cell p = get_base_register (pos_part p.start_block)

abbrev pub last_cell : Pcb → ℕ
last_cell p = get_limit_register (first_cell p) (pos_part p.block_count)

-- The blocks of an entry are a run of the partition table.
pub record HasRun (p : Pcb) : Type 0 where
  pub start : p.start_block ≡ pos (pos_part p.start_block)
  pub count : p.block_count ≡ pos (pos_part p.block_count)
  pub some_block : 1 ≤ pos_part p.block_count
  pub inside : pos_part p.start_block + pos_part p.block_count ≤ max_processes

-- Each live process holds a run of occupied blocks, no two hold the same block, and every occupied
-- block is held by a live process.
pub record IsPartitioned (table : ProcessTable) (free : Partitions) : Type 0 where
  pub runs : (j : ℕ) → j < max_processes → is_live (table j) ≡ true → HasRun (table j)
  pub occupied :
      (j b : ℕ)
      → j < max_processes
      → is_live (table j) ≡ true
      → holds (table j) b ≡ true
      → free b ≡ false
  pub disjoint :
      (i j b : ℕ)
      → i < max_processes
      → j < max_processes
      → is_live (table i) ≡ true
      → is_live (table j) ≡ true
      → holds (table i) b ≡ true
      → holds (table j) b ≡ true
      → i ≡ j
  pub no_leak :
      (b : ℕ)
      → b < max_processes
      → free b ≡ false
      → (j : ℕ) × (j < max_processes) × (is_live (table j) ≡ true) × (holds (table j) b ≡ true)

-- The process that runs is one of the table, and live.
abbrev pub RunsLive : ProcessTable → Option ℕ → Type 0
RunsLive table none = Unit
RunsLive table (some k) = (k < max_processes) × (is_live (table k) ≡ true)

-- The invariant of the kernel between two steps.
pub record IsSound (m : Machine) : Type 0 where
  pub partitioned : IsPartitioned m.table m.free_partitions
  pub running : RunsLive m.table m.current

-- Two entries of the same life and the same blocks.
pub record SameHolding (p q : Pcb) : Type 0 where
  pub live : is_live p ≡ is_live q
  pub start : p.start_block ≡ q.start_block
  pub count : p.block_count ≡ q.block_count

pub SameHolding-refl : (p : Pcb) → SameHolding p p
SameHolding-refl p = record { live = refl; start = refl; count = refl }

pub SameHolding-trans : {p q r : Pcb} → SameHolding p q → SameHolding q r → SameHolding p r
SameHolding-trans a b = record {
  live = a.live ∙ b.live;
  start = a.start ∙ b.start;
  count = a.count ∙ b.count;
}

SameHolding-holds : (p q : Pcb) (b : ℕ) → SameHolding p q → holds p b ≡ holds q b
SameHolding-holds p q b s = rw (s.start, s.count) refl

-- A table whose entries hold the same blocks is partitioned in the same way.
module _ (table table' : ProcessTable) (free : Partitions)
    (same : (j : ℕ) → j < max_processes → SameHolding (table' j) (table j)) where
  held : (j b : ℕ) → j < max_processes → holds (table' j) b ≡ true → holds (table j) b ≡ true
  held j b h e = sym (SameHolding-holds (table' j) (table j) b (same j h)) ∙ e

  alive : (j : ℕ) → j < max_processes → is_live (table' j) ≡ true → is_live (table j) ≡ true
  alive j h e = sym (same j h).live ∙ e

  pub IsPartitioned-same : IsPartitioned table free → IsPartitioned table' free
  IsPartitioned-same v = record {
    runs = λ j h l.
        let r = v.runs j h (alive j h l) in
        record {
          start = rw (same j h).start r.start;
          count = rw (same j h).count r.count;
          some_block = rw (same j h).count r.some_block;
          inside = rw ((same j h).start, (same j h).count) r.inside;
        };
    occupied = λ j b h l e. v.occupied j b h (alive j h l) (held j b h e);
    disjoint = λ i j b hi hj li lj ei ej.
        v.disjoint i j b hi hj (alive i hi li) (alive j hj lj) (held i b hi ei) (held j b hj ej);
    no_leak = λ b h f.
        let (j, hj, l, e) = v.no_leak b h f in
        (j, hj, (same j hj).live ∙ l, SameHolding-holds (table' j) (table j) b (same j hj) ∙ e);
  }
