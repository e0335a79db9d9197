-- ===== src/Kernel/Reserved.antt =====
-- What holds between two steps of a creation (src/kernel/core.c, `createProcess`): the process table
-- has a NEW entry that owns no blocks, or owns those that are being filled.
use project_lucario.Base.{
  ℕ, ◌+◌, ◌≡◌, refl, sym, ap, ◌∙◌, subst, arith, true, false, ◌&&◌, ◌==◌, some, update, update_self,
  update-update, update_id, ltb, leb, if◌then◌else◌, Bool-cases, inl, inr,
}
use project_lucario.Base.Int.{pos, pos_part, add32}
use project_lucario.Machine.{Machine, Pcb, ProcessTable, new, ready, finished}
use project_lucario.Mmu.{Partitions, allocate_memory, calculate_required_blocks}
use project_lucario.Mmu.FirstFit.{AllFree-at, allocate_memory_sound}
use project_lucario.Vfs.{FileMeta}
use project_lucario.Core.{get_free_pcb_index, set_state}
use project_lucario.Core.Failure.{get_free_pcb_index-finished, is_finished-eq}
use project_lucario.Core.Phases.{
  Phase, searching, reserving, stored, described, copying, copied, filled, returned, blocks_of,
  filled_entry,
}
use project_lucario.Kernel.Owners.{
  is_live, IsPartitioned, IsPartitioned-same, IsSound, RunsLive, SameHolding, SameHolding-refl,
}
use project_lucario.Kernel.Transfers.{IsPartitioned-acquire}
use project_lucario.Kernel.Creation.{created_entry, allocate_memory_count}
use project_lucario.Kernel.Admission.{IsSound-tables}
use project_lucario.Kernel.Held.{Held, with_entry, RunsLive-update, RunsLive-back}

-- An entry that has been reserved: NEW, and else as it was when it was FINISHED.
pub record IsReserved (k : ℕ) (m : Machine) : Type 0 where
  pub old : Pcb
  pub dead : old.state ≡ finished
  pub held : Held k (record old { state = new }) old m

-- The entry that owns the blocks while the words are copied.
abbrev pub owner : FileMeta → ℕ → Pcb
owner meta start = created_entry start (blocks_of meta) (pos 0) meta

pub record IsFilled (k : ℕ) (m : Machine) : Type 0 where
  pub entry : Pcb
  pub owning : Pcb
  pub same : SameHolding (record entry { state = ready }) owning
  pub held : Held k entry owning m

-- What holds in each phase.
abbrev pub Invariant : Phase → Machine → Type 0
Invariant searching m = IsSound m
Invariant (reserving k) m = IsReserved k m
Invariant (stored k) m = IsReserved k m
Invariant (described k meta) m = IsReserved k m
Invariant (copying k meta start rounds target p) m = (e : Pcb) × Held k e (owner meta start) m
Invariant (copied k meta start) m = (e : Pcb) × Held k e (owner meta start) m
Invariant (filled k) m = IsFilled k m
Invariant (returned status) m = IsSound m

pub reserved :
    (k : ℕ) (m : Machine)
    → get_free_pcb_index m.table ≡ some k
    → IsSound m
    → IsReserved k (set_state k new m)
reserved k m found v =
    let (h, fin) = get_free_pcb_index-finished m.table found in
    record {
      old = m.table k;
      dead = is_finished-eq (m.table k).state fin;
      held = record {
        in_table = h;
        entry = update_self m.table k _;
        unfinished = refl;
        away = λ e.
            let running = subst (RunsLive m.table) e v.running in
            let alive : is_live (m.table k) ≡ true = running.1 in ground arith;
        sound =
            subst (λ (t : ProcessTable). IsSound (record m { table = t }))
              (sym (update-update m.table k _ (m.table k) ∙ update_id m.table k refl)) v;
      };
    }

-- The creation gives up: the entry is again what it was.
pub given_up : (k : ℕ) (m : Machine) → IsReserved k m → IsSound (set_state k finished m)
given_up k m r =
    subst (λ (p : Pcb). IsSound (record m { table = update m.table k p }))
      (sym (
        ap (λ (p : Pcb). record p { state = finished }) r.held.entry
        ∙ ap (λ s. record r.old { state = s }) (sym r.dead)))
      r.held.sound

-- The blocks that `allocateMemory` gives to a reserved entry.
module _ (k : ℕ) (meta : FileMeta) (m : Machine) {start : ℕ} {free : Partitions}
    (given : allocate_memory (calculate_required_blocks meta.word_count) m.free_partitions
      ≡ (some start, free))
    (r : IsReserved k m) where
  abbrev beside : ProcessTable
  beside = update m.table k r.old

  IsPartitioned-allocated : IsPartitioned (update m.table k (owner meta start)) free
  IsPartitioned-allocated =
      let (n, count, least, most) =
        allocate_memory_count (calculate_required_blocks meta.word_count) m.free_partitions given in
      let (all, inside, others) =
        allocate_memory_sound n m.free_partitions least most
          (subst (λ z. allocate_memory z m.free_partitions ≡ (some start, free)) count given) in
      let same : blocks_of meta ≡ n = ap pos_part count in
      subst (λ (t : ProcessTable). IsPartitioned t free)
        (update-update m.table k r.old (owner meta start))
        (IsPartitioned-acquire beside m.free_partitions free k (owner meta start) r.held.in_table
          (ap is_live (update_self m.table k r.old) ∙ ground (arith, r.dead)) refl
          (record {
            start = refl;
            count = refl;
            some_block = omega (arith, same, least);
            inside = omega (arith, same, inside);
          })
          (λ b t. AllFree-at n start b m.free_partitions all (ground arith) (ground arith))
          (λ b.
            others b
            ∙ ap
                (λ (c : ℕ). if leb start b && ltb b (start + c) then false else m.free_partitions b)
                (sym same))
          r.held.sound.partitioned)

  pub allocated :
      Held k (record r.old { state = new }) (owner meta start) (record m { free_partitions = free })
  allocated = record {
    in_table = r.held.in_table;
    entry = r.held.entry;
    unfinished = refl;
    away = r.held.away;
    sound = record {
      partitioned = IsPartitioned-allocated;
      running =
          RunsLive-update m.table k (owner meta start) m.current r.held.away
            (RunsLive-back m.table k r.old m.current r.held.away r.held.sound.running);
    };
  }

-- The entry is filled, and then made READY.
pub IsFilled-copied :
    (k start : ℕ) (meta : FileMeta) (m : Machine) (e : Pcb)
    → Held k e (owner meta start) m
    → IsFilled k (record m {
      next_pid = add32 m.next_pid (pos 1);
      table = update m.table k (filled_entry start meta m.next_pid (m.table k));
    })
IsFilled-copied k start meta m e v =
    let entry = filled_entry start meta m.next_pid (m.table k) in
    record {
      entry = entry;
      owning = owner meta start;
      same = record { live = refl; start = refl; count = refl };
      held = record {
        in_table = v.in_table;
        entry = update_self m.table k entry;
        unfinished = ap (λ (p : Pcb). p.state) v.entry ∙ v.unfinished;
        away = v.away;
        sound =
            IsSound-tables (with_entry k (owner meta start) m) _
              (ap (λ (t : ProcessTable). (t, m.free_partitions, m.current))
                (update-update m.table k entry (owner meta start)))
              v.sound;
      };
    }

pub published : (k : ℕ) (m : Machine) → IsFilled k m → IsSound (set_state k ready m)
published k m r = record {
  partitioned =
      IsPartitioned-same (update m.table k r.owning)
        (update m.table k (record (m.table k) { state = ready })) m.free_partitions
        (λ j h. elim (Bool-cases (j == k)) [
          | inl e ↦ rw e (
              subst (λ (p : Pcb). SameHolding (record p { state = ready }) r.owning)
                (sym r.held.entry) r.same)
          | inr ne ↦ rw ne (SameHolding-refl (m.table j))
        ])
        r.held.sound.partitioned;
  running =
      RunsLive-update m.table k _ m.current r.held.away
        (RunsLive-back m.table k r.owning m.current r.held.away r.held.sound.running);
}
