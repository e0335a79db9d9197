-- ===== src/Kernel/Transfers.antt =====
-- Blocks change hands only when a process is created or ends (src/kernel/core.c, src/kernel/mmu.c).
use project_lucario.Base.{
  ℕ, ◌<◌, ◌≡◌, refl, sym, ap, ◌∙◌, subst, arith, true, false, ◌==◌, ==_iff, update, Bool-cases, inl,
  inr, ◌⊎◌, if◌then◌else◌,
}
use project_lucario.Machine.{Pcb, ProcessTable, max_processes}
use project_lucario.Mmu.{Partitions}
use project_lucario.Kernel.Owners.{is_live, holds, HasRun, IsPartitioned}

-- The other entries of a table in which one is changed.
other_entry :
    (table : ProcessTable) (k j : ℕ) (p : Pcb) → (j == k) ≡ false → update table k p j ≡ table j
other_entry table k j p e = rw e refl

changed_entry :
    (table : ProcessTable) (k j : ℕ) (p : Pcb) → (j == k) ≡ true → update table k p j ≡ p
changed_entry table k j p e = rw e refl

self_entry : (table : ProcessTable) (k : ℕ) (p : Pcb) → update table k p k ≡ p
self_entry table k p = ground arith

-- An entry that gives up its blocks.
module _ (table : ProcessTable) (free free' : Partitions) (k : ℕ) (p : Pcb) (kh : k < max_processes)
    (kl : is_live (table k) ≡ true) (dead : is_live p ≡ false)
    (given : (b : ℕ) → free' b ≡ (if holds (table k) b then true else free b))
    (v : IsPartitioned table free) where
  still_other : (j : ℕ) → is_live (update table k p j) ≡ true → (j == k) ≡ false
  still_other j l = elim (Bool-cases (j == k)) [
    | inl e ↦ absurd (let q = sym (ap is_live (changed_entry table k j p e)) ∙ l in cc)
    | inr e ↦ e
  ]

  still_held :
      (j b : ℕ)
      → j < max_processes
      → is_live (table j) ≡ true
      → (j == k) ≡ false
      → holds (table j) b ≡ true
      → holds (table k) b ≡ false
  still_held j b h l e t = elim (Bool-cases (holds (table k) b)) [
    | inl both ↦ let same = v.disjoint j k b h kh l kl t both in absurd (ground arith)
    | inr none ↦ none
  ]

  still_occupied : (b : ℕ) → free' b ≡ false → (free b ≡ false) × (holds (table k) b ≡ false)
  still_occupied b f = elim (Bool-cases (holds (table k) b)) [
    | inl mine ↦ absurd (let q : true ≡ false = sym (given b ∙ rw mine refl) ∙ f in cc)
    | inr other ↦ (sym (given b ∙ rw other refl) ∙ f, other)
  ]

  not_given : (j b : ℕ) → holds (table j) b ≡ true → holds (table k) b ≡ false → (j == k) ≡ false
  not_given j b t other = elim (Bool-cases (j == k)) [
    | inl e ↦ absurd (let q = ap (λ x. holds (table x) b) ((==_iff j k).0 e) in cc)
    | inr ne ↦ ne
  ]

  pub IsPartitioned-release : IsPartitioned (update table k p) free'
  IsPartitioned-release = record {
    runs = λ j h l.
        let e = other_entry table k j p (still_other j l) in
        subst HasRun (sym e) (v.runs j h (sym (ap is_live e) ∙ l));
    occupied = λ j b h l t.
        let ne = still_other j l in
        let e = other_entry table k j p ne in
        let lj = sym (ap is_live e) ∙ l in
        let tj = sym (ap (λ (x : Pcb). holds x b) e) ∙ t in
        given b ∙ rw (still_held j b h lj ne tj) (v.occupied j b h lj tj);
    disjoint = λ i j b hi hj li lj ti tj.
        let ei = other_entry table k i p (still_other i li) in
        let ej = other_entry table k j p (still_other j lj) in
        v.disjoint i j b hi hj (sym (ap is_live ei) ∙ li) (sym (ap is_live ej) ∙ lj)
          (sym (ap (λ (x : Pcb). holds x b) ei) ∙ ti) (sym (ap (λ (x : Pcb). holds x b) ej) ∙ tj);
    no_leak = λ b h f.
        let (old, other) = still_occupied b f in
        let (j, hj, l, t) = v.no_leak b h old in
        let e = other_entry table k j p (not_given j b t other) in
        (j, hj, ap is_live e ∙ l, ap (λ (x : Pcb). holds x b) e ∙ t);
  }

-- An entry that takes blocks that were free.
module _ (table : ProcessTable) (free free' : Partitions) (k : ℕ) (p : Pcb) (kh : k < max_processes)
    (kd : is_live (table k) ≡ false) (live : is_live p ≡ true) (run : HasRun p)
    (were_free : (b : ℕ) → holds p b ≡ true → free b ≡ true)
    (taken : (b : ℕ) → free' b ≡ (if holds p b then false else free b))
    (v : IsPartitioned table free) where
  -- A block of another process stays occupied, and is none of the new ones.
  apart :
      (j b : ℕ)
      → j < max_processes
      → is_live (table j) ≡ true
      → holds (table j) b ≡ true
      → holds p b ≡ true
      → ⊥
  apart j b h l t new = let a = v.occupied j b h l t in let c = were_free b new in cc

  acquire_runs :
      (j : ℕ)
      → j < max_processes
      → is_live (update table k p j) ≡ true
      → HasRun (update table k p j)
  acquire_runs j h l = elim (Bool-cases (j == k)) [
    | inl e ↦ subst HasRun (sym (changed_entry table k j p e)) run
    | inr ne ↦
        let e = other_entry table k j p ne in
        subst HasRun (sym e) (v.runs j h (sym (ap is_live e) ∙ l))
  ]

  others_live : (j : ℕ) → is_live (table j) ≡ true → (j == k) ≡ false
  others_live j l = elim (Bool-cases (j == k)) [
    | inl e ↦ absurd (let q = ap (λ x. is_live (table x)) ((==_iff j k).0 e) in cc)
    | inr ne ↦ ne
  ]

  -- An entry that holds a block is the new one, or an old one that held it before.
  held_by :
      (j b : ℕ)
      → is_live (update table k p j) ≡ true
      → holds (update table k p j) b ≡ true
      → ((j ≡ k) × (holds p b ≡ true)) ⊎ ((is_live (table j) ≡ true) × (holds (table j) b ≡ true))
  held_by j b l t = elim (Bool-cases (j == k)) [
    | inl e ↦
        inl ((==_iff j k).0 e, sym (ap (λ (x : Pcb). holds x b) (changed_entry table k j p e)) ∙ t)
    | inr ne ↦
        let e = other_entry table k j p ne in
        inr (sym (ap is_live e) ∙ l, sym (ap (λ (x : Pcb). holds x b) e) ∙ t)
  ]

  acquire_occupied :
      (j b : ℕ)
      → j < max_processes
      → is_live (update table k p j) ≡ true
      → holds (update table k p j) b ≡ true
      → free' b ≡ false
  acquire_occupied j b h l t = elim (held_by j b l t) [
    | inl (e, new) ↦ taken b ∙ rw new refl
    | inr (l', t') ↦ elim (Bool-cases (holds p b)) [
      | inl new ↦ taken b ∙ rw new refl
      | inr old ↦ taken b ∙ rw old (v.occupied j b h l' t')
    ]
  ]

  acquire_disjoint :
      (i j b : ℕ)
      → i < max_processes
      → j < max_processes
      → is_live (update table k p i) ≡ true
      → is_live (update table k p j) ≡ true
      → holds (update table k p i) b ≡ true
      → holds (update table k p j) b ≡ true
      → i ≡ j
  acquire_disjoint i j b hi hj li lj ti tj = elim (held_by i b li ti) [
    | inl (ei, new) ↦ elim (held_by j b lj tj) [
      | inl (ej, _) ↦ ei ∙ sym ej
      | inr (l, t) ↦ absurd (apart j b hj l t new)
    ]
    | inr (l, t) ↦ elim (held_by j b lj tj) [
      | inl (ej, new) ↦ absurd (apart i b hi l t new)
      | inr (l', t') ↦ v.disjoint i j b hi hj l l' t t'
    ]
  ]

  pub IsPartitioned-acquire : IsPartitioned (update table k p) free'
  IsPartitioned-acquire = record {
    runs = acquire_runs;
    occupied = acquire_occupied;
    disjoint = acquire_disjoint;
    no_leak = λ b h f. elim (Bool-cases (holds p b)) [
      | inl new ↦
          let e = self_entry table k p in
          (k, kh, ap is_live e ∙ live, ap (λ (x : Pcb). holds x b) e ∙ new)
      | inr old ↦
          let (j, hj, l, t) = v.no_leak b h (sym (taken b ∙ rw old refl) ∙ f) in
          let e = other_entry table k j p (others_live j l) in
          (j, hj, ap is_live e ∙ l, ap (λ (x : Pcb). holds x b) e ∙ t)
    ];
  }
