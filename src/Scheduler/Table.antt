-- ===== src/Scheduler/Table.antt =====
-- What the loops of `schedulerTick` (src/kernel/scheduler.c) do to the process table.
use project_lucario.Base.{
  ℕ, zero, suc, ◌+◌, ◌%◌, ◌≤◌, ◌<◌, ◌≡◌, refl, sym, ◌∙◌, subst, arith, true, false, ◌&&◌, Option,
  none, some, ltb, leb, ◌==◌, ==_iff, update, if◌then◌else◌, Bool-cases, inl, inr,
}
use project_lucario.Machine.{Pcb, ProcessTable, max_processes, is_ready}
use project_lucario.Scheduler.{each_process, find_ready}

pub each_process_lem :
    (f : Pcb → Pcb) (n i : ℕ) (table : ProcessTable) (j : ℕ)
    → each_process f n i table j ≡ (if leb i j && ltb j (i + n) then f (table j) else table j)
unfolding each_process
each_process_lem f zero i table j = elim (Bool-cases (leb i j && ltb j (i + 0))) [
  | inl h ↦ absurd (ground arith)
  | inr h ↦ rw h refl
]
each_process_lem f (suc n) i table j =
    each_process_lem f n (suc i) (update table i (f (table i))) j ∙ step
  where
    Step : ℕ → Type 0
    Step k =
        (if leb (suc i) k && ltb k (suc i + n)
          then f (update table i (f (table i)) k)
          else update table i (f (table i)) k)
        ≡ (if leb i k && ltb k (i + suc n) then f (table k) else table k)

    here : Step i
    here = ground arith

    step : Step j
    step = elim (Bool-cases (j == i)) [
      | inl e ↦ subst Step (sym ((==_iff j i).0 e)) here
      | inr ne ↦ ground arith
    ]

-- A process at place `k` of the search, which goes round the table.
abbrev pub slot : ℕ → ℕ → ℕ
slot start d = (start + d) % max_processes

-- What the search for a READY process returns.
abbrev pub Picked : ℕ → ℕ → ℕ → ProcessTable → Option ℕ → Type 0
Picked n start i table none =
    (d : ℕ) → i ≤ d → d < i + n → is_ready (table (slot start d)).state ≡ false
Picked n start i table (some k) =
    (d : ℕ) × (k ≡ slot start d)
    × (i ≤ d)
    × (d < i + n)
    × (is_ready (table k).state ≡ true)
    × ((e : ℕ) → i ≤ e → e < d → is_ready (table (slot start e)).state ≡ false)

Picked-skip :
    (n start i : ℕ) (table : ProcessTable) (r : Option ℕ)
    → is_ready (table (slot start i)).state ≡ false
    → Picked n start (suc i) table r
    → Picked (suc n) start i table r
Picked-skip n start i table none h p = λ d lo hi. elim (Bool-cases (i == d)) [
  | inl e ↦ subst (λ k. is_ready (table (slot start k)).state ≡ false) ((==_iff i d).0 e) h
  | inr ne ↦ p d (ground arith) (omega arith)
]
Picked-skip n start i table (some k) h (d, e, lo, hi, r, first) = (
  d,
  e,
  omega arith,
  omega arith,
  r,
  λ x xlo xhi. elim (Bool-cases (i == x)) [
    | inl same ↦ subst (λ y. is_ready (table (slot start y)).state ≡ false) ((==_iff i x).0 same) h
    | inr ne ↦ first x (ground arith) (omega arith)
  ],
)

module _ (n start i : ℕ) (table : ProcessTable) where
  find_ready_here :
      is_ready (table (slot start i)).state ≡ true
      → find_ready (suc n) start i table ≡ some (slot start i)
  unfolding find_ready
  find_ready_here h = rw (h, find_ready) refl

  find_ready_skip :
      is_ready (table (slot start i)).state ≡ false
      → find_ready (suc n) start i table ≡ find_ready n start (suc i) table
  unfolding find_ready
  find_ready_skip h = rw (h, find_ready) refl

pub find_ready-Picked :
    (n start i : ℕ) (table : ProcessTable) → Picked n start i table (find_ready n start i table)
find_ready-Picked zero start i table = unfold find_ready in λ d lo hi. absurd (omega arith)
find_ready-Picked (suc n) start i table =
    elim (Bool-cases (is_ready (table (slot start i)).state)) [
      | inl r ↦
          rw (find_ready_here n start i table r)
            (i, refl, omega arith, omega arith, r, λ e lo hi. absurd (omega arith))
      | inr h ↦ rw (find_ready_skip n start i table h) (
          Picked-skip n start i table (find_ready n start (suc i) table) h
            (find_ready-Picked n start (suc i) table))
    ]
