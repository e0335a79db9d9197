-- ===== src/Mmu/FirstFit.antt =====
-- `allocateMemory` (src/kernel/mmu.c) takes the first run of free blocks that is long enough.
use project_lucario.Base.{
  ℕ, zero, suc, ◌+◌, ◌-◌, ◌≤◌, ◌<◌, ◌≡◌, refl, ◌≢◌, ◌⊎◌, inl, inr, arith, Bool, true, false, ◌&&◌,
  ◌||◌, Option, none, some, ltb, leb, ◌==◌, update, if◌then◌else◌, Bool-cases, ==_iff, subst, ap,
  fun_ext, ◌∙◌,
}
use project_lucario.Base.Int.{pos, add32_id, +ℤ_parts, +ℤ_normal}
use project_lucario.Machine.{max_processes, os_success}
use project_lucario.Mmu.{Partitions, fill_blocks, allocate_from, allocate_memory, free_memory}

-- The `n` blocks from `s` on are free.
abbrev pub AllFree : ℕ → ℕ → Partitions → Type 0
AllFree zero s free = Unit
AllFree (suc n) s free = (free s ≡ true) × AllFree n (suc s) free

pub AllFree-at :
    (n s j : ℕ) (free : Partitions) → AllFree n s free → s ≤ j → j < s + n → free j ≡ true
AllFree-at zero s j free h lo hi = absurd (omega arith)
AllFree-at (suc n) s j free h lo hi = elim (Bool-cases (s == j)) [
  | inl same ↦ subst (λ k. free k ≡ true) ((==_iff s j).0 same) h.0
  | inr other ↦ AllFree-at n (suc s) j free h.1 (ground arith) (omega arith)
]

AllFree-snoc :
    (n s i : ℕ) (free : Partitions)
    → AllFree n s free
    → i ≡ s + n
    → free i ≡ true
    → AllFree (suc n) s free
AllFree-snoc zero s i free h e f = (subst (λ k. free k ≡ true) (omega arith) f, tt)
AllFree-snoc (suc n) s i free h e f = (h.0, AllFree-snoc n (suc s) i free h.1 (omega arith) f)

-- The loop writes its blocks and no other.
pub fill_blocks_lem :
    (n s : ℕ) (b : Bool) (free : Partitions) (j : ℕ)
    → fill_blocks n s b free j ≡ (if leb s j && ltb j (s + n) then b else free j)
unfolding fill_blocks
fill_blocks_lem zero s b free j = ground arith
fill_blocks_lem (suc n) s b free j = ground (arith, fill_blocks_lem n (suc s) b (update free s b) j)

-- What the search has found so far, at block `i` with `count` free blocks before it.
record Searched (n i count : ℕ) (free : Partitions) : Type 0 where
  short : count < n
  inside : count ≤ i
  run : AllFree count (i - count) free
  stopped : (i ≡ count) ⊎ (free (i - count - 1) ≡ false)
  none_before : (t : ℕ) → t + n ≤ i → ¬ AllFree n t free

-- What the search returns.
abbrev Found : ℕ → Partitions → Option ℕ × Partitions → Type 0
Found n free (none, free') = (free' ≡ free) × ((t : ℕ) → t + n ≤ max_processes → ¬ AllFree n t free)
Found n free (some s, free') =
    (free' ≡ fill_blocks n s false free)
    × AllFree n s free
    × (s + n ≤ max_processes)
    × ((t : ℕ) → t < s → ¬ AllFree n t free)

Searched-occupied :
    (n i count : ℕ) (free : Partitions)
    → Searched n i count free
    → free i ≡ false
    → Searched n (suc i) 0 free
Searched-occupied n i count free v f = record {
  short = omega arith;
  inside = omega arith;
  run = tt;
  stopped = inr (subst (λ k. free k ≡ false) (omega arith) f);
  none_before = λ t h r. elim (Bool-cases (leb (t + n) i)) [
    | inl old ↦ v.none_before t (ground arith) r
    | inr now ↦ let full = AllFree-at n t i free r (ground arith) (ground arith) in cc
  ];
}

full_run :
    (n i count : ℕ) (free : Partitions)
    → Searched n i count free
    → free i ≡ true
    → AllFree (suc count) (i - count) free
full_run n i count free v f = AllFree-snoc count (i - count) i free v.run (omega arith) f

no_new_run :
    (n i count : ℕ) (free : Partitions)
    → Searched n i count free
    → suc count ≢ n
    → (t : ℕ) → t + n ≤ suc i
    → ¬ AllFree n t free
no_new_run n i count free v ne t h r = elim (Bool-cases (leb (t + n) i)) [
  | inl old ↦ v.none_before t (ground arith) r
  | inr now ↦ elim v.stopped [
    | inl e ↦ absurd (ground arith)
    | inr f ↦ let full = AllFree-at n t (i - count - 1) free r (ground arith) (ground arith) in cc
  ]
]

Searched-free :
    (n i count : ℕ) (free : Partitions)
    → Searched n i count free
    → free i ≡ true
    → suc count ≢ n
    → Searched n (suc i) (suc count) free
Searched-free n i count free v f ne = record {
  short = omega arith;
  inside = omega arith;
  run = subst (λ k. AllFree (suc count) k free) (omega arith) (full_run n i count free v f);
  stopped = elim v.stopped [
    | inl e ↦ inl (omega arith)
    | inr h ↦ inr (subst (λ k. free k ≡ false) (omega arith) h)
  ];
  none_before = no_new_run n i count free v ne;
}

module _ (rounds n i count : ℕ) (free : Partitions) where
  allocate_from_occupied :
      free i ≡ false
      → allocate_from (suc rounds) n i count free ≡ allocate_from rounds n (suc i) 0 free
  unfolding allocate_from
  allocate_from_occupied f = rw (f, allocate_from) refl

  allocate_from_free :
      free i ≡ true
      → (suc count == n) ≡ false
      → allocate_from (suc rounds) n i count free ≡ allocate_from rounds n (suc i) (suc count) free
  unfolding allocate_from
  allocate_from_free f ne = rw (f, ne, allocate_from) refl

  allocate_from_done :
      free i ≡ true
      → (suc count == n) ≡ true
      → allocate_from (suc rounds) n i count free
        ≡ (some (suc i - n), fill_blocks n (suc i - n) false free)
  unfolding allocate_from
  allocate_from_done f done = rw (f, done, allocate_from) refl

-- The search, from any point that it can reach.
allocate_from-Found :
    (rounds n i count : ℕ) (free : Partitions)
    → rounds + i ≡ max_processes
    → Searched n i count free
    → Found n free (allocate_from rounds n i count free)
allocate_from-Found zero n i count free e v =
    unfold allocate_from in (refl, λ t h. v.none_before t (omega arith))
allocate_from-Found (suc rounds) n i count free e v = elim (Bool-cases (free i)) [
  | inr f ↦ rw (allocate_from_occupied rounds n i count free f) (
      allocate_from-Found rounds n (suc i) 0 free (omega arith)
        (Searched-occupied n i count free v f))
  | inl f ↦ elim (Bool-cases (suc count == n)) [
    | inr ne ↦ rw (allocate_from_free rounds n i count free f ne) (
        allocate_from-Found rounds n (suc i) (suc count) free (omega arith)
          (Searched-free n i count free v f (λ h. ground arith)))
    | inl done ↦ rw (allocate_from_done rounds n i count free f done) (
      refl,
      subst (λ k. AllFree n k free) (ground arith)
          (subst (λ k. AllFree k (i - count) free) ((==_iff _ _).0 done)
            (full_run n i count free v f)),
      ground arith,
      λ t h. v.none_before t (ground arith),
    )
  ]
]

Searched-start : (n : ℕ) (free : Partitions) → 1 ≤ n → Searched n 0 0 free
Searched-start n free h = record {
  short = omega arith;
  inside = omega arith;
  run = tt;
  stopped = inl refl;
  none_before = λ t e. absurd (omega arith);
}

allocate_memory-Found :
    (n : ℕ) (free : Partitions)
    → 1 ≤ n
    → n ≤ max_processes
    → Found n free (allocate_memory (pos n) free)
unfolding allocate_memory
allocate_memory-Found n free lo hi =
    let guard : (leb (n + 0) 0 || ltb 20 (n + 0)) ≡ false = ground arith in
    rw guard (allocate_from-Found max_processes n 0 0 free (omega arith) (Searched-start n free lo))

Found-inv :
    (n : ℕ) (free : Partitions) {s : ℕ} {free' : Partitions} {r : Option ℕ × Partitions}
    → Found n free r
    → r ≡ (some s, free')
    → Found n free (some s, free')
Found-inv n free f e = subst (Found n free) e f

-- For one to twenty blocks, the run that `allocateMemory` returns was free, lies in the table, and is
-- marked occupied, with no other block changed.
pub allocate_memory_sound :
    (n : ℕ) (free : Partitions) {s : ℕ} {free' : Partitions}
    → 1 ≤ n
    → n ≤ max_processes
    → allocate_memory (pos n) free ≡ (some s, free')
    → AllFree n s free
      × (s + n ≤ max_processes)
      × ((j : ℕ) → free' j ≡ (if leb s j && ltb j (s + n) then false else free j))
allocate_memory_sound n free {s} lo hi e =
    let f = Found-inv n free (allocate_memory-Found n free lo hi) e in
    (f.1, f.2, λ j. ap (λ (g : Partitions). g j) f.0 ∙ fill_blocks_lem n s false free j)

-- For one to twenty blocks, no run of free blocks of that length begins before the one that
-- `allocateMemory` returns.
pub allocate_memory_first :
    (n t : ℕ) (free : Partitions) {s : ℕ} {free' : Partitions}
    → 1 ≤ n
    → n ≤ max_processes
    → allocate_memory (pos n) free ≡ (some s, free')
    → t < s
    → ¬ AllFree n t free
allocate_memory_first n t free lo hi e =
    (Found-inv n free (allocate_memory-Found n free lo hi) e).3 t

-- Where `allocateMemory` returns -1 for one to twenty blocks, the table is unchanged and holds no run
-- of free blocks of that length.
pub allocate_memory_complete :
    (n t : ℕ) (free : Partitions) {free' : Partitions}
    → 1 ≤ n
    → n ≤ max_processes
    → allocate_memory (pos n) free ≡ (none, free')
    → t + n ≤ max_processes
    → (free' ≡ free) × ¬ AllFree n t free
allocate_memory_complete n t free lo hi e h =
    let f = subst (Found n free) e (allocate_memory-Found n free lo hi) in (f.0, f.1 t h)

pub free_memory_fills :
    (s n : ℕ) (free : Partitions)
    → 1 ≤ n
    → s + n ≤ max_processes
    → free_memory (pos s) (pos n) free ≡ (os_success, fill_blocks n s true free)
unfolding free_memory
free_memory_fills s n free lo hi =
    rw (add32_id (pos s) (pos n) (ground (arith, +ℤ_parts (pos s) (pos n))))
      (ground (arith, +ℤ_parts (pos s) (pos n), +ℤ_normal (pos s) (pos n)))

refill :
    (n s : ℕ) (free : Partitions) (j : ℕ)
    → AllFree n s free
    → fill_blocks n s true (fill_blocks n s false free) j ≡ free j
refill n s free j h = ground (
  arith,
  fill_blocks_lem n s true (fill_blocks n s false free) j,
  fill_blocks_lem n s false free j,
  AllFree-at n s j free h,
)

-- For one to twenty blocks, freeing the run that `allocateMemory` has just returned succeeds and
-- gives the table back as it was before.
pub free_memory-allocate_memory :
    (n : ℕ) (free : Partitions) {s : ℕ} {free' : Partitions}
    → 1 ≤ n
    → n ≤ max_processes
    → allocate_memory (pos n) free ≡ (some s, free')
    → free_memory (pos s) (pos n) free' ≡ (os_success, free)
free_memory-allocate_memory n free {s} lo hi e =
    let f = Found-inv n free (allocate_memory-Found n free lo hi) e in
    rw (f.0, free_memory_fills s n (fill_blocks n s false free) lo f.2)
      (ap (λ (g : Partitions). (os_success, g)) (fun_ext (λ j. refill n s free j f.1)))
