-- ===== src/Context/Stack.antt =====
-- Pushes and pops on a program's stack inside its partition (src/hardware/cpu.c).
use project_lucario.Base.{ℕ, suc, ◌+◌, ◌≤◌, ◌<◌, ◌≡◌, refl, ap, ◌∙◌, arith, true, update, inr}
use project_lucario.Base.Int.{ℤ, pos, ◌+ℤ◌, ◌-ℤ◌, add32, sub32, int32}
use project_lucario.Machine.{Machine, mode_user, MemoryStatus, set_sp, ram_size}
use project_lucario.Memory.{translate, read_memory, write_memory, is_valid_instruction}
use project_lucario.Memory.Protection.{
  IsAllowed, read_memory_allowed, write_memory_allowed, is_valid_instruction_iff,
}
use project_lucario.Context.{push_field, pop_into, internal_push, internal_pop, or_zero}

pub add32_pos : (a b : ℕ) → a + b < 4000 → add32 (pos a) (pos b) ≡ pos (a + b)
unfolding add32 int32 ◌+ℤ◌
add32_pos a b h = ground arith

pub sub32_one : (k : ℕ) → k < 2000 → sub32 (pos (suc k)) (pos 1) ≡ pos k
unfolding sub32 int32 ◌-ℤ◌
sub32_one k h = ground arith

pub valid_small : (n : ℕ) → n < 2000 → is_valid_instruction (pos n) ≡ true
valid_small n h = (is_valid_instruction_iff (pos n)).1 (omega arith)

-- A machine in user mode with its partition from `b` to `l`.
pub record InPartition (b l : ℕ) (m : Machine) : Type 0 where
  pub user : m.cpu.psw.mode ≡ mode_user
  pub base : m.cpu.rb ≡ pos b
  pub limit : m.cpu.rl ≡ pos l
  pub inside : l < ram_size

module _ (b l k : ℕ) (m : Machine) (v : InPartition b l m) (fits : b + k ≤ l) where
  pub translate-slot : translate m (pos k) ≡ pos (b + k)
  unfolding translate
  translate-slot =
      rw (v.user, v.base) (add32_pos k b (omega (arith, v.inside)) ∙ ap pos (omega arith))

  pub slot-IsAllowed : IsAllowed m (translate m (pos k))
  slot-IsAllowed = rw translate-slot (record {
    lower = omega arith;
    upper = omega (arith, v.inside);
    within = inr (rw (v.base, v.limit) (omega arith));
  })

  pop_slot : m.cpu.sp ≡ pos k → internal_pop m ≡ (m.ram (b + k), set_sp (pos (suc k)) m)
  unfolding internal_pop
  pop_slot e =
      ap (λ z. (or_zero (read_memory m z).1, set_sp (add32 z (pos 1)) m)) e
      ∙ rw
          (
            read_memory_allowed m (pos k) slot-IsAllowed,
            translate-slot,
            add32_pos k 1 (omega (arith, v.inside)),
          )
          (ap (λ z. (m.ram (b + k), set_sp (pos z) m)) (omega arith))

-- The effect of a push that succeeds.
abbrev pub pushed : ℤ → ℕ → ℕ → Machine → Machine
pushed w b k m = record m { cpu = record m.cpu { sp = pos k }; ram = update m.ram (b + k) w }

pub push_slot :
    (w : ℤ) (b l k : ℕ) (m : Machine)
    → InPartition b l m
    → b + k ≤ l
    → m.cpu.sp ≡ pos (suc k)
    → is_valid_instruction w ≡ true
    → internal_push w m ≡ pushed w b k m
unfolding internal_push
push_slot w b l k m v fits e valid =
    ap (λ z. (write_memory z w (set_sp z m)).1)
      (ap (λ y. sub32 y (pos 1)) e ∙ sub32_one k (omega (arith, v.inside)))
    ∙ ap (λ (r : MemoryStatus × Machine). r.1)
        (write_memory_allowed moved (pos k) w (slot-IsAllowed b l k moved v' fits) valid)
    ∙ rw (translate-slot b l k moved v' fits) refl
  where
    moved : Machine
    moved = set_sp (pos k) m

    v' : InPartition b l moved
    v' = record { user = v.user; base = v.base; limit = v.limit; inside = v.inside }

pub push_field_slot :
    (get : Machine → ℤ) (b l k : ℕ) (m : Machine)
    → InPartition b l m
    → b + k ≤ l
    → m.cpu.sp ≡ pos (suc k)
    → is_valid_instruction (get m) ≡ true
    → push_field get m ≡ pushed (get m) b k m
unfolding push_field
push_field_slot get b l k m v fits e valid = push_slot (get m) b l k m v fits e valid

pub pop_into_slot :
    (put : ℤ → Machine → Machine) (b l k : ℕ) (m : Machine)
    → InPartition b l m
    → b + k ≤ l
    → m.cpu.sp ≡ pos k
    → pop_into put m ≡ put (m.ram (b + k)) (set_sp (pos (suc k)) m)
unfolding pop_into
pop_into_slot put b l k m v fits e =
    ap (λ (r : ℤ × Machine). put r.0 r.1) (pop_slot b l k m v fits e)
