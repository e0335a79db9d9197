-- ===== src/Memory/Refinement.antt =====
-- The memory that a program sees (src/hardware/memory.c): an array of its own, from address 0 to the
-- end of its partition.
use project_lucario.Base.{
  ℕ, ◌+◌, ◌-◌, ◌≤◌, ◌<◌, ◌≡◌, refl, ap, ◌∙◌, sym, fun_ext, arith, Bool, true, false, ◌&&◌, Option,
  none, some, leb, update, if◌then◌else◌,
}
use project_lucario.Base.Int.{ℤ, pos, add32, int32, ◌+ℤ◌}
use project_lucario.Machine.{Machine, mode_user, ram_size}
use project_lucario.Memory.Protection.{write_memory_isolated}
use project_lucario.Memory.{read_memory, write_memory, is_valid_instruction, translate}

-- The abstract memory: its last address, and its cells.
pub record PrivateMemory : Type 0 where
  pub last : ℕ
  pub cells : ℕ → ℤ

abbrev pub load : PrivateMemory → ℕ → Option ℤ
load p a = if leb a p.last then some (p.cells a) else none

abbrev pub store : PrivateMemory → ℕ → ℤ → PrivateMemory
store p a w =
    if is_valid_instruction w && leb a p.last then record p { cells = update p.cells a w } else p

-- What a program in the cells `b` to `l` sees.
abbrev pub view : ℕ → ℕ → Machine → PrivateMemory
view b l m = record { last = l - b; cells = λ a. m.ram (b + a) }

-- A program in user mode in the cells `b` to `l`.
pub record RunsIn (b l : ℕ) (m : Machine) : Type 0 where
  pub user : m.cpu.psw.mode ≡ mode_user
  pub base : m.cpu.rb ≡ pos b
  pub limit : m.cpu.rl ≡ pos l
  pub order : b ≤ l
  pub inside : l < ram_size

translate_user :
    (b l a : ℕ) (m : Machine) → RunsIn b l m → a < 10_000_000 → translate m (pos a) ≡ pos (b + a)
unfolding translate add32 int32 ◌+ℤ◌
translate_user b l a m v h = ground arith

-- For a program in user mode in the cells `b` to `l`, a read of a logical address below ten million is a
-- load from the program's own memory: the cell's word up to its last address, and nothing beyond.
pub read_memory-view :
    (b l a : ℕ) (m : Machine)
    → RunsIn b l m
    → a < 10_000_000
    → (read_memory m (pos a)).1 ≡ load (view b l m) a
unfolding read_memory
read_memory-view b l a m v h = ground (arith, translate_user b l a m v h)

cell-write_memory :
    (b l a : ℕ) (w : ℤ) (m : Machine) (j : ℕ)
    → RunsIn b l m
    → a < 10_000_000
    → (write_memory (pos a) w m).1.ram (b + j) ≡ (store (view b l m) a w).cells j
unfolding write_memory
cell-write_memory b l a w m j v h = ground (arith, translate_user b l a m v h)

last-store :
    (p : PrivateMemory) (a : ℕ) (w : ℤ)
    → store p a w ≡ record { last = p.last; cells = (store p a w).cells }
last-store p a w = by_guard (is_valid_instruction w && leb a p.last)
  where
    by_guard :
        (g : Bool)
        → (if g then record p { cells = update p.cells a w } else p) ≡ record {
          last = p.last;
          cells = (if g then record p { cells = update p.cells a w } else p).cells;
        }
    by_guard true = refl
    by_guard false = refl

-- For a program in user mode in the cells `b` to `l`, a write to a logical address below ten million is
-- a store to the program's own memory: of a word that memory takes, up to the last address, and else
-- of nothing.
pub write_memory-view :
    (b l a : ℕ) (w : ℤ) (m : Machine)
    → RunsIn b l m
    → a < 10_000_000
    → view b l (write_memory (pos a) w m).1 ≡ store (view b l m) a w
write_memory-view b l a w m v h =
    ap (λ (c : ℕ → ℤ). record { last = l - b; cells = c })
      (fun_ext (λ j. cell-write_memory b l a w m j v h))
    ∙ sym (last-store (view b l m) a w)

-- Such a write leaves the memory of a program in the cells behind them as it was.
pub write_memory_private :
    (b l b' l' a : ℕ) (w : ℤ) (m : Machine)
    → RunsIn b l m
    → l < b'
    → view b' l' (write_memory (pos a) w m).1 ≡ view b' l' m
write_memory_private b l b' l' a w m v h =
    ap (λ (c : ℕ → ℤ). record { last = l' - b'; cells = c })
      (fun_ext (λ j. write_memory_isolated m (pos a) w (b' + j) (ground arith) (λ q. ground arith)))
