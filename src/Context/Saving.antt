-- ===== src/Context/Saving.antt =====
-- What `saveContext` (src/hardware/cpu.c) leaves on the stack of the interrupted program.
use project_lucario.Base.{
  Bool, ℕ, suc, ◌+◌, ◌≤◌, ◌<◌, ◌≡◌, refl, ap, sym, ◌∙◌, subst, arith, true, ◌⊎◌,
}
use project_lucario.Base.Int.{pos}
use project_lucario.Machine.{
  set_interrupt_enable, Machine, ConditionCode, cc_zero, cc_neg, cc_pos, cc_overflow, cc_other,
  word_of_mode, word_of_cc,
}
use project_lucario.Memory.{is_valid_instruction}
use project_lucario.Context.{save_context}
use project_lucario.Context.Stack.{valid_small, InPartition, pushed, push_field_slot}

-- A condition code that a word stands for.
abbrev pub IsProper : ConditionCode → Type 0
IsProper (cc_other _) = ⊥
IsProper _ = Unit

-- A program that an interrupt finds with room for seven words on its stack, and with words in AC, RX
-- and PC that memory takes.
pub record HasRoom (b l s : ℕ) (m : Machine) : Type 0 where
  pub place : InPartition b l m
  pub stack : m.cpu.sp ≡ pos (7 + s)
  pub fits : b + s + 6 ≤ l
  pub ac : is_valid_instruction m.cpu.ac ≡ true
  pub rx : is_valid_instruction m.cpu.rx ≡ true
  pub pc : is_valid_instruction m.cpu.psw.pc ≡ true
  pub code : IsProper m.cpu.psw.condition_code

-- Masking the interrupts leaves the program its room.
pub HasRoom-masked :
    (b l s : ℕ) (m : Machine) (enable : Bool)
    → HasRoom b l s m
    → HasRoom b l s (set_interrupt_enable enable m)
HasRoom-masked b l s m enable v = record {
  place = record {
    user = v.place.user;
    base = v.place.base;
    limit = v.place.limit;
    inside = v.place.inside;
  };
  stack = v.stack;
  fits = v.fits;
  ac = v.ac;
  rx = v.rx;
  pc = v.pc;
  code = v.code;
}

valid_mode :
    {b l : ℕ} (m : Machine)
    → InPartition b l m
    → is_valid_instruction (word_of_mode m.cpu.psw.mode) ≡ true
valid_mode m v =
    subst (λ c. is_valid_instruction (word_of_mode c) ≡ true) (sym v.user)
      (valid_small 0 (omega arith))

valid_code : (c : ConditionCode) → IsProper c → is_valid_instruction (word_of_cc c) ≡ true
valid_code cc_zero h = valid_small 0 (omega arith)
valid_code cc_neg h = valid_small 1 (omega arith)
valid_code cc_pos h = valid_small 2 (omega arith)
valid_code cc_overflow h = valid_small 3 (omega arith)
valid_code (cc_other w) h = absurd h

-- The stack after `saveContext`, from the top: AC, PC, the condition code, the mode, RB, RL and RX.
module _ (b s : ℕ) (m : Machine) where
  abbrev pub saved1 : Machine
  saved1 = pushed m.cpu.rx b (suc (suc (suc (suc (suc (suc s)))))) m

  abbrev pub saved2 : Machine
  saved2 = pushed m.cpu.rl b (suc (suc (suc (suc (suc s))))) saved1

  abbrev pub saved3 : Machine
  saved3 = pushed m.cpu.rb b (suc (suc (suc (suc s)))) saved2

  abbrev pub saved4 : Machine
  saved4 = pushed (word_of_mode m.cpu.psw.mode) b (suc (suc (suc s))) saved3

  abbrev pub saved5 : Machine
  saved5 = pushed (word_of_cc m.cpu.psw.condition_code) b (suc (suc s)) saved4

  abbrev pub saved6 : Machine
  saved6 = pushed m.cpu.psw.pc b (suc s) saved5

  abbrev pub saved : Machine
  saved = pushed m.cpu.ac b s saved6

pub save_context_lem : (b l s : ℕ) (m : Machine) → HasRoom b l s m → save_context m ≡ saved b s m
unfolding save_context
save_context_lem b l s m v =
    rw
      (
        push_field_slot (λ x. x.cpu.rx) b l (suc (suc (suc (suc (suc (suc s)))))) m p0
            (omega (arith, v.fits)) (v.stack ∙ ap pos (omega arith)) v.rx,
        push_field_slot (λ x. x.cpu.rl) b l (suc (suc (suc (suc (suc s))))) (saved1 b s m) p1
            (omega (arith, v.fits)) refl vl,
        push_field_slot (λ x. x.cpu.rb) b l (suc (suc (suc (suc s)))) (saved2 b s m) p2
            (omega (arith, v.fits)) refl vb,
        push_field_slot (λ x. word_of_mode x.cpu.psw.mode) b l (suc (suc (suc s))) (saved3 b s m) p3
            (omega (arith, v.fits)) refl (valid_mode m v.place),
        push_field_slot (λ x. word_of_cc x.cpu.psw.condition_code) b l (suc (suc s)) (saved4 b s m)
            p4 (omega (arith, v.fits)) refl (valid_code m.cpu.psw.condition_code v.code),
        push_field_slot (λ x. x.cpu.psw.pc) b l (suc s) (saved5 b s m) p5 (omega (arith, v.fits))
            refl v.pc,
        push_field_slot (λ x. x.cpu.ac) b l s (saved6 b s m) p6 (omega (arith, v.fits)) refl v.ac,
      )
      refl
  where
    p0 : InPartition b l m
    p0 = v.place

    p1 : InPartition b l (saved1 b s m)
    p1 = record { user = p0.user; base = p0.base; limit = p0.limit; inside = p0.inside }

    p2 : InPartition b l (saved2 b s m)
    p2 = record { user = p0.user; base = p0.base; limit = p0.limit; inside = p0.inside }

    p3 : InPartition b l (saved3 b s m)
    p3 = record { user = p0.user; base = p0.base; limit = p0.limit; inside = p0.inside }

    p4 : InPartition b l (saved4 b s m)
    p4 = record { user = p0.user; base = p0.base; limit = p0.limit; inside = p0.inside }

    p5 : InPartition b l (saved5 b s m)
    p5 = record { user = p0.user; base = p0.base; limit = p0.limit; inside = p0.inside }

    p6 : InPartition b l (saved6 b s m)
    p6 = record { user = p0.user; base = p0.base; limit = p0.limit; inside = p0.inside }

    vb : is_valid_instruction m.cpu.rb ≡ true
    vb = rw p0.base (valid_small b (omega (arith, v.fits, p0.inside)))

    vl : is_valid_instruction m.cpu.rl ≡ true
    vl = rw p0.limit (valid_small l (omega (arith, p0.inside)))

-- For a program in user mode with room for seven words on its stack, and with words in AC, RX and PC
-- that memory takes, saving the registers changes no cell of RAM but the seven just below the top of
-- the stack.
pub save_context_outside :
    (b l s j : ℕ) (m : Machine)
    → HasRoom b l s m
    → (j < b + s) ⊎ (b + s + 6 < j)
    → (save_context m).ram j ≡ m.ram j
save_context_outside b l s j m v out =
    ap (λ (x : Machine). x.ram j) (save_context_lem b l s m v) ∙ ground arith
