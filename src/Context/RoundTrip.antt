-- ===== src/Context/RoundTrip.antt =====
-- The registers survive an interrupt (src/hardware/cpu.c, `saveContext` and `restoreContext`).
use project_lucario.Base.{ℕ, suc, ◌+◌, ◌≤◌, ◌≡◌, refl, ap, sym, ◌∙◌, arith, false}
use project_lucario.Base.Int.{pos}
use project_lucario.Machine.{
  Machine, ConditionCode, cc_zero, cc_neg, cc_pos, cc_overflow, cc_other, OpMode, mode_user,
  InterruptCode, word_of_mode, word_of_cc, cc_of_word, mode_of_word, set_sp, set_pc, set_cc,
  set_mode, set_rb, set_rl, set_rx,
}
use project_lucario.Context.{save_context, restore_context, restore_ac, keeps_ac}
use project_lucario.Context.Stack.{InPartition, pop_into_slot}
use project_lucario.Context.Saving.{IsProper, HasRoom, saved, save_context_lem}

-- The machine after each pop of `restoreContext`.
module _ (code : InterruptCode) (b s : ℕ) (r : Machine) where
  abbrev pub restored1 : Machine
  restored1 = restore_ac code (r.ram (b + s)) (set_sp (pos (suc s)) r)

  abbrev pub restored2 : Machine
  restored2 = set_pc (r.ram (b + suc s)) (set_sp (pos (suc (suc s))) restored1)

  abbrev pub restored3 : Machine
  restored3 =
      set_cc (cc_of_word (r.ram (b + suc (suc s)))) (set_sp (pos (suc (suc (suc s)))) restored2)

  abbrev pub restored4 : Machine
  restored4 =
      set_mode (mode_of_word (r.ram (b + suc (suc (suc s)))))
        (set_sp (pos (suc (suc (suc (suc s))))) restored3)

  abbrev pub restored5 : Machine
  restored5 =
      set_rb (r.ram (b + suc (suc (suc (suc s)))))
        (set_sp (pos (suc (suc (suc (suc (suc s)))))) restored4)

  abbrev pub restored6 : Machine
  restored6 =
      set_rl (r.ram (b + suc (suc (suc (suc (suc s))))))
        (set_sp (pos (suc (suc (suc (suc (suc (suc s))))))) restored5)

  abbrev pub restored : Machine
  restored =
      set_rx (r.ram (b + suc (suc (suc (suc (suc (suc s)))))))
        (set_sp (pos (suc (suc (suc (suc (suc (suc (suc s)))))))) restored6)

-- A stack as `saveContext` leaves it, at the machine that the handler returns.
pub record IsSaved (b l s : ℕ) (r : Machine) : Type 0 where
  pub place : InPartition b l r
  pub stack : r.cpu.sp ≡ pos s
  pub fits : b + s + 6 ≤ l
  pub mode : mode_of_word (r.ram (b + suc (suc (suc s)))) ≡ mode_user
  pub base : r.ram (b + suc (suc (suc (suc s)))) ≡ pos b
  pub limit : r.ram (b + suc (suc (suc (suc (suc s))))) ≡ pos l

pub restore_context_lem :
    (code : InterruptCode) (b l s : ℕ) (r : Machine)
    → IsSaved b l s r
    → restore_context code r ≡ restored code b s r
unfolding restore_context
restore_context_lem code b l s r v =
    rw
      (
        pop_into_slot (restore_ac code) b l s r p0 (omega (arith, v.fits)) v.stack,
        pop_into_slot set_pc b l (suc s) (restored1 code b s r) p1 (omega (arith, v.fits)) refl,
        pop_into_slot (λ w. set_cc (cc_of_word w)) b l (suc (suc s)) (restored2 code b s r) p2
            (omega (arith, v.fits)) refl,
        pop_into_slot (λ w. set_mode (mode_of_word w)) b l (suc (suc (suc s)))
            (restored3 code b s r) p3 (omega (arith, v.fits)) refl,
        pop_into_slot set_rb b l (suc (suc (suc (suc s)))) (restored4 code b s r) p4
            (omega (arith, v.fits)) refl,
        pop_into_slot set_rl b l (suc (suc (suc (suc (suc s))))) (restored5 code b s r) p5
            (omega (arith, v.fits)) refl,
        pop_into_slot set_rx b l (suc (suc (suc (suc (suc (suc s)))))) (restored6 code b s r) p6
            (omega (arith, v.fits)) refl,
      )
      refl
  where
    p0 : InPartition b l r
    p0 = v.place

    p1 : InPartition b l (restored1 code b s r)
    p1 = record { user = p0.user; base = p0.base; limit = p0.limit; inside = p0.inside }

    p2 : InPartition b l (restored2 code b s r)
    p2 = record { user = p0.user; base = p0.base; limit = p0.limit; inside = p0.inside }

    p3 : InPartition b l (restored3 code b s r)
    p3 = record { user = p0.user; base = p0.base; limit = p0.limit; inside = p0.inside }

    p4 : InPartition b l (restored4 code b s r)
    p4 = record { user = v.mode; base = p0.base; limit = p0.limit; inside = p0.inside }

    p5 : InPartition b l (restored5 code b s r)
    p5 = record { user = v.mode; base = v.base; limit = p0.limit; inside = p0.inside }

    p6 : InPartition b l (restored6 code b s r)
    p6 = record { user = v.mode; base = v.base; limit = v.limit; inside = p0.inside }

-- The cells that `saveContext` has written.
module _ (b s : ℕ) (m : Machine) where
  saved-ac : (saved b s m).ram (b + s) ≡ m.cpu.ac
  saved-ac = ground arith

  pub saved-pc : (saved b s m).ram (b + suc s) ≡ m.cpu.psw.pc
  saved-pc = ground arith

  saved-cc : (saved b s m).ram (b + suc (suc s)) ≡ word_of_cc m.cpu.psw.condition_code
  saved-cc = ground arith

  saved-mode : (saved b s m).ram (b + suc (suc (suc s))) ≡ word_of_mode m.cpu.psw.mode
  saved-mode = ground arith

  saved-rb : (saved b s m).ram (b + suc (suc (suc (suc s)))) ≡ m.cpu.rb
  saved-rb = ground arith

  saved-rl : (saved b s m).ram (b + suc (suc (suc (suc (suc s))))) ≡ m.cpu.rl
  saved-rl = ground arith

  saved-rx : (saved b s m).ram (b + suc (suc (suc (suc (suc (suc s)))))) ≡ m.cpu.rx
  saved-rx = ground arith

pub saved-IsSaved : (b l s : ℕ) (m : Machine) → HasRoom b l s m → IsSaved b l s (saved b s m)
saved-IsSaved b l s m v = record {
  place = record {
    user = v.place.user;
    base = v.place.base;
    limit = v.place.limit;
    inside = v.place.inside;
  };
  stack = refl;
  fits = v.fits;
  mode = ap mode_of_word (saved-mode b s m ∙ ap word_of_mode v.place.user);
  base = saved-rb b s m ∙ v.place.base;
  limit = saved-rl b s m ∙ v.place.limit;
}

cc_of_word-word_of_cc : (c : ConditionCode) → IsProper c → cc_of_word (word_of_cc c) ≡ c
cc_of_word-word_of_cc cc_zero h = refl
cc_of_word-word_of_cc cc_neg h = refl
cc_of_word-word_of_cc cc_pos h = refl
cc_of_word-word_of_cc cc_overflow h = refl
cc_of_word-word_of_cc (cc_other w) h = absurd h

mode_of_word-user : (c : OpMode) → c ≡ mode_user → mode_of_word (word_of_mode c) ≡ c
mode_of_word-user c e = ap (λ x. mode_of_word (word_of_mode x)) e ∙ sym e

pub restored-saved :
    (code : InterruptCode) (b l s : ℕ) (m : Machine)
    → HasRoom b l s m
    → keeps_ac code ≡ false
    → (restored code b s (saved b s m)).cpu ≡ m.cpu
restored-saved code b l s m v k =
    rw
      (
        saved-ac b s m,
        saved-pc b s m,
        saved-cc b s m,
        saved-mode b s m,
        saved-rb b s m,
        saved-rl b s m,
        saved-rx b s m,
        cc_of_word-word_of_cc m.cpu.psw.condition_code v.code,
        mode_of_word-user m.cpu.psw.mode v.place.user,
        k,
      )
      (ap (λ z. record m.cpu { sp = z }) (ap pos (omega arith) ∙ sym v.stack))

-- For a program in user mode with room for seven words on its stack, and with words in AC, RX and PC
-- that memory takes, saving the registers and restoring them gives every register back, and leaves
-- all else but RAM unchanged. The code is one of those whose handler does not set AC.
pub restore_context-save_context :
    (code : InterruptCode) (b l s : ℕ) (m : Machine)
    → HasRoom b l s m
    → keeps_ac code ≡ false
    → restore_context code (save_context m) ≡ record m { ram = (saved b s m).ram }
restore_context-save_context code b l s m v k =
    ap (restore_context code) (save_context_lem b l s m v)
    ∙ restore_context_lem code b l s (saved b s m) (saved-IsSaved b l s m v)
    ∙ ap (λ c. record m { cpu = c; ram = (saved b s m).ram }) (restored-saved code b l s m v k)
