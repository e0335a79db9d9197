-- ===== src/Step/Overflow.antt =====
-- What a timer interrupt does to a program whose stack pointer is at 0 or 1 (src/hardware/cpu.c): the
-- pushes below the partition fail and are only logged, and the pops that fail give zeros.
use project_lucario.Base.{ℕ, zero, suc, ◌<◌, ◌≡◌, refl, sym, ap, ◌∙◌, subst, arith, false, ◌-◌}
use project_lucario.Base.Int.{ℤ, pos, negsuc, add32, sub32, int32, ◌+ℤ◌, ◌-ℤ◌}
use project_lucario.Machine.{
  Machine, Outside, mode_user, mode_of_word, cc_of_word, ic_timer, InterruptCode, ram_size, set_sp,
  set_pc, set_cc, set_mode, set_rb, set_interrupt_enable,
}
use project_lucario.Memory.{read_memory, write_memory}
use project_lucario.Context.{
  push_field, internal_push, pop_into, internal_pop, restore_ac, save_context, restore_context,
}
use project_lucario.Step.{service, handle_interrupt}

-- A program in user mode, its partition from `b` on, with the stack pointer `z`.
record IsAt (b : ℕ) (z : ℤ) (m : Machine) : Type 0 where
  user : m.cpu.psw.mode ≡ mode_user
  base : m.cpu.rb ≡ pos b
  stack : m.cpu.sp ≡ z

abbrev IsLow : ℕ → ℕ → Machine → Type 0
IsLow b k = IsAt b (negsuc k)

pop_low :
    (b k : ℕ) (m : Machine)
    → b < ram_size
    → k < 10
    → IsLow b (suc k) m
    → internal_pop m ≡ (pos 0, set_sp (negsuc k) m)
unfolding internal_pop read_memory add32 int32 ◌+ℤ◌
pop_low b k m h g v = ground arith

module _ (b k : ℕ) (m : Machine) (h : b < ram_size) (g : k < 10) (v : IsLow b (suc k) m) where
  pop_into_low : (put : ℤ → Machine → Machine) → pop_into put m ≡ put (pos 0) (set_sp (negsuc k) m)
  unfolding pop_into
  pop_into_low put = ap (λ (r : ℤ × Machine). put r.0 r.1) (pop_low b k m h g v)

  IsLow-popped :
      (put : ℤ → Machine → Machine)
      → IsLow b k (put (pos 0) (set_sp (negsuc k) m))
      → IsLow b k (pop_into put m)
  IsLow-popped put l = subst (IsLow b k) (sym (pop_into_low put)) l

-- The five pops up to the base register.
rb-restore_context :
    (b k : ℕ) (code : InterruptCode) (m : Machine)
    → b < ram_size
    → k < 3
    → IsLow b (suc (suc (suc (suc (suc k))))) m
    → (restore_context code m).cpu.rb ≡ pos 0
unfolding restore_context pop_into internal_pop
rb-restore_context b k code m h g v =
    let saved_ac =
      IsLow-popped b (suc (suc (suc (suc k)))) m h (ground arith) v (restore_ac code)
        (record { user = v.user; base = v.base; stack = refl }) in
    let saved_pc =
      IsLow-popped b (suc (suc (suc k))) _ h (ground arith) saved_ac set_pc
        (record { user = saved_ac.user; base = saved_ac.base; stack = refl }) in
    let saved_cc =
      IsLow-popped b (suc (suc k)) _ h (ground arith) saved_pc (λ w. set_cc (cc_of_word w))
        (record { user = saved_pc.user; base = saved_pc.base; stack = refl }) in
    let saved_mode =
      IsLow-popped b (suc k) _ h (ground arith) saved_cc (λ w. set_mode (mode_of_word w))
        (record { user = refl; base = saved_cc.base; stack = refl }) in
    ap (λ x. x.cpu.rb) (pop_into_low b k _ h (ground arith) saved_mode set_rb)

cpu-write_memory : (a w : ℤ) (m : Machine) → (write_memory a w m).1.cpu ≡ m.cpu
unfolding write_memory
cpu-write_memory a w m = ground arith

cpu-push_field :
    (get : Machine → ℤ) (m : Machine)
    → (push_field get m).cpu ≡ record m.cpu { sp = sub32 m.cpu.sp (pos 1) }
unfolding push_field internal_push
cpu-push_field get m = cpu-write_memory _ _ (set_sp (sub32 m.cpu.sp (pos 1)) m)

IsAt-push_field :
    (b : ℕ) (z : ℤ) (get : Machine → ℤ) (m : Machine)
    → IsAt b z m
    → IsAt b (sub32 z (pos 1)) (push_field get m)
IsAt-push_field b z get m v =
    let same = cpu-push_field get m in
    record {
      user = ap (λ c. c.psw.mode) same ∙ v.user;
      base = ap (λ c. c.rb) same ∙ v.base;
      stack = ap (λ c. c.sp) same ∙ ap (λ x. sub32 x (pos 1)) v.stack;
    }

abbrev below : ℕ → ℤ → ℤ
below zero z = z
below (suc n) z = sub32 (below n z) (pos 1)

IsAt-save_context : (b : ℕ) (z : ℤ) (m : Machine) → IsAt b z m → IsAt b (below 7 z) (save_context m)
unfolding save_context
IsAt-save_context b z m v = IsAt-push_field b _ _ _ (
    IsAt-push_field b _ _ _ (
      IsAt-push_field b _ _ _ (
        IsAt-push_field b _ _ _
          (IsAt-push_field b _ _ _ (IsAt-push_field b _ _ _ (IsAt-push_field b z _ m v))))))

-- With room for one word at most the stack pointer ends six or seven cells below zero.
below_zero : (s : ℕ) → s < 2 → below 7 (pos s) ≡ negsuc (suc (suc (suc (suc (suc (1 - s))))))
unfolding sub32 int32 ◌-ℤ◌
below_zero s h = ground arith

-- In user mode, with the base register in RAM and a stack pointer of 0 or 1, where the seven words do
-- not fit, the handling of a timer interrupt leaves 0 in the base register.
pub service_loses_base :
    (b s : ℕ) (o : Outside) (m : Machine)
    → b < ram_size
    → s < 2
    → m.cpu.psw.mode ≡ mode_user
    → m.cpu.rb ≡ pos b
    → m.cpu.sp ≡ pos s
    → (service ic_timer o m).1.cpu.rb ≡ pos 0
unfolding service handle_interrupt
service_loses_base b s o m h g user base stack =
    let v =
      IsAt-save_context b (pos s) (set_interrupt_enable false m)
        (record { user = user; base = base; stack = stack }) in
    rb-restore_context b (1 - s) ic_timer _ h (ground arith)
      (record { user = v.user; base = v.base; stack = v.stack ∙ below_zero s g })
