-- ===== src/Isolation/Undisturbed.antt =====
-- What writes and pushes of a program in user mode leave alone (src/hardware/memory.c,
-- src/hardware/cpu.c): a cell outside its partition, and the registers of the protection.
use project_lucario.Base.{ℕ, ◌≡◌, refl, ap, ◌∙◌, subst, arith, Bool, true, false, if◌then◌else◌}
use project_lucario.Base.Int.{ℤ, pos, ◌≤ℤ◌, sub32}
use project_lucario.Machine.{Machine, OpMode, is_kernel, Pcb, Message}
use project_lucario.Memory.{write_memory}
use project_lucario.Memory.Protection.{write_memory_isolated}
use project_lucario.Context.{push_field, internal_push, save_context}
use project_lucario.Syscalls.{update_current, monitor_save_history}
use project_lucario.Isolation.{IsForeign}
use project_lucario.Isolation.Registers.{guards, guards-write_memory}

-- Cell `i` and the registers of the protection are as before.
pub record Undisturbed (i : ℕ) (m m' : Machine) : Type 0 where
  pub cell : m'.ram i ≡ m.ram i
  pub kept : guards m' ≡ guards m

module _ (i : ℕ) where
  pub Undisturbed-refl : (m : Machine) → Undisturbed i m m
  Undisturbed-refl m = record { cell = refl; kept = refl }

  pub Undisturbed-trans :
      {m1 m2 m3 : Machine} → Undisturbed i m1 m2 → Undisturbed i m2 m3 → Undisturbed i m1 m3
  Undisturbed-trans a b = record { cell = b.cell ∙ a.cell; kept = b.kept ∙ a.kept }

  pub IsForeign-guards : {m x : Machine} → guards x ≡ guards m → IsForeign m i → IsForeign x i
  IsForeign-guards e f = record {
    user = ap (λ (g : OpMode × ℤ × ℤ). is_kernel g.0) e ∙ f.user;
    foreign = λ p. f.foreign (subst (λ (g : OpMode × ℤ × ℤ). (g.1 ≤ℤ pos i) × (pos i ≤ℤ g.2)) e p);
  }

  Undisturbed-write_memory :
      (a w : ℤ) (m : Machine) → IsForeign m i → Undisturbed i m (write_memory a w m).1
  Undisturbed-write_memory a w m f = record {
    cell = write_memory_isolated m a w i f.user f.foreign;
    kept = guards-write_memory a w m;
  }

  Undisturbed-update_current : (h : Pcb → Pcb) (m : Machine) → Undisturbed i m (update_current h m)
  unfolding update_current
  Undisturbed-update_current h m = ground arith

  module _ {m : Machine} (f : IsForeign m i) where
    pub then_write :
        {x : Machine} (a w : ℤ) → Undisturbed i m x → Undisturbed i m (write_memory a w x).1
    then_write {x} a w k =
        Undisturbed-trans k (Undisturbed-write_memory a w x (IsForeign-guards k.kept f))

    then_push :
        {x : Machine} (get : Machine → ℤ) → Undisturbed i m x → Undisturbed i m (push_field get x)
    unfolding push_field internal_push
    then_push {x} get k =
        then_write (sub32 x.cpu.sp (pos 1)) (get x) (record { cell = k.cell; kept = k.kept })

    pub then_save_context : {x : Machine} → Undisturbed i m x → Undisturbed i m (save_context x)
    unfolding save_context
    then_save_context k =
        then_push _
          (then_push _ (then_push _ (then_push _ (then_push _ (then_push _ (then_push _ k))))))

    pub then_update_current :
        {x : Machine} (h : Pcb → Pcb) → Undisturbed i m x → Undisturbed i m (update_current h x)
    then_update_current {x} h k = Undisturbed-trans k (Undisturbed-update_current h x)

  pub Undisturbed-saved_line :
      (line : Message) (m : Machine) → Undisturbed i m (monitor_save_history line m)
  unfolding monitor_save_history
  Undisturbed-saved_line line m = record { cell = refl; kept = refl }

  pub Undisturbed-if {ℓ} :
      {A : Type ℓ} (m : Machine) (b : Bool) (x y : A × Machine)
      → Undisturbed i m x.1
      → Undisturbed i m y.1
      → Undisturbed i m (if b then x else y).1
  Undisturbed-if m true x y kx ky = kx
  Undisturbed-if m false x y kx ky = ky
