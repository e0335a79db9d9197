-- ===== src/Step/Reading.antt =====
-- Service 3 with the monitor open: the number typed, on its way to the program (src/kernel/syscalls.c,
-- src/hardware/cpu.c).
use project_lucario.Base.{
  ℕ, suc, ◌+◌, ◌≤◌, ◌<◌, ◌≡◌, refl, ap, ◌∙◌, arith, Bool, true, false, update, if◌then◌else◌, ◌||◌,
}
use project_lucario.Base.Int.{ℤ, pos, pos_part, int32, ltb_ℤ, ◌-ℤ◌}
use project_lucario.Machine.{
  Machine, Cpu, Outside, syscall_success, ic_syscall, mode_of_word, max_magnitude, ConditionCode,
  set_cc, input_read, input_truncated,
}
use project_lucario.Words.{word_to_int, int_to_word}
use project_lucario.Memory.{write_memory, is_valid_instruction}
use project_lucario.Memory.Protection.{write_memory_allowed}
use project_lucario.Context.Stack.{InPartition, translate-slot, slot-IsAllowed}
use project_lucario.Context.Saving.{HasRoom, HasRoom-masked, saved}
use project_lucario.Context.RoundTrip.{IsSaved, saved-IsSaved}
use project_lucario.Syscalls.{
  handle_syscall, read_value, monitor_save_history, current_pid, scan_number, block_on_monitor,
}
use project_lucario.Step.{service, after_syscall}
use project_lucario.Step.Services.{cleared, masked, service-resumed}

-- Service 3 with the monitor open.
abbrev typed : Outside → ℤ × ConditionCode
typed o = int_to_word (int32 (scan_number o.typing))

pub write_cell :
    (b l s : ℕ) (w : ℤ) (m : Machine)
    → InPartition b l m
    → b + s ≤ l
    → is_valid_instruction w ≡ true
    → (write_memory (pos s) w m).1 ≡ record m { ram = update m.ram (b + s) w }
write_cell b l s w m v f valid =
    ap (λ r. r.1) (write_memory_allowed m (pos s) w (slot-IsAllowed b l s m v f) valid)
    ∙ ap (λ z. record m { ram = update m.ram (pos_part z) w }) (translate-slot b l s m v f)

write_slot :
    (b l s : ℕ) (w : ℤ) (m : Machine)
    → InPartition b l m
    → m.cpu.sp ≡ pos s
    → b + s ≤ l
    → is_valid_instruction w ≡ true
    → (write_memory m.cpu.sp w m).1 ≡ record m { ram = update m.ram (b + s) w }
write_slot b l s w m v e f valid =
    ap (λ z. (write_memory z w m).1) e ∙ write_cell b l s w m v f valid

-- The machine with the word typed in the cell of the saved accumulator.
record HasTyped (b s : ℕ) (o : Outside) (m h : Machine) : Type 0 where
  ram : h.ram ≡ update m.ram (b + s) (typed o).0
  cpu : h.cpu ≡ record m.cpu { psw = record m.cpu.psw { condition_code = (typed o).1 } }

module _ (o : Outside) (b l s : ℕ) (m : Machine) (v : InPartition b l m) (e : m.cpu.sp ≡ pos s)
    (f : b + s ≤ l) (valid : is_valid_instruction (typed o).0 ≡ true) where
  -- The two lines of the history, the first one where the number is too long.
  abbrev listed : Bool → Machine
  listed too_long =
      monitor_save_history (input_read (current_pid m) (int32 (scan_number o.typing)))
        (if too_long then monitor_save_history (input_truncated (current_pid m)) m else m)

  HasTyped-listed :
      (too_long : Bool)
      → HasTyped b s o m
          (write_memory
            (listed too_long).cpu.sp
            (typed o).0
            (set_cc (typed o).1 (listed too_long))).1
  unfolding monitor_save_history
  HasTyped-listed true =
      let w =
        write_slot b l s (typed o).0 (set_cc (typed o).1 (listed true))
          (record { user = v.user; base = v.base; limit = v.limit; inside = v.inside }) e f valid in
      record { ram = ap (λ (x : Machine). x.ram) w; cpu = ap (λ (x : Machine). x.cpu) w }
  HasTyped-listed false =
      let w =
        write_slot b l s (typed o).0 (set_cc (typed o).1 (listed false))
          (record { user = v.user; base = v.base; limit = v.limit; inside = v.inside }) e f valid in
      record { ram = ap (λ (x : Machine). x.ram) w; cpu = ap (λ (x : Machine). x.cpu) w }

  handle_syscall-read :
      word_to_int m.cpu.ac ≡ pos 3
      → m.monitor_active ≡ true
      → (h : Machine) × (handle_syscall o m ≡ (syscall_success, h)) × HasTyped b s o m h
  unfolding handle_syscall read_value
  handle_syscall-read ac active =
      let n = scan_number o.typing in
      let too_long = ltb_ℤ (pos max_magnitude) n || ltb_ℤ n (pos 0 -ℤ pos max_magnitude) in
      let h =
        (write_memory (listed too_long).cpu.sp (typed o).0
          (set_cc (typed o).1 (listed too_long))).1 in
      (
        h,
        rw ac refl ∙ ap (λ c. if c then (syscall_success, h) else block_on_monitor o m) active,
        HasTyped-listed too_long,
      )

-- The six words above the accumulator's stay as `saveContext` wrote them.
typed-IsSaved :
    (b l s : ℕ) (o : Outside) (m h : Machine)
    → IsSaved b l s m
    → HasTyped b s o m h
    → IsSaved b l s (cleared h)
typed-IsSaved b l s o m h v t = record {
  place = record {
    user = ap (λ (c : Cpu). c.psw.mode) t.cpu ∙ v.place.user;
    base = ap (λ (c : Cpu). c.rb) t.cpu ∙ v.place.base;
    limit = ap (λ (c : Cpu). c.rl) t.cpu ∙ v.place.limit;
    inside = v.place.inside;
  };
  stack = ap (λ (c : Cpu). c.sp) t.cpu ∙ v.stack;
  fits = v.fits;
  mode = ap mode_of_word (above (suc (suc (suc s))) (omega arith)) ∙ v.mode;
  base = above (suc (suc (suc (suc s)))) (omega arith) ∙ v.base;
  limit = above (suc (suc (suc (suc (suc s))))) (omega arith) ∙ v.limit;
}
  where
    above : (i : ℕ) → s < i → h.ram (b + i) ≡ m.ram (b + i)
    above i p = ap (λ r. r (b + i)) t.ram ∙ ground arith

-- A number that is typed for service 3 reaches the program: for a program in user mode with room for
-- seven words on its stack, with words in its registers that memory takes and 3 in the accumulator,
-- and with the monitor open, the accumulator holds after the interrupt the word of the number, cut to
-- an `int`, if memory takes that word.
pub service-read :
    (o : Outside) (b l s : ℕ) (m : Machine)
    → HasRoom b l s m
    → word_to_int m.cpu.ac ≡ pos 3
    → m.monitor_active ≡ true
    → is_valid_instruction (typed o).0 ≡ true
    → ((service ic_syscall o m).0 ≡ true)
      × ((service ic_syscall o m).1.cpu.ac ≡ (int_to_word (int32 (scan_number o.typing))).0)
unfolding after_syscall
service-read o b l s m v ac active valid =
    let before = saved-IsSaved b l s (masked o b l s m v) (HasRoom-masked b l s m false v) in
    let (h, called, t) =
      handle_syscall-read o b l s (saved b s (masked o b l s m v)) before.place refl
        (omega (arith, v.fits)) valid ac active in
    let done =
      service-resumed o b l s m v syscall_success h called refl
        (typed-IsSaved b l s o (saved b s (masked o b l s m v)) h before t) in
    (ap (λ r. r.0) done, ap (λ r. r.1.cpu.ac) done ∙ ap (λ r. r (b + s)) t.ram ∙ ground arith)
