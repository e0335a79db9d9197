-- ===== src/Alu.antt =====
-- The arithmetic instructions compute the operation on the integers (src/hardware/cpu.c,
-- `executeArithmetic`, `executeComparison`).
use project_lucario.Base.{
  ◌+◌, ◌≤◌, ◌≡◌, refl, arith, Option, none, some, ltb, subst, if◌then◌else◌, ◌||◌, inl, inr,
  Bool-cases,
}
use project_lucario.Base.Int.{ℤ, pos, negsuc, abs, ◌+ℤ◌, ◌-ℤ◌, ◌*ℤ◌, tdiv, tmod, eqb_ℤ, ltb_ℤ}
use project_lucario.Machine.{
  Machine, Instruction, OpCode, op_sum, op_res, op_mult, op_divi, InstructionStatus, instr_success,
  instr_fail, cc_overflow, ic_overflow, ic_invalid_instr, max_magnitude, sign_bit, set_ac, set_cc,
}
use project_lucario.Words.{word_to_int, word_of, cc_of}
use project_lucario.Words.RoundTrip.{IsOrdinary, int_to_word_lem, int_to_word_fits, abs-word_to_int}
use project_lucario.Interrupt.{raise_interrupt, raise_interrupt_related}
use project_lucario.Cpu.{
  fetch_operand, compute, load_result, report_overflow, execute_arithmetic, compare_code,
  compare_operand, execute_comparison,
}

-- The result of an operation on the integers; a division by zero has none.
abbrev pub exact : OpCode → ℤ → ℤ → Option ℤ
exact op_sum a b = some (a +ℤ b)
exact op_res a b = some (a -ℤ b)
exact op_mult a b = some (a *ℤ b)
exact op_divi a b = if eqb_ℤ b (pos 0) then none else some (tdiv a b)
exact _ a b = none

-- The machine with a result: its last seven digits in AC, its sign or overflow in the condition code,
-- and the overflow interrupt with the whole result if it has more digits.
abbrev pub with_result : ℤ → Machine → Machine
with_result r m =
    let loaded = set_ac (word_of (tmod r (pos sign_bit))) (set_cc (cc_of r) m) in
    if ltb max_magnitude (abs r) then raise_interrupt_related ic_overflow r loaded else loaded

abs-+ℤ : (a b : ℤ) → abs (a +ℤ b) ≤ abs a + abs b
unfolding ◌+ℤ◌
abs-+ℤ a b = ground arith

abs--ℤ : (a b : ℤ) → abs (a -ℤ b) ≤ abs a + abs b
unfolding ◌-ℤ◌
abs--ℤ a b = ground arith

abs-tdiv : (a b : ℤ) → abs (tdiv a b) ≤ abs a
unfolding tdiv
abs-tdiv a b = ground arith

load_result_lem :
    (r : ℤ) (m : Machine)
    → IsOrdinary r
    → load_result r m ≡ set_ac (word_of (tmod r (pos sign_bit))) (set_cc (cc_of r) m)
unfolding load_result
load_result_lem r m h = rw (int_to_word_lem r h) refl

report_overflow_lem :
    (r : ℤ) (m : Machine)
    → IsOrdinary r
    → report_overflow r (load_result r m) ≡ (instr_success, with_result r m)
unfolding report_overflow
report_overflow_lem (pos n) m h = rw (load_result_lem (pos n) m h) (ground arith)
report_overflow_lem (negsuc n) m h = rw (load_result_lem (negsuc n) m h) (ground arith)

tmod-fits : (r : ℤ) → abs (tmod r (pos sign_bit)) ≤ max_magnitude
unfolding tmod
tmod-fits (pos n) = ground arith
tmod-fits (negsuc n) = ground arith

tmod-small : (r : ℤ) → abs r ≤ max_magnitude → tmod r (pos sign_bit) ≡ r
unfolding tmod
tmod-small (pos n) h = ground arith
tmod-small (negsuc n) h = ground arith

mult_result :
    (r : ℤ) (m : Machine)
    → report_overflow r (
        if ltb_ℤ (pos max_magnitude) r || ltb_ℤ r (pos 0 -ℤ pos max_magnitude)
        then set_cc cc_overflow (load_result (tmod r (pos (max_magnitude + 1))) m)
        else load_result (tmod r (pos (max_magnitude + 1))) m)
      ≡ (instr_success, with_result r m)
unfolding report_overflow load_result ◌-ℤ◌
mult_result (pos n) m =
    rw (int_to_word_fits (tmod (pos n) (pos sign_bit)) (tmod-fits (pos n)))
      (ground (arith, tmod-fits (pos n), tmod-small (pos n)))
mult_result (negsuc n) m =
    rw (int_to_word_fits (tmod (negsuc n) (pos sign_bit)) (tmod-fits (negsuc n)))
      (ground (arith, tmod-fits (negsuc n), tmod-small (negsuc n)))

by_result :
    (m : Machine) {x r : ℤ}
    → some x ≡ some r
    → {s : InstructionStatus × Machine} → s ≡ (instr_success, with_result x m)
    → s ≡ (instr_success, with_result r m)
by_result m {x} {r} e {s} h =
    let same : x ≡ r = cc in subst (λ y. s ≡ (instr_success, with_result y m)) same h

-- On operands of seven digits each operation puts the exact result, cut to seven digits, into the
-- accumulator, with its sign or overflow, and reports an overflow.
compute_lem :
    (op : OpCode) (a b : ℤ) (m : Machine) {r : ℤ}
    → abs a ≤ max_magnitude
    → abs b ≤ max_magnitude
    → exact op a b ≡ some r
    → compute op a b m ≡ (instr_success, with_result r m)
unfolding compute
compute_lem op_sum a b m ha hb e =
    by_result m e (report_overflow_lem (a +ℤ b) m (omega (arith, abs-+ℤ a b)))
compute_lem op_res a b m ha hb e =
    by_result m e (report_overflow_lem (a -ℤ b) m (omega (arith, abs--ℤ a b)))
compute_lem op_mult a b m ha hb e = by_result m e (mult_result (a *ℤ b) m)
compute_lem op_divi a b m ha hb e = elim (Bool-cases (eqb_ℤ b (pos 0))) [
  | inl z ↦ absurd (ground arith)
  | inr nz ↦
      rw nz
        (by_result m (rw nz at e) (report_overflow_lem (tdiv a b) m (omega (arith, abs-tdiv a b))))
]
compute_lem _ a b m ha hb e = cc

-- Each of SUM, RES, MULT and DIVI, once its operand is fetched, leaves the exact result of the
-- operation on the two integers: its last seven digits in AC, its sign or overflow in the condition
-- code, and the overflow interrupt pending, with the whole result, exactly if it has more digits. A
-- division by zero is not among the cases.
pub execute_arithmetic_lem :
    (inst : Instruction) (m : Machine) {m1 : Machine} {w r : ℤ}
    → fetch_operand inst m ≡ (some w, m1)
    → exact inst.op_code (word_to_int m1.cpu.ac) (word_to_int w) ≡ some r
    → execute_arithmetic inst m ≡ (instr_success, with_result r m1)
unfolding execute_arithmetic
execute_arithmetic_lem inst m {m1} {w} {r} f e = rw f (
    compute_lem inst.op_code (word_to_int m1.cpu.ac) (word_to_int w) m1 (abs-word_to_int m1.cpu.ac)
      (abs-word_to_int w) e)

-- DIVI, once its operand is fetched and is zero, changes no register but the condition code, which
-- becomes overflow, raises the instruction fault and fails.
pub divide_by_zero :
    (inst : Instruction) (m : Machine) {m1 : Machine} {w : ℤ}
    → inst.op_code ≡ op_divi
    → fetch_operand inst m ≡ (some w, m1)
    → word_to_int w ≡ pos 0
    → execute_arithmetic inst m
      ≡ (instr_fail, set_cc cc_overflow (raise_interrupt ic_invalid_instr m1))
unfolding execute_arithmetic compute
divide_by_zero inst m d f z = rw (f, d, z, compute) refl

compare_code-cc_of : (r : ℤ) → compare_code r ≡ cc_of r
unfolding compare_code ◌-ℤ◌
compare_code-cc_of (pos n) = ground arith
compare_code-cc_of (negsuc n) = ground arith

-- COMP, once its operand is fetched, changes nothing but the condition code, which becomes the one
-- of the difference of the two integers.
pub execute_comparison_lem :
    (inst : Instruction) (m : Machine) {m1 : Machine} {w : ℤ}
    → fetch_operand inst m ≡ (some w, m1)
    → execute_comparison inst m
      ≡ (instr_success, set_cc (cc_of (word_to_int m1.cpu.ac -ℤ word_to_int w)) m1)
unfolding execute_comparison compare_operand
execute_comparison_lem inst m {m1} {w} f =
    rw (f, compare_operand, compare_code-cc_of (word_to_int m1.cpu.ac -ℤ word_to_int w)) refl
