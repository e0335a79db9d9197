-- ===== src/Words.antt =====
-- Machine words, in sign and magnitude (src/hardware/cpu.c, inc/definitions.h): `wordToInt` and
-- `intToWord`. The condition code that `intToWord` writes through its pointer is the second part of
-- its result.
pub mod RoundTrip
use project_lucario.Base.{ℕ, suc, ◌+◌, Bool, ◌&&◌, not, leb, if◌then◌else◌}
use project_lucario.Base.Int.{ℤ, pos, negsuc, ◌+ℤ◌, ◌-ℤ◌, tmod, int32, ltb_ℤ, leb_ℤ, eqb_ℤ}
use project_lucario.Machine.{
  ConditionCode, cc_zero, cc_neg, cc_pos, cc_overflow, sign_bit, max_magnitude,
}

-- `IS_NEGATIVE(w)`
abbrev pub is_negative : ℤ → Bool
is_negative w = leb_ℤ (pos sign_bit) w

-- `GET_MAGNITUDE(w)`
unfoldable pub get_magnitude : ℤ → ℤ
unfolding tmod
get_magnitude w = tmod w (pos sign_bit)

unfoldable pub word_to_int : ℤ → ℤ
unfolding get_magnitude ◌-ℤ◌
word_to_int w = if is_negative w then pos 0 -ℤ get_magnitude w else get_magnitude w

-- "-0" is normalised to 0.
abbrev pub with_sign : Bool → ℤ → ℤ
with_sign negative magnitude =
    if negative && not (eqb_ℤ magnitude (pos 0)) then magnitude +ℤ pos sign_bit else magnitude

-- `-intValue` wraps at the least `int`.
unfoldable pub int_to_word : ℤ → ℤ × ConditionCode
unfolding int32 tmod ◌+ℤ◌ ◌-ℤ◌
int_to_word z =
    let int_value = int32 z in
    let magnitude = if leb_ℤ (pos 0) int_value then int_value else int32 (pos 0 -ℤ int_value) in
    let negative = ltb_ℤ int_value (pos 0) in
    if ltb_ℤ (pos max_magnitude) magnitude
    then (with_sign negative (tmod magnitude (pos (max_magnitude + 1))), cc_overflow)
    else (
      with_sign negative magnitude,
      if eqb_ℤ int_value (pos 0) then cc_zero else if negative then cc_neg else cc_pos,
    )

-- The sign and magnitude form of a number, and the condition code of a result, which the theorems
-- compare the code with.
abbrev pub word_of : ℤ → ℤ
word_of (pos n) = pos n
word_of (negsuc n) = pos (sign_bit + suc n)

abbrev pub cc_of : ℤ → ConditionCode
cc_of (pos n) = if leb n max_magnitude then sign_code n else cc_overflow
  where
    sign_code : ℕ → ConditionCode
    sign_code k = if leb k 0 then cc_zero else cc_pos
cc_of (negsuc n) = if leb (suc n) max_magnitude then cc_neg else cc_overflow
