-- ===== src/Words/RoundTrip.antt =====
-- What the two conversions of src/hardware/cpu.c compute, and that they invert one another.
use project_lucario.Base.{◌+◌, ◌^◌, ◌≤◌, ◌<◌, ◌≡◌, ◌≢◌, arith}
use project_lucario.Base.Int.{ℤ, pos, negsuc, abs, tmod, ◌≤ℤ◌}
use project_lucario.Machine.{sign_bit, max_magnitude}
use project_lucario.Words.{word_to_int, int_to_word, word_of, cc_of}

-- The magnitudes that have a negation among the `int`s.
abbrev pub IsOrdinary : ℤ → Type 0
IsOrdinary z = abs z < 2 ^ 31

-- A word of the architecture, with no "-0": 0 to 9999999, or 10000001 to 19999999.
abbrev pub IsCanonical : ℤ → Type 0
IsCanonical w = (pos 0 ≤ℤ w) × (w ≤ℤ pos (sign_bit + max_magnitude)) × (w ≢ pos sign_bit)

-- `intToWord` keeps the last seven digits of any `int` but the least one, in sign and magnitude with
-- no "-0", and its condition code is the sign of the number, or overflow beyond seven digits.
pub int_to_word_lem :
    (z : ℤ) → IsOrdinary z → int_to_word z ≡ (word_of (tmod z (pos sign_bit)), cc_of z)
unfolding int_to_word
int_to_word_lem (pos n) h = ground arith
int_to_word_lem (negsuc n) h = ground arith

pub int_to_word_fits : (z : ℤ) → abs z ≤ max_magnitude → int_to_word z ≡ (word_of z, cc_of z)
unfolding int_to_word
int_to_word_fits (pos n) h = ground arith
int_to_word_fits (negsuc n) h = ground arith

pub word_to_int-word_of : (z : ℤ) → abs z ≤ max_magnitude → word_to_int (word_of z) ≡ z
unfolding word_to_int
word_to_int-word_of (pos n) h = ground arith
word_to_int-word_of (negsuc n) h = ground arith

-- `wordToInt` of any word, valid or not, has at most seven digits.
pub abs-word_to_int : (w : ℤ) → abs (word_to_int w) ≤ max_magnitude
unfolding word_to_int
abs-word_to_int (pos n) = ground arith
abs-word_to_int (negsuc n) = ground arith

-- A number of at most seven digits survives the way into a word and back.
pub word_to_int-int_to_word : (z : ℤ) → abs z ≤ max_magnitude → word_to_int (int_to_word z).0 ≡ z
unfolding int_to_word word_to_int
word_to_int-int_to_word (pos n) h = ground arith
word_to_int-int_to_word (negsuc n) h = ground arith

-- A canonical word survives the way into an `int` and back.
int_to_word-word_to_int : (w : ℤ) → IsCanonical w → (int_to_word (word_to_int w)).0 ≡ w
unfolding int_to_word word_to_int
int_to_word-word_to_int (pos n) h = ground arith
int_to_word-word_to_int (negsuc n) h = ground arith

word_of-IsCanonical : (z : ℤ) → IsCanonical (word_of (tmod z (pos sign_bit)))
unfolding tmod
word_of-IsCanonical (pos n) = ground arith
word_of-IsCanonical (negsuc n) = ground arith

-- What `intToWord` returns is canonical, at every `int` but the least one.
pub int_to_word-IsCanonical : (z : ℤ) → IsOrdinary z → IsCanonical (int_to_word z).0
int_to_word-IsCanonical z h = rw (int_to_word_lem z h) (word_of-IsCanonical z)
