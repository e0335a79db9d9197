-- ===== src/Base/Int.antt =====
-- Signed integers over the native numbers, and C's arithmetic on `int32_t` and `int64_t`: division
-- and remainder that round towards zero, and the conversions that wrap.
use project_lucario.Base.{
  ℕ, zero, suc, ◌+◌, ◌-◌, ◌*◌, ◌/◌, ◌%◌, ◌^◌, ◌≤◌, ◌<◌, ◌≡◌, refl, Bool, true, false, ◌&&◌, xor,
  arith, ltb, leb, ◌==◌, if◌then◌else◌,
}

-- `negsuc n` is -(n + 1).
pub data ℤ : Type 0 where
  pos : ℕ → ℤ
  negsuc : ℕ → ℤ

abbrev pub pos_part : ℤ → ℕ
pos_part (pos n) = n
pos_part (negsuc n) = 0

abbrev pub neg_part : ℤ → ℕ
neg_part (pos n) = 0
neg_part (negsuc n) = suc n

-- a - b, as an integer.
abbrev pub sub_ℕ : ℕ → ℕ → ℤ
sub_ℕ a b = if leb b a then pos (a - b) else negsuc (b - a - 1)

infixl 65 ◌+ℤ◌ ◌-ℤ◌
infixl 70 ◌*ℤ◌
infix 50 ◌≤ℤ◌ ◌<ℤ◌
unfoldable pub ◌+ℤ◌ : ℤ → ℤ → ℤ
a +ℤ b = sub_ℕ (pos_part a + pos_part b) (neg_part a + neg_part b)

unfoldable pub ◌-ℤ◌ : ℤ → ℤ → ℤ
a -ℤ b = sub_ℕ (pos_part a + neg_part b) (neg_part a + pos_part b)

unfoldable pub ◌*ℤ◌ : ℤ → ℤ → ℤ
a *ℤ b =
    sub_ℕ (pos_part a * pos_part b + neg_part a * neg_part b)
      (pos_part a * neg_part b + neg_part a * pos_part b)

abbrev pub ◌≤ℤ◌ : ℤ → ℤ → Type 0
a ≤ℤ b = pos_part a + neg_part b ≤ pos_part b + neg_part a

abbrev pub ◌<ℤ◌ : ℤ → ℤ → Type 0
a <ℤ b = pos_part a + neg_part b < pos_part b + neg_part a

abbrev pub ltb_ℤ : ℤ → ℤ → Bool
ltb_ℤ a b = ltb (pos_part a + neg_part b) (pos_part b + neg_part a)

abbrev pub leb_ℤ : ℤ → ℤ → Bool
leb_ℤ a b = leb (pos_part a + neg_part b) (pos_part b + neg_part a)

abbrev pub eqb_ℤ : ℤ → ℤ → Bool
eqb_ℤ a b = (pos_part a + neg_part b) == (pos_part b + neg_part a)

-- -n
abbrev pub neg : ℕ → ℤ
neg zero = pos 0
neg (suc n) = negsuc n

abbrev pub abs : ℤ → ℕ
abs (pos n) = n
abs (negsuc n) = suc n

abbrev pub is_neg : ℤ → Bool
is_neg (pos n) = false
is_neg (negsuc n) = true

-- The integer of a sign and a magnitude.
abbrev pub signed : Bool → ℕ → ℤ
signed b n = if b then neg n else pos n

-- C's `/` and `%`, which round towards zero.
unfoldable pub tdiv : ℤ → ℤ → ℤ
tdiv a b = signed (xor (is_neg a) (is_neg b)) (abs a / abs b)

unfoldable pub tmod : ℤ → ℤ → ℤ
tmod a b = signed (is_neg a) (abs a % abs b)

-- The conversions to `uint32_t`, `int32_t` and `uint64_t`.
unfoldable pub uint32 : ℤ → ℕ
uint32 (pos n) = n % 2 ^ 32
uint32 (negsuc n) = 2 ^ 32 - 1 - n % 2 ^ 32

unfoldable pub int32 : ℤ → ℤ
unfolding uint32
int32 z = let u = uint32 z in if ltb u (2 ^ 31) then pos u else negsuc (2 ^ 32 - 1 - u)

unfoldable pub uint64 : ℤ → ℕ
uint64 (pos n) = n % 2 ^ 64
uint64 (negsuc n) = 2 ^ 64 - 1 - n % 2 ^ 64

-- A sum and a difference of two `int`s, wrapped.
unfoldable pub add32 : ℤ → ℤ → ℤ
unfolding int32
add32 a b = int32 (a +ℤ b)

unfoldable pub sub32 : ℤ → ℤ → ℤ
unfolding int32
sub32 a b = int32 (a -ℤ b)

abbrev pub IsInt32 : ℤ → Type 0
IsInt32 z = (neg_part z ≤ 2 ^ 31) × (pos_part z < 2 ^ 31)

pub int32_id : (z : ℤ) → IsInt32 z → int32 z ≡ z
unfolding int32
int32_id (pos n) h = ground arith
int32_id (negsuc n) h = ground arith

pub int32-IsInt32 : (z : ℤ) → IsInt32 (int32 z)
unfolding int32
int32-IsInt32 (pos n) = ground arith
int32-IsInt32 (negsuc n) = ground arith

pub +ℤ_parts :
    (a b : ℤ)
    → pos_part (a +ℤ b) + neg_part a + neg_part b ≡ neg_part (a +ℤ b) + pos_part a + pos_part b
unfolding ◌+ℤ◌
+ℤ_parts a b = ground arith

pub -ℤ_parts :
    (a b : ℤ)
    → pos_part (a -ℤ b) + neg_part a + pos_part b ≡ neg_part (a -ℤ b) + pos_part a + neg_part b
unfolding ◌-ℤ◌
-ℤ_parts a b = ground arith

-- One part of an integer is zero.
pub +ℤ_normal : (a b : ℤ) → (pos_part (a +ℤ b) ≤ pos_part a + pos_part b)
unfolding ◌+ℤ◌
+ℤ_normal a b = ground arith

pub -ℤ_normal : (a b : ℤ) → (pos_part (a -ℤ b) ≤ pos_part a + neg_part b)
unfolding ◌-ℤ◌
-ℤ_normal a b = ground arith

pub eq_of_parts : (a b : ℤ) → pos_part a + neg_part b ≡ pos_part b + neg_part a → a ≡ b
eq_of_parts a b h = ground arith

pub ruleset int_laws = (arith, +ℤ_parts, -ℤ_parts, +ℤ_normal, -ℤ_normal, eq_of_parts)

pub add32_id : (a b : ℤ) → IsInt32 (a +ℤ b) → add32 a b ≡ a +ℤ b
unfolding add32
add32_id a b h = int32_id (a +ℤ b) h

pub sub32_id : (a b : ℤ) → IsInt32 (a -ℤ b) → sub32 a b ≡ a -ℤ b
unfolding sub32
sub32_id a b h = int32_id (a -ℤ b) h
