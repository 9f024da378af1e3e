-- ===== src/Base/Int.antt =====
-- C's `int` and `int64_t` as integers, with their ranges, their bit patterns and their tests.
use Prim.Native.Nat.{ℕ, suc, ◌+◌, ◌-◌, ◌*◌, ◌/◌, ◌%◌, ◌^◌, ◌≤◌, ◌<◌}
use mathlib.Core.Path.{◌≡◌, ap}
use mathlib.Core.Logic.{◌↔◌}
use mathlib.Core.Bool.{Bool, true, false}
use native.Mathlib.Omega.{arith}
use mini_asm.Base.Tests.{ltb, leb, ◌==◌, if◌then◌else◌}

-- `negsuc n` is -(n + 1).
pub data ℤ : Type 0 where
  pos : ℕ → ℤ
  negsuc : ℕ → ℤ

abbrev pub pos_part : ℤ → ℕ
pos_part (pos n) = n
pos_part (negsuc n) = 0

abbrev pub neg_part : ℤ → ℕ
neg_part (pos n) = 0
neg_part (negsuc n) = suc n

-- a - b, as an integer.
abbrev pub sub_ℕ : ℕ → ℕ → ℤ
sub_ℕ a b = if leb b a then pos (a - b) else negsuc (b - a - 1)

infixl 65 ◌+ℤ◌ ◌-ℤ◌
infixl 70 ◌*ℤ◌
infix 50 ◌≤ℤ◌
unfoldable pub ◌+ℤ◌ : ℤ → ℤ → ℤ
a +ℤ b = sub_ℕ (pos_part a + pos_part b) (neg_part a + neg_part b)

unfoldable pub ◌-ℤ◌ : ℤ → ℤ → ℤ
a -ℤ b = sub_ℕ (pos_part a + neg_part b) (neg_part a + pos_part b)

unfoldable pub ◌*ℤ◌ : ℤ → ℤ → ℤ
a *ℤ b =
    sub_ℕ (pos_part a * pos_part b + neg_part a * neg_part b)
      (pos_part a * neg_part b + neg_part a * pos_part b)

abbrev pub ◌≤ℤ◌ : ℤ → ℤ → Type 0
a ≤ℤ b = pos_part a + neg_part b ≤ pos_part b + neg_part a

abbrev pub ltb_ℤ : ℤ → ℤ → Bool
ltb_ℤ (pos a) (pos b) = ltb a b
ltb_ℤ (pos a) (negsuc b) = false
ltb_ℤ (negsuc a) (pos b) = true
ltb_ℤ (negsuc a) (negsuc b) = ltb b a

abbrev pub eq_ℤ : ℤ → ℤ → Bool
eq_ℤ (pos a) (pos b) = a == b
eq_ℤ (negsuc a) (negsuc b) = a == b
eq_ℤ _ _ = false

pub eq_ℤ_iff : (a b : ℤ) → (eq_ℤ a b ≡ true) ↔ (a ≡ b)
eq_ℤ_iff a b = ground arith

abbrev pub max_ℤ : ℤ → ℤ → ℤ
max_ℤ a b = if ltb_ℤ a b then b else a

-- 2 ^ 64 and 2 ^ 63, 2 ^ 32 and 2 ^ 31.
abbrev pub u64_mod : ℕ
u64_mod = 18446744073709551616

abbrev pub i64_min_abs : ℕ
i64_min_abs = 9223372036854775808

abbrev pub u32_mod : ℕ
u32_mod = 4294967296

abbrev pub i32_min_abs : ℕ
i32_min_abs = 2147483648

-- The values of an `int`.
abbrev pub IsInt : ℤ → Type 0
IsInt (pos n) = n < i32_min_abs
IsInt (negsuc n) = n < i32_min_abs

-- The values of an `int64_t`.
abbrev pub IsInt64 : ℤ → Type 0
IsInt64 (pos n) = n < i64_min_abs
IsInt64 (negsuc n) = n < i64_min_abs

-- `(uint64_t)z`.
abbrev pub to_u64 : ℤ → ℕ
to_u64 (pos n) = n % u64_mod
to_u64 (negsuc n) = u64_mod - 1 - n % u64_mod

-- `(int64_t)w` of a 64-bit pattern.
abbrev pub to_i64 : ℕ → ℤ
to_i64 w = if ltb w i64_min_abs then pos w else negsuc (u64_mod - 1 - w)

-- `(int)z` of an `int64_t`: the low 32 bits, read as a signed number.
abbrev pub to_int : ℤ → ℤ
to_int z =
    let w = to_u64 z % u32_mod in if ltb w i32_min_abs then pos w else negsuc (u32_mod - 1 - w)

-- Narrowing keeps exactly the values that fit.
pub to_int_iff : (z : ℤ) → IsInt64 z → (to_int z ≡ z) ↔ IsInt z
to_int_iff (pos n) h = ground arith
to_int_iff (negsuc n) h = ground arith

pub to_int-IsInt64 : (z : ℤ) → IsInt64 (to_int z)
to_int-IsInt64 (pos n) = ground arith
to_int-IsInt64 (negsuc n) = ground arith

pub to_i64-to_u64 : (z : ℤ) → IsInt64 z → to_i64 (to_u64 z) ≡ z
to_i64-to_u64 (pos n) h = ground arith
to_i64-to_u64 (negsuc n) h = ground arith

pub to_u64-to_i64 : (w : ℕ) → w < u64_mod → to_u64 (to_i64 w) ≡ w
to_u64-to_i64 w h = ground arith

pub to_u64-lt : (z : ℤ) → to_u64 z < u64_mod
to_u64-lt (pos n) = omega arith
to_u64-lt (negsuc n) = omega arith

-- C's `/` and `%` on signed numbers, which round towards zero.
unfoldable pub quot_ℤ : ℤ → ℤ → ℤ
quot_ℤ (pos a) (pos b) = pos (a / b)
quot_ℤ (pos a) (negsuc b) = sub_ℕ 0 (a / suc b)
quot_ℤ (negsuc a) (pos b) = sub_ℕ 0 (suc a / b)
quot_ℤ (negsuc a) (negsuc b) = pos (suc a / suc b)

unfoldable pub rem_ℤ : ℤ → ℤ → ℤ
rem_ℤ (pos a) b = pos (a % (pos_part b + neg_part b))
rem_ℤ (negsuc a) b = sub_ℕ 0 (suc a % (pos_part b + neg_part b))

-- `z >> k` of a signed number, which rounds down.
unfoldable pub shr_ℤ : ℤ → ℕ → ℤ
shr_ℤ (pos a) k = pos (a / 2 ^ k)
shr_ℤ (negsuc a) k = negsuc (a / 2 ^ k)

pub shr_ℤ-zero : (z : ℤ) → shr_ℤ z 0 ≡ z
unfolding shr_ℤ
shr_ℤ-zero (pos n) = ap pos (omega arith)
shr_ℤ-zero (negsuc n) = ap negsuc (omega arith)
