-- ===== src/Base/Bits.antt =====
-- The bitwise operations at a width, by their lowest digit.
use Prim.Native.Nat.{ℕ, zero, suc, ◌+◌, ◌-◌, ◌*◌, ◌/◌, ◌%◌, ◌^◌, ◌<◌}
use mathlib.Core.Path.{◌≡◌, refl}
use mathlib.Core.Logic.{◌⊎◌, inl, inr}
use mini_asm.Base.Int.{u64_mod}
use native.Mathlib.Nat.{pow-suc}
use native.Mathlib.Omega.{arith}

-- Digit by digit, for the lowest `w` digits.
unfoldable pub bitwise : (ℕ → ℕ → ℕ) → ℕ → ℕ → ℕ → ℕ
bitwise f zero a b = 0
bitwise f (suc w) a b = f (a % 2) (b % 2) + 2 * bitwise f w (a / 2) (b / 2)

abbrev pub and_bit : ℕ → ℕ → ℕ
and_bit zero b = 0
and_bit (suc a) b = b

abbrev pub or_bit : ℕ → ℕ → ℕ
or_bit zero b = b
or_bit (suc a) b = 1

abbrev pub xor_bit : ℕ → ℕ → ℕ
xor_bit zero b = b
xor_bit (suc a) b = 1 - b

-- Where every digit is kept, so is the number, up to the width.
bitwise-id_left :
    (f : ℕ → ℕ → ℕ) (w x y : ℕ)
    → ((b : ℕ) → b < 2 → f b 0 ≡ b)
    → x < 2 ^ w
    → y ≡ 0
    → bitwise f w x y ≡ x
unfolding bitwise
bitwise-id_left f zero x y h lt e = omega arith
bitwise-id_left f (suc w) x y h lt e = rw e (
    omega (
      arith,
      h (x % 2),
      pow-suc 2 w,
      bitwise-id_left f w (x / 2) 0 h (omega (arith, pow-suc 2 w)) refl,
    ))

bitwise-id_right :
    (f : ℕ → ℕ → ℕ) (w x y : ℕ)
    → ((b : ℕ) → b < 2 → f 0 b ≡ b)
    → x < 2 ^ w
    → y ≡ 0
    → bitwise f w y x ≡ x
unfolding bitwise
bitwise-id_right f zero x y h lt e = omega arith
bitwise-id_right f (suc w) x y h lt e = rw e (
    omega (
      arith,
      h (x % 2),
      pow-suc 2 w,
      bitwise-id_right f w (x / 2) 0 h (omega (arith, pow-suc 2 w)) refl,
    ))

pub bitwise-null :
    (f : ℕ → ℕ → ℕ) (w x y : ℕ)
    → ((b c : ℕ) → (b ≡ 0) ⊎ (c ≡ 0) → f b c ≡ 0)
    → (x ≡ 0) ⊎ (y ≡ 0)
    → bitwise f w x y ≡ 0
unfolding bitwise
bitwise-null f zero x y h e = refl
bitwise-null f (suc w) x y h e =
    omega (arith, h (x % 2) (y % 2) (omega arith), bitwise-null f w (x / 2) (y / 2) h (omega arith))

-- A zero operand of the 64-bit operations.
pub or_zero : (x : ℕ) → x < u64_mod → bitwise or_bit 64 x 0 ≡ x
or_zero x h = bitwise-id_left or_bit 64 x 0 (λ b lt. or_left b lt) h refl
  where
    or_left : (b : ℕ) → b < 2 → or_bit b 0 ≡ b
    or_left zero lt = refl
    or_left (suc b) lt = omega arith

pub zero_or : (x : ℕ) → x < u64_mod → bitwise or_bit 64 0 x ≡ x
zero_or x h = bitwise-id_right or_bit 64 x 0 (λ b lt. refl) h refl

pub xor_zero : (x : ℕ) → x < u64_mod → bitwise xor_bit 64 x 0 ≡ x
xor_zero x h = bitwise-id_left xor_bit 64 x 0 (λ b lt. xor_left b lt) h refl
  where
    xor_left : (b : ℕ) → b < 2 → xor_bit b 0 ≡ b
    xor_left zero lt = refl
    xor_left (suc b) lt = omega arith

pub zero_xor : (x : ℕ) → x < u64_mod → bitwise xor_bit 64 0 x ≡ x
zero_xor x h = bitwise-id_right xor_bit 64 x 0 (λ b lt. refl) h refl

pub and_bit_null : (b c : ℕ) → (b ≡ 0) ⊎ (c ≡ 0) → and_bit b c ≡ 0
and_bit_null zero c e = refl
and_bit_null (suc b) c e = omega arith

pub and_zero : (x : ℕ) → bitwise and_bit 64 x 0 ≡ 0
and_zero x = bitwise-null and_bit 64 x 0 and_bit_null (inr refl)

pub zero_and : (x : ℕ) → bitwise and_bit 64 0 x ≡ 0
zero_and x = bitwise-null and_bit 64 0 x and_bit_null (inl refl)

-- The result of digits below 2 fits the width.
pub bitwise-lt :
    (f : ℕ → ℕ → ℕ) (w x y : ℕ) → ((b c : ℕ) → b < 2 → c < 2 → f b c < 2) → bitwise f w x y < 2 ^ w
unfolding bitwise
bitwise-lt f zero x y h = omega arith
bitwise-lt f (suc w) x y h = omega (
  arith,
  pow-suc 2 w,
  h (x % 2) (y % 2) (omega arith) (omega arith),
  bitwise-lt f w (x / 2) (y / 2) h,
)

pub and_bit-lt : (b c : ℕ) → b < 2 → c < 2 → and_bit b c < 2
and_bit-lt zero c h k = omega arith
and_bit-lt (suc b) c h k = k

pub or_bit-lt : (b c : ℕ) → b < 2 → c < 2 → or_bit b c < 2
or_bit-lt zero c h k = k
or_bit-lt (suc b) c h k = omega arith

pub xor_bit-lt : (b c : ℕ) → b < 2 → c < 2 → xor_bit b c < 2
xor_bit-lt zero c h k = k
xor_bit-lt (suc b) c h k = omega arith
