-- ===== src/Builder/Layout/Mask.antt =====
-- On the rounding of `ir_type_struct`, src/ir/ir_builder.c.
use Prim.Native.Nat.{ℕ, zero, suc, ◌+◌, ◌-◌, ◌*◌, ◌/◌, ◌%◌, ◌^◌, ◌≤◌, ◌<◌}
use native.Mathlib.Nat.{
  mod-lt, mod-le, mod-eq_of_lt, mul-mod_right, div-add-mod, pow-suc, one-le-pow, pow-le-pow_right,
}
use mini_asm.Base.{◌≡◌, refl, ap, ◌∙◌, arith}
use mini_asm.Base.Int.{u32_mod}
use mini_asm.Base.Bits.{bitwise, and_bit}
use mini_asm.Opt.Strength.Pow2.{and-mask}
use mini_asm.Builder.Layout.{round_up}

and_bit-zero : (a : ℕ) → and_bit a 0 ≡ 0
and_bit-zero zero = refl
and_bit-zero (suc a) = refl

half_mask :
    (w l : ℕ)
    → l ≤ w
    → ((2 ^ suc w - 2 ^ suc l) % 2 ≡ 0) × ((2 ^ suc w - 2 ^ suc l) / 2 ≡ 2 ^ w - 2 ^ l)
half_mask w l h = (omega (arith, pow-suc 2 w, pow-suc 2 l), omega (arith, pow-suc 2 w, pow-suc 2 l))

two_mod : (x m : ℕ) → x % (2 * m) ≡ x % 2 + 2 * (x / 2 % m)
two_mod x m = grind arith

-- A mask that clears the lowest `l` digits.
pub and-high : (w l x : ℕ) → l ≤ w → x < 2 ^ w → bitwise and_bit w x (2 ^ w - 2 ^ l) ≡ x - x % 2 ^ l
unfolding bitwise
and-high w zero x h lt = and-mask w w x (omega arith) lt ∙ omega (arith, mod-eq_of_lt lt)
and-high zero (suc l) x h lt = absurd (omega arith)
and-high (suc w) (suc l) x h lt =
    let (even, half) = half_mask w l (omega arith) in
    let ih = and-high w l (x / 2) (omega arith) (omega (arith, pow-suc 2 w)) in
    let whole : 2 ^ suc l ≡ 2 * 2 ^ l = omega (arith, pow-suc 2 l) in
    rw (even, half, ih, and_bit-zero (x % 2))
      (omega (arith, two_mod x (2 ^ l), ap (λ m. x % m) whole, mod-le (x / 2) (2 ^ l)))

bounds : (l : ℕ) → l < 32 → (0 < 2 ^ l) × (2 ^ l ≤ 2 ^ 31)
bounds l h = (
  omega (arith, one-le-pow l 2),
  pow-le-pow_right {n = 2} (omega arith) {i = l} {j = 31} (omega arith),
)

round_up-value :
    (off l : ℕ)
    → l < 32
    → off + 2 ^ l ≤ u32_mod
    → round_up off (2 ^ l) ≡ off + 2 ^ l - 1 - (off + 2 ^ l - 1) % 2 ^ l
unfolding round_up
round_up-value off l h fits =
    let (low, high) = bounds l h in
    let sum : (off + 2 ^ l + (u32_mod - 1)) % u32_mod ≡ off + 2 ^ l - 1 =
      omega (arith, low, high) in
    let mask : u32_mod - 1 - (2 ^ l + (u32_mod - 1)) % u32_mod ≡ 2 ^ 32 - 2 ^ l =
      omega (arith, low, high) in
    rw (sum, mask) (and-high 32 l (off + 2 ^ l - 1) (omega arith) (omega (arith, low)))

-- Rounding up to a power of two below 2 ^ 32, where the sum fits 32 bits, gives the multiple of it at
-- or above the number and less than one step away.
pub round_up_lem :
    (off l : ℕ)
    → l < 32
    → off + 2 ^ l ≤ u32_mod
    → (off ≤ round_up off (2 ^ l))
      × (round_up off (2 ^ l) < off + 2 ^ l)
      × (round_up off (2 ^ l) % 2 ^ l ≡ 0)
round_up_lem off l h fits =
    let x = off + 2 ^ l - 1 in
    let low = (bounds l h).0 in
    let small = mod-lt x {m = 2 ^ l} low in
    let split = div-add-mod x (2 ^ l) in
    let multiple : x - x % 2 ^ l ≡ 2 ^ l * (x / 2 ^ l) = omega (arith, split) in
    rw (round_up-value off l h fits) (
      omega (arith, small, low),
      omega (arith, low),
      rw multiple (mul-mod_right (2 ^ l) (x / 2 ^ l)),
    )
