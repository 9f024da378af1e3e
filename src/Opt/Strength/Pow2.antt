-- ===== src/Opt/Strength/Pow2.antt =====
-- On `is_pow2_u64`, src/backend/opt.c, and masks of ones.
use native.Mathlib.Nat.{pow-suc, one-le-pow}
use mini_asm.Base.{
  ℕ, zero, suc, ◌+◌, ◌-◌, ◌*◌, ◌/◌, ◌%◌, ◌^◌, ◌<◌, ◌≤◌, ◌≡◌, ◌↔◌, refl, some, arith, ◌==◌,
  Bool-cases, inl, inr, ap, ◌∙◌, sym,
}
use mini_asm.Base.Int.{u64_mod}
use mini_asm.Base.Bits.{bitwise, and_bit, bitwise-null, and_bit_null}
use mini_asm.Opt.Strength.{trailing_zeros, is_pow2_u64}

and_bit_same : (b : ℕ) → b < 2 → and_bit b b ≡ b
and_bit_same zero h = refl
and_bit_same (suc b) h = refl

and_self : (w x : ℕ) → x < 2 ^ w → bitwise and_bit w x x ≡ x
unfolding bitwise
and_self zero x h = omega arith
and_self (suc w) x h =
    omega
      (arith, pow-suc 2 w, and_bit_same (x % 2), and_self w (x / 2) (omega (arith, pow-suc 2 w)))

-- v & (v - 1) is 0 exactly at the powers of two.
and_pred→pow2 :
    (w v : ℕ) → 0 < v → v < 2 ^ w → bitwise and_bit w v (v - 1) ≡ 0 → v ≡ 2 ^ trailing_zeros w v
unfolding bitwise trailing_zeros
and_pred→pow2 zero v p h e = omega arith
and_pred→pow2 (suc w) v p h e = elim (Bool-cases (v % 2 == 0)) [
  | inl even ↦
      let e' : (v - 1) / 2 ≡ v / 2 - 1 = ground arith in
      let rest : bitwise and_bit w (v / 2) ((v - 1) / 2) ≡ 0 = omega arith in
      let ih =
        and_pred→pow2 w (v / 2) (ground arith) (omega (arith, pow-suc 2 w)) (rw e' at rest) in
      rw even (ground (arith, ih, pow-suc 2 (trailing_zeros w (v / 2))))
  | inr odd ↦
      let e' : (v - 1) / 2 ≡ v / 2 = ground arith in
      let rest : bitwise and_bit w (v / 2) ((v - 1) / 2) ≡ 0 = omega arith in
      let self = and_self w (v / 2) (omega (arith, pow-suc 2 w)) in
      let none_left : v / 2 ≡ 0 = sym self ∙ (rw e' at rest) in rw odd (ground arith)
]

even_pow : (l : ℕ) → 2 ^ suc l % 2 ≡ 0
even_pow l = omega (arith, pow-suc 2 l)

half_pow : (l : ℕ) → 2 ^ suc l / 2 ≡ 2 ^ l
half_pow l = omega (arith, pow-suc 2 l)

half_pred : (l : ℕ) → (2 ^ suc l - 1) / 2 ≡ 2 ^ l - 1
half_pred l = omega (arith, pow-suc 2 l, one-le-pow l 2)

odd_pred : (l : ℕ) → (2 ^ suc l - 1) % 2 ≡ 1
odd_pred l = omega (arith, pow-suc 2 l, one-le-pow l 2)

and_bit-even_left : (a b : ℕ) → a ≡ 0 → and_bit a b ≡ 0
and_bit-even_left a b h = rw h

and_bit-odd_right : (a b : ℕ) → a < 2 → b ≡ 1 → and_bit a b ≡ a
and_bit-odd_right zero b h e = refl
and_bit-odd_right (suc a) b h e = omega arith

-- The other way round.
pow2-and_pred :
    (w l : ℕ) → l < w → (bitwise and_bit w (2 ^ l) (2 ^ l - 1) ≡ 0) × (trailing_zeros w (2 ^ l) ≡ l)
unfolding bitwise trailing_zeros
pow2-and_pred zero l h = absurd (omega arith)
pow2-and_pred (suc w) zero h = (bitwise-null and_bit (suc w) 1 0 and_bit_null (inr refl), refl)
pow2-and_pred (suc w) (suc l) h =
    let (ih, t) = pow2-and_pred w l (omega arith) in
    rw (half_pow l, half_pred l)
      (
        omega (arith, ih, and_bit-even_left (2 ^ suc l % 2) ((2 ^ suc l - 1) % 2) (even_pow l)),
        rw (even_pow l, t),
      )

two_mod : (x m : ℕ) → x % (2 * m) ≡ x % 2 + 2 * (x / 2 % m)
two_mod x m = grind arith

-- A mask of ones.
pub and-mask : (w l x : ℕ) → l ≤ w → x < 2 ^ w → bitwise and_bit w x (2 ^ l - 1) ≡ x % 2 ^ l
unfolding bitwise
and-mask w zero x h lt = rw (bitwise-null and_bit w x 0 and_bit_null (inr refl)) (omega arith)
and-mask zero (suc l) x h lt = absurd (omega arith)
and-mask (suc w) (suc l) x h lt =
    let low = and_bit-odd_right (x % 2) ((2 ^ suc l - 1) % 2) (omega arith) (odd_pred l) in
    let high = and-mask w l (x / 2) (omega arith) (omega (arith, pow-suc 2 w)) in
    let whole : 2 ^ suc l ≡ 2 * 2 ^ l = omega (arith, pow-suc 2 l) in
    rw (half_pred l) (omega (arith, low, high, two_mod x (2 ^ l), ap (λ m. x % m) whole))

trailing_zeros-lt : (w v : ℕ) → 0 < v → v < 2 ^ w → trailing_zeros w v < w
unfolding trailing_zeros
trailing_zeros-lt zero v p h = absurd (omega arith)
trailing_zeros-lt (suc w) v p h = elim (Bool-cases (v % 2 == 0)) [
  | inl even ↦
      rw even
        (omega (arith, trailing_zeros-lt w (v / 2) (ground arith) (omega (arith, pow-suc 2 w))))
  | inr odd ↦ rw odd (omega arith)
]

pub is_pow2_u64-some : (v l : ℕ) → v < u64_mod → is_pow2_u64 v ≡ some l → (v ≡ 2 ^ l) × (l < 64)
unfolding is_pow2_u64
is_pow2_u64-some v l h e =
    ground (arith, and_pred→pow2 64 v, trailing_zeros-lt 64 v, ap (λ (t : ℕ). 2 ^ t))

pub is_pow2_u64-pow : (l : ℕ) → l < 64 → is_pow2_u64 (2 ^ l) ≡ some l
unfolding is_pow2_u64
is_pow2_u64-pow l h = ground (arith, pow2-and_pred 64 l h, one-le-pow l 2)

-- On a 64-bit word the test answers with an exponent exactly if the word is 2 to that exponent, which
-- is then below 64.
pub is_pow2_u64_iff : (v l : ℕ) → v < u64_mod → (is_pow2_u64 v ≡ some l) ↔ ((v ≡ 2 ^ l) × (l < 64))
is_pow2_u64_iff v l h = (is_pow2_u64-some v l h, λ (e, lt). rw e (is_pow2_u64-pow l lt))
