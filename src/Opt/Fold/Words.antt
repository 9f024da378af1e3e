-- ===== src/Opt/Fold/Words.antt =====
-- On `fold_op`, src/backend/opt.c: the 64-bit patterns of sums, differences and products.
use mini_asm.Base.{ℕ, suc, ◌+◌, ◌-◌, ◌*◌, ◌%◌, ◌≤◌, ◌≡◌, arith, ap}
use mini_asm.Base.Int.{
  ℤ, pos, negsuc, ◌+ℤ◌, ◌-ℤ◌, ◌*ℤ◌, u64_mod, i32_min_abs, to_u64, IsInt, IsInt64,
}

-- The sum, the difference and the product of two `int` values fit `int64_t`, so nothing overflows, and
-- their patterns are those of the modular operations.
pub add_word :
    (a b : ℤ)
    → IsInt a
    → IsInt b
    → (to_u64 (a +ℤ b) ≡ (to_u64 a + to_u64 b) % u64_mod) × IsInt64 (a +ℤ b)
unfolding ◌+ℤ◌
add_word (pos a) (pos b) h k = ground arith
add_word (pos a) (negsuc b) h k = ground arith
add_word (negsuc a) (pos b) h k = ground arith
add_word (negsuc a) (negsuc b) h k = ground arith

pub sub_word :
    (a b : ℤ)
    → IsInt a
    → IsInt b
    → (to_u64 (a -ℤ b) ≡ (to_u64 a + (u64_mod - to_u64 b)) % u64_mod) × IsInt64 (a -ℤ b)
unfolding ◌-ℤ◌
sub_word (pos a) (pos b) h k = ground arith
sub_word (pos a) (negsuc b) h k = ground arith
sub_word (negsuc a) (pos b) h k = ground arith
sub_word (negsuc a) (negsuc b) h k = ground arith

pub neg_word :
    (a : ℤ)
    → IsInt a
    → (to_u64 (pos 0 -ℤ a) ≡ (u64_mod - to_u64 a) % u64_mod) × IsInt64 (pos 0 -ℤ a)
unfolding ◌-ℤ◌
neg_word (pos a) h = ground arith
neg_word (negsuc a) h = ground arith

-- Products of patterns by the sign of the factors.
module _ (x y z w : ℕ) (ex : z + x ≡ u64_mod) (ey : w + y ≡ u64_mod) where
  left_product : z * y + x * y ≡ u64_mod * y
  left_product = omega (arith, ap (λ (t : ℕ). t * y) ex)

  right_product : x * w + x * y ≡ x * u64_mod
  right_product = omega (arith, ap (λ (t : ℕ). x * t) ey)

  both_products : z * w + z * y ≡ z * u64_mod
  both_products = omega (arith, ap (λ (t : ℕ). z * t) ey)

  neg_pos : x * y ≤ u64_mod → z * y % u64_mod ≡ (u64_mod - x * y) % u64_mod
  neg_pos h = omega (arith, left_product)

  pos_neg : x * y ≤ u64_mod → x * w % u64_mod ≡ (u64_mod - x * y) % u64_mod
  pos_neg h = omega (arith, right_product)

  neg_neg : z * w % u64_mod ≡ x * y % u64_mod
  neg_neg = omega (arith, left_product, both_products)

product_le : (x y : ℕ) → x ≤ i32_min_abs → y ≤ i32_min_abs → x * y ≤ 4611686018427387904
product_le x y h k = grind arith

pub mul_word :
    (a b : ℤ)
    → IsInt a
    → IsInt b
    → (to_u64 (a *ℤ b) ≡ to_u64 a * to_u64 b % u64_mod) × IsInt64 (a *ℤ b)
unfolding ◌*ℤ◌
mul_word (pos a) (pos b) h k = ground (arith, product_le a b)
mul_word (pos a) (negsuc b) h k =
    ground (arith, product_le a (suc b), pos_neg a (suc b) (u64_mod - a) (u64_mod - suc b))
mul_word (negsuc a) (pos b) h k =
    ground (arith, product_le (suc a) b, neg_pos (suc a) b (u64_mod - suc a) (u64_mod - b))
mul_word (negsuc a) (negsuc b) h k =
    ground (
      arith,
      product_le (suc a) (suc b),
      neg_neg (suc a) (suc b) (u64_mod - suc a) (u64_mod - suc b),
    )
