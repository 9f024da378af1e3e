-- ===== src/Opt/Fold/Sound.antt =====
-- On `fold_op`, src/backend/opt.c, against the meaning of the opcodes.
use mini_asm.Base.{
  ℕ, zero, suc, ◌*◌, ◌/◌, ◌%◌, ◌^◌, ◌<◌, ◌≡◌, refl, Bool, true, false, not, Option, none, some,
  arith, ap, sym, Bool-cases, inl, inr, ltb, leb, ◌==◌, if◌then◌else◌,
}
use mini_asm.Base.Int.{
  ℤ, pos, negsuc, u64_mod, to_u64, to_i64, IsInt, IsInt64, quot_ℤ, rem_ℤ, shr_ℤ, to_i64-to_u64,
  to_u64-to_i64, to_u64-lt, eq_ℤ, ltb_ℤ,
}
use mini_asm.Base.Bits.{and_bit, or_bit, xor_bit, bitwise-lt, and_bit-lt, or_bit-lt, xor_bit-lt}
use mini_asm.Ir.{
  Opcode, op_add, op_sub, op_mul, op_sdiv, op_udiv, op_srem, op_urem, op_and, op_or, op_xor, op_shl,
  op_lshr, op_ashr, op_icmp, op_zext, op_sext, op_trunc,
}
use mini_asm.Ir.Meaning.{binary, compare_words, traps, map_bit, bit_of}
use mini_asm.Opt.Fold.{fold_binary, fold_icmp, division_traps, shift_by, truth}
use mini_asm.Opt.Fold.Words.{add_word, sub_word, mul_word}

-- A folded constant is the value of the instruction, as an `int64_t`.
abbrev pub FoldsTo : Option ℤ → Option ℕ → Type 0
FoldsTo none w = Unit
FoldsTo (some z) w = (w ≡ some (to_u64 z)) × IsInt64 z

-- The conversions, whose value depends on the types.
unfoldable pub is_ext : Opcode → Bool
is_ext op_zext = true
is_ext op_sext = true
is_ext op_trunc = true
is_ext _ = false

to_i64-IsInt64 : (w : ℕ) → w < u64_mod → IsInt64 (to_i64 w)
to_i64-IsInt64 w h = ground arith

IsInt→IsInt64 : (z : ℤ) → IsInt z → IsInt64 z
IsInt→IsInt64 (pos n) h = omega arith
IsInt→IsInt64 (negsuc n) h = omega arith

int_word : (z : ℤ) → IsInt z → to_i64 (to_u64 z) ≡ z
int_word z h = to_i64-to_u64 z (IsInt→IsInt64 z h)

-- A pattern that is read as `int64_t`.
word-FoldsTo : (w : ℕ) → w < u64_mod → FoldsTo (some (to_i64 w)) (some w)
word-FoldsTo w h = (ap some (sym (to_u64-to_i64 w h)), to_i64-IsInt64 w h)

eq_word : (a b : ℤ) → IsInt a → IsInt b → (to_u64 a == to_u64 b) ≡ eq_ℤ a b
eq_word a b h k = ground arith

traps_word : (a b : ℤ) → IsInt a → IsInt b → traps (to_u64 a) (to_u64 b) ≡ division_traps a b
traps_word a b h k = ground arith

quot-IsInt64 : (a b : ℤ) → IsInt a → IsInt64 (quot_ℤ a b)
unfolding quot_ℤ
quot-IsInt64 (pos a) (pos b) h = ground arith
quot-IsInt64 (pos a) (negsuc b) h = ground arith
quot-IsInt64 (negsuc a) (pos b) h = ground arith
quot-IsInt64 (negsuc a) (negsuc b) h = ground arith

rem-IsInt64 : (a b : ℤ) → IsInt a → IsInt b → IsInt64 (rem_ℤ a b)
unfolding rem_ℤ
rem-IsInt64 (pos a) b h k = ground arith
rem-IsInt64 (negsuc a) b h k = ground arith

shr-IsInt64 : (a : ℤ) (k : ℕ) → IsInt a → IsInt64 (shr_ℤ a k)
unfolding shr_ℤ
shr-IsInt64 (pos a) k h = ground arith
shr-IsInt64 (negsuc a) k h = ground arith

truth-FoldsTo : (b : Bool) → FoldsTo (some (truth b)) (some (bit_of b))
truth-FoldsTo true = (refl, omega arith)
truth-FoldsTo false = (refl, omega arith)

icmp-FoldsTo :
    (p : ℕ) (a b : ℤ)
    → IsInt a
    → IsInt b
    → FoldsTo (fold_icmp p a b) (map_bit (compare_words p (to_u64 a) (to_u64 b)))
unfolding fold_icmp
icmp-FoldsTo zero a b h k = rw (eq_word a b h k) (truth-FoldsTo (eq_ℤ a b))
icmp-FoldsTo (suc zero) a b h k = rw (eq_word a b h k) (truth-FoldsTo (not (eq_ℤ a b)))
icmp-FoldsTo (suc (suc zero)) a b h k = rw (int_word a h, int_word b k) (truth-FoldsTo (ltb_ℤ a b))
icmp-FoldsTo (suc (suc (suc zero))) a b h k =
    rw (int_word a h, int_word b k) (truth-FoldsTo (not (ltb_ℤ b a)))
icmp-FoldsTo (suc (suc (suc (suc zero)))) a b h k =
    rw (int_word a h, int_word b k) (truth-FoldsTo (ltb_ℤ b a))
icmp-FoldsTo (suc (suc (suc (suc (suc zero))))) a b h k =
    rw (int_word a h, int_word b k) (truth-FoldsTo (not (ltb_ℤ a b)))
icmp-FoldsTo (suc (suc (suc (suc (suc (suc zero)))))) a b h k =
    truth-FoldsTo (ltb (to_u64 a) (to_u64 b))
icmp-FoldsTo (suc (suc (suc (suc (suc (suc (suc zero))))))) a b h k =
    truth-FoldsTo (leb (to_u64 a) (to_u64 b))
icmp-FoldsTo (suc (suc (suc (suc (suc (suc (suc (suc zero)))))))) a b h k =
    truth-FoldsTo (ltb (to_u64 b) (to_u64 a))
icmp-FoldsTo (suc (suc (suc (suc (suc (suc (suc (suc (suc zero))))))))) a b h k =
    truth-FoldsTo (leb (to_u64 b) (to_u64 a))
icmp-FoldsTo _ a b h k = tt

ltb→not_leb : (a b : ℕ) → ltb a b ≡ true → leb b a ≡ false
ltb→not_leb a b h = ground arith

not_ltb→leb : (a b : ℕ) → ltb a b ≡ false → leb b a ≡ true
not_ltb→leb a b h = ground arith

-- A guard on both sides.
guard-FoldsTo :
    (t : Bool) (z : ℤ) (w : ℕ)
    → FoldsTo (some z) (some w)
    → FoldsTo (if t then none else some z) (if t then none else some w)
guard-FoldsTo true z w h = tt
guard-FoldsTo false z w h = h

-- A shift by a count in range is the shift of the words.
shift-FoldsTo :
    (a1 : ℤ) (f : ℕ → ℤ) (g : ℕ → ℕ)
    → IsInt a1
    → ((k : ℕ) → FoldsTo (some (f k)) (some (g k)))
    → FoldsTo (shift_by a1 f) (if ltb (to_u64 a1) 64 then some (g (to_u64 a1)) else none)
shift-FoldsTo (pos k) f g h law =
    let e : k % u64_mod ≡ k = omega arith in
    rw e (elim (Bool-cases (ltb k 64)) [
      | inl t ↦ rw (t, ltb→not_leb k 64 t) (law k)
      | inr t ↦ rw (not_ltb→leb k 64 t) tt
    ])
shift-FoldsTo (negsuc k) f g h law = tt

-- For `int` operands and every opcode but the conversions, a value that folding computes is the 64-bit
-- value of the opcode, and it fits `int64_t`.
pub fold_binary-FoldsTo :
    (op : Opcode) (a b : ℤ) (p : ℕ)
    → is_ext op ≡ false
    → IsInt a
    → IsInt b
    → FoldsTo (fold_binary op a b p) (binary op p (to_u64 a) (to_u64 b))
unfolding fold_binary binary is_ext
fold_binary-FoldsTo op_add a b p e h k = ground (arith, add_word a b h k)
fold_binary-FoldsTo op_sub a b p e h k = ground (arith, sub_word a b h k)
fold_binary-FoldsTo op_mul a b p e h k = ground (arith, mul_word a b h k)
fold_binary-FoldsTo op_sdiv a b p e h k =
    rw (traps_word a b h k, int_word a h, int_word b k)
      (guard-FoldsTo (division_traps a b) (quot_ℤ a b) (to_u64 (quot_ℤ a b))
        (refl, quot-IsInt64 a b h))
fold_binary-FoldsTo op_udiv a b p e h k = rw (eq_word b (pos 0) k (omega arith)) (
    guard-FoldsTo (eq_ℤ b (pos 0)) (to_i64 (to_u64 a / to_u64 b)) (to_u64 a / to_u64 b)
      (word-FoldsTo _ (omega (arith, to_u64-lt a))))
fold_binary-FoldsTo op_srem a b p e h k =
    rw (traps_word a b h k, int_word a h, int_word b k)
      (guard-FoldsTo (division_traps a b) (rem_ℤ a b) (to_u64 (rem_ℤ a b))
        (refl, rem-IsInt64 a b h k))
fold_binary-FoldsTo op_urem a b p e h k = rw (eq_word b (pos 0) k (omega arith)) (
    guard-FoldsTo (eq_ℤ b (pos 0)) (to_i64 (to_u64 a % to_u64 b)) (to_u64 a % to_u64 b)
      (word-FoldsTo _ (omega (arith, to_u64-lt a))))
fold_binary-FoldsTo op_and a b p e h k =
    word-FoldsTo _ (bitwise-lt and_bit 64 (to_u64 a) (to_u64 b) and_bit-lt)
fold_binary-FoldsTo op_or a b p e h k =
    word-FoldsTo _ (bitwise-lt or_bit 64 (to_u64 a) (to_u64 b) or_bit-lt)
fold_binary-FoldsTo op_xor a b p e h k =
    word-FoldsTo _ (bitwise-lt xor_bit 64 (to_u64 a) (to_u64 b) xor_bit-lt)
fold_binary-FoldsTo op_shl a b p e h k =
    shift-FoldsTo b (λ n. to_i64 (to_u64 a * 2 ^ n % u64_mod)) (λ n. to_u64 a * 2 ^ n % u64_mod) k
      (λ n. word-FoldsTo _ (omega arith))
fold_binary-FoldsTo op_lshr a b p e h k =
    shift-FoldsTo b (λ n. to_i64 (to_u64 a / 2 ^ n)) (λ n. to_u64 a / 2 ^ n) k
      (λ n. word-FoldsTo _ (omega (arith, to_u64-lt a)))
fold_binary-FoldsTo op_ashr a b p e h k =
    rw (int_word a h) (
      shift-FoldsTo b (λ n. shr_ℤ a n) (λ n. to_u64 (shr_ℤ a n)) k (λ n. (refl, shr-IsInt64 a n h)))
fold_binary-FoldsTo op_icmp a b p e h k = icmp-FoldsTo p a b h k
fold_binary-FoldsTo op_zext a b p e h k = cc
fold_binary-FoldsTo op_sext a b p e h k = cc
fold_binary-FoldsTo op_trunc a b p e h k = cc
fold_binary-FoldsTo _ a b p e h k = tt
