-- ===== src/Opt/Strength.antt =====
-- src/backend/opt.c, "Strength reduction": multiplications, unsigned divisions and remainders by a
-- power of two.
pub mod Pow2
pub mod Sound
use mini_asm.Base.{
  ℕ, zero, suc, ◌+◌, ◌-◌, ◌/◌, ◌%◌, Bool, true, false, List, [], ◌∷◌, Option, none, some, leb, ltb,
  ◌==◌, ◌&&◌, if◌then◌else◌, map, ap,
}
use mini_asm.Base.Int.{ℤ, pos, negsuc, to_u64, to_int}
use mini_asm.Base.Bits.{bitwise, and_bit}
use mini_asm.Ir.{
  Opcode, op_mul, op_udiv, op_urem, op_shl, op_lshr, op_and, Operand, imm, Instr, Block, Func,
}
use mini_asm.Opt.Alias.{map_instrs, is_reg}

-- `while((v & 1) == 0){ v >>= 1; l++; }`; 64 rounds are enough for a 64-bit value that is not 0.
unfoldable pub trailing_zeros : ℕ → ℕ → ℕ
trailing_zeros zero v = 0
trailing_zeros (suc fuel) v =
    let rest = suc (trailing_zeros fuel (v / 2)) in if v % 2 == 0 then rest else 0

-- The result through `log2_out`, or `none` for the return value 0.
unfoldable pub is_pow2_u64 : ℕ → Option ℕ
is_pow2_u64 v =
    if v == 0
    then none
    else if bitwise and_bit 64 v (v - 1) == 0
    then some (trailing_zeros 64 v)
    else none

-- `uc >= 2 && is_pow2_u64(uc, &lg) && lg < 64`.
unfoldable pub power_of : ℕ → Option ℕ
power_of uc =
    if leb 2 uc
    then elim (is_pow2_u64 uc) [ none ↦ none | some lg ↦ if ltb lg 64 then some lg else none ]
    else none

-- The new opcode and second argument.
unfoldable pub reduce_by : Opcode → ℤ → Option ℕ → Option (Opcode × ℤ)
reduce_by op_mul c (some lg) = some (op_shl, pos lg)
reduce_by op_udiv c (some lg) = some (op_lshr, pos lg)
reduce_by op_urem c (some lg) = some (op_and, to_int (pos (to_u64 c - 1)))
reduce_by _ c _ = none

abbrev pub apply_reduced : Instr → Operand → ℤ → Option (Opcode × ℤ) → Instr
apply_reduced i a c none = i
apply_reduced i a c (some (op, k)) = record i { op = op; args = a ∷ imm k ∷ [] }

unfoldable pub reduce_args : Instr → List Operand → Instr
unfolding reduce_by power_of
reduce_args i (a ∷ imm c ∷ []) = apply_reduced i a c (reduce_by i.op c (power_of (to_u64 c)))
reduce_args i _ = i

unfoldable pub reduce_instr : Instr → Instr
unfolding reduce_args
reduce_instr i = if is_reg i.dst then reduce_args i i.args else i

unfoldable pub strength_reduce : Func → Func
unfolding reduce_instr
strength_reduce = map_instrs reduce_instr
