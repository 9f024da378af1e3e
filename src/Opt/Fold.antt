-- ===== src/Opt/Fold.antt =====
-- src/backend/opt.c, "Constant folding". `fold_op` works on `int64_t` values; a folded constant is
-- narrowed to `int` where it takes a register's place.
pub mod Words
pub mod Sound
pub mod Pass
pub mod Loop
use mathlib.Core.List.{foldl}
use mini_asm.Base.{
  ℕ, zero, suc, ◌+◌, ◌-◌, ◌*◌, ◌/◌, ◌%◌, ◌^◌, Bool, true, false, not, ◌&&◌, ◌||◌, List, [], ◌∷◌,
  map, Option, none, some, ltb, leb, ◌==◌, if◌then◌else◌, length, get_or, set, replicate,
}
use mini_asm.Base.Int.{
  ℤ, pos, negsuc, ◌+ℤ◌, ◌-ℤ◌, ◌*ℤ◌, quot_ℤ, rem_ℤ, shr_ℤ, ltb_ℤ, eq_ℤ, to_u64, to_i64, to_int,
  u64_mod, u32_mod, i64_min_abs, pos_part,
}
use mini_asm.Base.Bits.{bitwise, and_bit, or_bit, xor_bit}
use mini_asm.Ir.{
  Opcode, op_add, op_sub, op_mul, op_sdiv, op_udiv, op_srem, op_urem, op_and, op_or, op_xor, op_shl,
  op_lshr, op_ashr, op_neg, op_not, op_icmp, op_zext, op_sext, op_trunc, Operand, vreg, imm, Instr,
  Block, Func,
}
use mini_asm.Opt.Common.{func_maxv}
use mini_asm.Opt.Alias.{is_reg}

unfoldable pub foldable : Opcode → Bool
foldable op_add = true
foldable op_sub = true
foldable op_mul = true
foldable op_sdiv = true
foldable op_udiv = true
foldable op_srem = true
foldable op_urem = true
foldable op_and = true
foldable op_or = true
foldable op_xor = true
foldable op_shl = true
foldable op_lshr = true
foldable op_ashr = true
foldable op_neg = true
foldable op_not = true
foldable op_icmp = true
foldable op_zext = true
foldable op_sext = true
foldable op_trunc = true
foldable _ = false

-- `~a`.
abbrev pub not_ℤ : ℤ → ℤ
not_ℤ (pos n) = negsuc n
not_ℤ (negsuc n) = pos n

-- `a1 == 0`, and the quotient that does not fit.
abbrev pub division_traps : ℤ → ℤ → Bool
division_traps a0 a1 =
    if eq_ℤ a1 (pos 0) then true else eq_ℤ a0 (negsuc (i64_min_abs - 1)) && eq_ℤ a1 (negsuc 0)

-- A shift by a count in 0 .. 63.
abbrev pub shift_by : ℤ → (ℕ → ℤ) → Option ℤ
shift_by (pos k) f = if leb 64 k then none else some (f k)
shift_by (negsuc k) f = none

abbrev pub truth : Bool → ℤ
truth true = pos 1
truth false = pos 0

-- The switch over `pred`.
unfoldable pub fold_icmp : ℕ → ℤ → ℤ → Option ℤ
fold_icmp zero a b = some (truth (eq_ℤ a b))
fold_icmp (suc zero) a b = some (truth (not (eq_ℤ a b)))
fold_icmp (suc (suc zero)) a b = some (truth (ltb_ℤ a b))
fold_icmp (suc (suc (suc zero))) a b = some (truth (not (ltb_ℤ b a)))
fold_icmp (suc (suc (suc (suc zero)))) a b = some (truth (ltb_ℤ b a))
fold_icmp (suc (suc (suc (suc (suc zero))))) a b = some (truth (not (ltb_ℤ a b)))
fold_icmp (suc (suc (suc (suc (suc (suc zero)))))) a b = some (truth (ltb (to_u64 a) (to_u64 b)))
fold_icmp (suc (suc (suc (suc (suc (suc (suc zero))))))) a b =
    some (truth (leb (to_u64 a) (to_u64 b)))
fold_icmp (suc (suc (suc (suc (suc (suc (suc (suc zero)))))))) a b =
    some (truth (ltb (to_u64 b) (to_u64 a)))
fold_icmp (suc (suc (suc (suc (suc (suc (suc (suc (suc zero))))))))) a b =
    some (truth (leb (to_u64 b) (to_u64 a)))
fold_icmp _ a b = none

-- The switch over the opcodes with operands.
unfoldable pub fold_binary : Opcode → ℤ → ℤ → ℕ → Option ℤ
unfolding fold_icmp
fold_binary op_add a0 a1 p = some (a0 +ℤ a1)
fold_binary op_sub a0 a1 p = some (a0 -ℤ a1)
fold_binary op_mul a0 a1 p = some (a0 *ℤ a1)
fold_binary op_sdiv a0 a1 p = if division_traps a0 a1 then none else some (quot_ℤ a0 a1)
fold_binary op_udiv a0 a1 p =
    if eq_ℤ a1 (pos 0) then none else some (to_i64 (to_u64 a0 / to_u64 a1))
fold_binary op_srem a0 a1 p = if division_traps a0 a1 then none else some (rem_ℤ a0 a1)
fold_binary op_urem a0 a1 p =
    if eq_ℤ a1 (pos 0) then none else some (to_i64 (to_u64 a0 % to_u64 a1))
fold_binary op_and a0 a1 p = some (to_i64 (bitwise and_bit 64 (to_u64 a0) (to_u64 a1)))
fold_binary op_or a0 a1 p = some (to_i64 (bitwise or_bit 64 (to_u64 a0) (to_u64 a1)))
fold_binary op_xor a0 a1 p = some (to_i64 (bitwise xor_bit 64 (to_u64 a0) (to_u64 a1)))
fold_binary op_shl a0 a1 p = shift_by a1 (λ k. to_i64 (to_u64 a0 * 2 ^ k % u64_mod))
fold_binary op_lshr a0 a1 p = shift_by a1 (λ k. to_i64 (to_u64 a0 / 2 ^ k))
fold_binary op_ashr a0 a1 p = shift_by a1 (λ k. shr_ℤ a0 k)
fold_binary op_icmp a0 a1 p = fold_icmp p a0 a1
fold_binary op_zext a0 a1 p = some (pos (to_u64 a0 % u32_mod))
fold_binary op_sext a0 a1 p = some a0
fold_binary op_trunc a0 a1 p = some (pos (to_u64 a0 % u32_mod))
fold_binary _ a0 a1 p = none

unfoldable pub fold_op : Opcode → ℤ → ℤ → ℕ → Bool → Option ℤ
unfolding fold_binary
fold_op op_neg a0 a1 p has_a0 = some (pos 0 -ℤ a0)
fold_op op_not a0 a1 p has_a0 = some (not_ℤ a0)
fold_op op a0 a1 p has_a0 = if has_a0 then fold_binary op a0 a1 p else none

-- ConstTab: the value of a register where it is known.
abbrev pub ConstTab : Type 0
ConstTab = List (Option ℤ)

unfoldable pub consttab_new : ℕ → ConstTab
consttab_new n = replicate n none

-- `consttab_known` and the value.
unfoldable pub known_value : ConstTab → ℤ → Option ℤ
known_value t (pos v) = get_or t v none
known_value t (negsuc v) = none

unfoldable pub consttab_set : ConstTab → ℤ → ℤ → ConstTab
consttab_set t (pos v) x = if ltb v (length t) then set t v (some x) else t
consttab_set t (negsuc v) x = t

-- A known register becomes an immediate; the second part is `changed`.
abbrev pub to_imm : ℤ → Option ℤ → Operand
to_imm v none = vreg v
to_imm v (some x) = imm (to_int x)

unfoldable pub subst_operand : ConstTab → Operand → Operand
unfolding known_value
subst_operand t (vreg v) = to_imm v (known_value t v)
subst_operand t o = o

unfoldable pub is_known : ConstTab → Operand → Bool
unfolding known_value
is_known t (vreg v) = elim (known_value t v) [ some _ ↦ true | none ↦ false ]
is_known t o = false

abbrev pub cons_value : ℤ → Option (List ℤ) → Option (List ℤ)
cons_value c none = none
cons_value c (some cs) = some (c ∷ cs)

-- The values of the operands if all are immediates.
unfoldable pub imm_values : List Operand → Option (List ℤ)
imm_values [] = some []
imm_values (imm c ∷ os) = cons_value c (imm_values os)
imm_values _ = none

-- `fold_op` on the first two immediates.
unfoldable pub fold_values : Opcode → ℕ → List ℤ → Option ℤ
unfolding fold_op
fold_values op p [] = fold_op op (pos 0) (pos 0) p false
fold_values op p (a ∷ []) = fold_op op a (pos 0) p true
fold_values op p (a ∷ b ∷ _) = fold_op op a b p true

abbrev pub fold_known : Opcode → ℕ → Option (List ℤ) → Option ℤ
fold_known op p none = none
fold_known op p (some vs) = fold_values op p vs

abbrev pub learn : ConstTab → ℤ → Option ℤ → ConstTab
learn t d none = t
learn t d (some x) = consttab_set t d x

unfoldable pub subst_instr : ConstTab → Instr → Instr
unfolding subst_operand
subst_instr t i = record i { args = map (subst_operand t) i.args }

-- What the instruction, its operands substituted, adds to the table.
unfoldable pub learn_instr : ConstTab → Instr → ConstTab
unfolding foldable imm_values fold_values consttab_set
learn_instr t i =
    if foldable i.op && is_reg i.dst
    then learn t i.dst (fold_known i.op i.pred (imm_values i.args))
    else t

abbrev pub any_arg : (Operand → Bool) → List Operand → Bool
any_arg p [] = false
any_arg p (o ∷ os) = p o || any_arg p os

-- The loop over a block: the instructions, the table and `changed`.
unfoldable pub fold_instrs : ConstTab → Bool → List Instr → List Instr × ConstTab × Bool
fold_instrs t changed [] = ([], t, changed)
fold_instrs t changed (i ∷ is) =
    let i' = subst_instr t i in
    let rest = fold_instrs (learn_instr t i') (changed || any_arg (is_known t) i.args) is in
    (i' ∷ rest.0, rest.1, rest.2)

unfoldable pub fold_blocks : ConstTab → Bool → List Block → List Block × ConstTab × Bool
fold_blocks t changed [] = ([], t, changed)
fold_blocks t changed (b ∷ bs) =
    let r = fold_instrs t changed b.instrs in
    let rest = fold_blocks r.1 r.2 bs in (record b { instrs = r.0 } ∷ rest.0, rest.1, rest.2)

-- `while(changed && passes < 16)`; the number counts the passes left.
unfoldable pub fold_loop : ℕ → ConstTab → List Block → List Block
fold_loop zero t bs = bs
fold_loop (suc passes) t bs =
    let r = fold_blocks t false bs in
    let rest = fold_loop passes r.1 r.0 in if r.2 then rest else r.0

unfoldable pub ir_constfold_func : Func → Func
ir_constfold_func f = record f {
  blocks = fold_loop 16 (consttab_new (pos_part (func_maxv f) + 1)) f.blocks;
}
