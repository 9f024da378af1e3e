-- ===== src/Opt/Strength/Sound.antt =====
-- On `strength_reduce`, src/backend/opt.c.
use native.Mathlib.Nat.{one-le-pow, pow-le-pow_right}
use mini_asm.Base.{
  ℕ, ◌-◌, ◌*◌, ◌/◌, ◌%◌, ◌^◌, ◌<◌, ◌≡◌, ◌↔◌, refl, List, [], ◌∷◌, Option, none, some, arith, lt→ltb,
  ap, ◌∙◌, sym, All,
}
use mini_asm.Base.Int.{ℤ, pos, negsuc, u64_mod, to_u64, to_u64-lt, to_int, IsInt}
use mini_asm.Ir.{
  Opcode, op_mul, op_udiv, op_urem, op_shl, op_lshr, op_and, Operand, absent, vreg, imm, label_arg,
  fp_imm, Instr, Func,
}
use mini_asm.Ir.Meaning.{
  Regs, IsRegs, operand_value, value, value_known, int_value, Holds, RoleHolds, role, Satisfies,
}
use mini_asm.Opt.Alias.Means.{EachInstr, map_instrs-All}
use mini_asm.Opt.Strength.{
  power_of, reduce_by, apply_reduced, reduce_args, reduce_instr, strength_reduce,
}
use mini_asm.Opt.Strength.Pow2.{is_pow2_u64-some, and-mask}

power_of-some : (uc lg : ℕ) → uc < u64_mod → power_of uc ≡ some lg → (uc ≡ 2 ^ lg) × (lg < 64)
unfolding power_of
power_of-some uc lg h e = ground (arith, is_pow2_u64-some uc lg)

-- An `int` whose 64-bit pattern is a power of two is positive, so `(int)(uc - 1)` is exact.
mask_exact :
    (c : ℤ) (lg : ℕ)
    → IsInt c
    → to_u64 c ≡ 2 ^ lg
    → lg < 64
    → to_u64 (to_int (pos (to_u64 c - 1))) ≡ to_u64 c - 1
mask_exact (pos n) lg h e lt = ground arith
mask_exact (negsuc n) lg h e lt =
    absurd (omega (arith, pow-le-pow_right {n = 2} (omega arith) {i = lg} {j = 63} (omega arith)))

module _ (p x : ℕ) (fits : x < u64_mod) (c : ℤ) (lg : ℕ) (small : lg < 64)
    (power : to_u64 c ≡ 2 ^ lg) where
  lg_word : lg % u64_mod ≡ lg
  lg_word = omega arith

  mul_by_shift : int_value op_shl p (x ∷ lg % u64_mod ∷ []) ≡ int_value op_mul p (x ∷ to_u64 c ∷ [])
  unfolding int_value
  mul_by_shift = rw (lg_word, lt→ltb _ _ small, power)

  udiv_by_shift :
      int_value op_lshr p (x ∷ lg % u64_mod ∷ []) ≡ int_value op_udiv p (x ∷ to_u64 c ∷ [])
  unfolding int_value
  udiv_by_shift = rw (lg_word, lt→ltb _ _ small, power) (ground (arith, one-le-pow lg 2))

  urem_by_mask :
      IsInt c
      → int_value op_and p (x ∷ to_u64 (to_int (pos (to_u64 c - 1))) ∷ [])
        ≡ int_value op_urem p (x ∷ to_u64 c ∷ [])
  unfolding int_value
  urem_by_mask h =
      rw (mask_exact c lg h power small, power, and-mask 64 lg x (omega arith) fits)
        (ground (arith, one-le-pow lg 2))

mul_some : (p x y : ℕ) → int_value op_mul p (x ∷ y ∷ []) ≡ some (x * y % u64_mod)
unfolding int_value
mul_some p x y = refl

udiv_some : (p x y : ℕ) → 0 < y → int_value op_udiv p (x ∷ y ∷ []) ≡ some (x / y)
unfolding int_value
udiv_some p x y h = ground arith

urem_some : (p x y : ℕ) → 0 < y → int_value op_urem p (x ∷ y ∷ []) ≡ some (x % y)
unfolding int_value
urem_some p x y h = ground arith

dst-apply_reduced :
    (i : Instr) (a : Operand) (c : ℤ) (o : Option (Opcode × ℤ))
    → (apply_reduced i a c o).dst ≡ i.dst
dst-apply_reduced i a c none = refl
dst-apply_reduced i a c (some (op, k)) = refl

-- A reduction leaves the destination.
dst-reduce_args : (i : Instr) (args : List Operand) → (reduce_args i args).dst ≡ i.dst
unfolding reduce_args
dst-reduce_args i (a ∷ imm c ∷ []) =
    dst-apply_reduced i a c (reduce_by i.op c (power_of (to_u64 c)))
dst-reduce_args i _ = refl

-- The immediates are values of an `int`, as the array `args` holds them.
abbrev pub IntImm : Operand → Type 0
IntImm (imm c) = IsInt c
IntImm _ = Unit

module _ (rest : Opcode → ℕ → ℕ → List ℕ → ℕ) (slot : Operand → ℕ)
    (slot_fits : (o : Operand) → slot o < u64_mod) (ρ : Regs) (fits : IsRegs ρ) where
  operand_value-lt : (o : Operand) → operand_value rest slot ρ o < u64_mod
  unfolding operand_value
  operand_value-lt (vreg v) = fits v
  operand_value-lt (imm c) = to_u64-lt c
  operand_value-lt (absent k) = slot_fits (absent k)
  operand_value-lt (label_arg k) = slot_fits (label_arg k)
  operand_value-lt (fp_imm k) = slot_fits (fp_imm k)

  value_same :
      (op op' : Opcode) (type pred : ℕ) (vs vs' : List ℕ) (w : ℕ)
      → int_value op pred vs ≡ int_value op' pred vs'
      → int_value op' pred vs' ≡ some w
      → value rest slot op type pred vs ≡ value rest slot op' type pred vs'
  value_same op op' type pred vs vs' w e k =
      value_known rest slot op type pred vs w (e ∙ k)
      ∙ sym (value_known rest slot op' type pred vs' w k)

  abbrev RoleOf : Instr → Type 0
  RoleOf i = RoleHolds rest slot ρ i (role i.op)

  module _ (i : Instr) (a : Operand) (c : ℤ) (int : IsInt c) where
    reduced-RoleOf :
        (op : Opcode) (o : Option ℕ)
        → power_of (to_u64 c) ≡ o
        → RoleOf
            (apply_reduced (record i { op = op; args = a ∷ imm c ∷ [] }) a c (reduce_by op c o))
          ≡ RoleOf (record i { op = op; args = a ∷ imm c ∷ [] })
    unfolding reduce_by role operand_value
    reduced-RoleOf op_mul (some lg) e =
        let (power, small) = power_of-some (to_u64 c) lg (to_u64-lt c) e in
        ap (λ w. ρ i.dst ≡ w)
          (value_same op_shl op_mul i.type i.pred _ _ _
            (mul_by_shift i.pred (operand_value rest slot ρ a) (operand_value-lt a) c lg small
              power)
            (mul_some i.pred _ _))
    reduced-RoleOf op_udiv (some lg) e =
        let (power, small) = power_of-some (to_u64 c) lg (to_u64-lt c) e in
        ap (λ w. ρ i.dst ≡ w)
          (value_same op_lshr op_udiv i.type i.pred _ _ _
            (udiv_by_shift i.pred (operand_value rest slot ρ a) (operand_value-lt a) c lg small
              power)
            (udiv_some i.pred _ _ (omega (arith, one-le-pow lg 2))))
    reduced-RoleOf op_urem (some lg) e =
        let (power, small) = power_of-some (to_u64 c) lg (to_u64-lt c) e in
        ap (λ w. ρ i.dst ≡ w)
          (value_same op_and op_urem i.type i.pred _ _ _
            (urem_by_mask i.pred (operand_value rest slot ρ a) (operand_value-lt a) c lg small power
              int)
            (urem_some i.pred _ _ (omega (arith, one-le-pow lg 2))))
    reduced-RoleOf _ o e = refl

  reduce_args-DstHolds :
      (i : Instr) (d : ℕ) (args : List Operand)
      → All IntImm args
      → RoleOf (reduce_args (record i { dst = pos d; args = args }) args)
        ≡ RoleOf (record i { dst = pos d; args = args })
  unfolding reduce_args
  reduce_args-DstHolds i d (a ∷ imm c ∷ []) h =
      reduced-RoleOf (record i { dst = pos d }) a c h.1.0 i.op (power_of (to_u64 c)) refl
  reduce_args-DstHolds i d _ h = refl

  by_dst :
      (i : Instr) (d : ℤ) (args : List Operand)
      → All IntImm args
      → Holds rest slot ρ (reduce_instr (record i { dst = d; args = args }))
        ↔ Holds rest slot ρ (record i { dst = d; args = args })
  unfolding reduce_instr
  by_dst i (negsuc d) args h = (λ k. k, λ k. k)
  by_dst i (pos d) args h =
      let e = reduce_args-DstHolds i d args h in
      let stay = dst-reduce_args (record i { dst = pos d; args = args }) args in
      rw stay (λ k. rw e at k, λ k. rw e k)

  reduce_instr-Holds :
      (i : Instr) → All IntImm i.args → Holds rest slot ρ (reduce_instr i) ↔ Holds rest slot ρ i
  reduce_instr-Holds i h = by_dst i i.dst i.args h

  -- On 64-bit registers, for a function whose immediates are `int` values, the strength-reduced
  -- function has exactly the same solutions as the function.
  pub strength_reduce-Satisfies :
      (f : Func)
      → EachInstr (λ i. All IntImm i.args) f
      → Satisfies rest slot ρ (strength_reduce f) ↔ Satisfies rest slot ρ f
  unfolding strength_reduce
  strength_reduce-Satisfies f h =
      map_instrs-All (λ i. All IntImm i.args) (Holds rest slot ρ) reduce_instr reduce_instr-Holds f
        h
