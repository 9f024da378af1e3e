-- ===== src/Opt/Alias/Algebra.antt =====
-- On `algebraic_simplify`, src/backend/opt.c.
use mini_asm.Base.{
  ℕ, ◌<◌, ◌≡◌, refl, true, List, [], ◌∷◌, Option, none, some, arith, inl, inr, All, ap,
  if◌then◌else◌, Bool-cases, ◌||◌, ◌∙◌, ◌+◌, ◌-◌, ◌*◌, ◌%◌,
}
use mini_asm.Base.Int.{
  ℤ, pos, negsuc, u64_mod, eq_ℤ_iff, to_u64, to_i64, shr_ℤ, shr_ℤ-zero, to_u64-to_i64,
}
use mini_asm.Base.Bits.{
  bitwise, and_bit, or_bit, xor_bit, or_zero, zero_or, xor_zero, zero_xor, and_zero, zero_and,
}
use mini_asm.Ir.{
  Opcode, op_add, op_sub, op_mul, op_or, op_xor, op_and, op_shl, op_lshr, op_ashr, Operand, vreg,
  imm, Instr, Block, Func,
}
use mini_asm.Ir.Meaning.{
  Regs, IsRegs, operand_value, value, int_value, Holds, DstHolds, RoleHolds, role,
}
use mini_asm.Opt.Alias.{
  AliasTab, algebraic_alias, algebraic_args, algebraic_instr, algebraic_simplify, is_imm_of,
  slot_number, const_zero,
}
use mini_asm.Opt.Alias.Means.{MeansSome, DstMeans, IsSound, write_alias-IsSound, each_instr-IsSound}

-- A register that the front ends hand out.
abbrev pub IsReg : Operand → Type 0
IsReg (vreg (pos v)) = Unit
IsReg _ = ⊥

-- Beside an immediate stands a register; constant folding removes instructions on two immediates.
abbrev pub Mixed : Operand → Operand → Type 0
Mixed (imm c) b = IsReg b
Mixed a (imm c) = IsReg a
Mixed _ _ = Unit

abbrev pub MixedArgs : List Operand → Type 0
MixedArgs (a ∷ b ∷ []) = Mixed a b
MixedArgs _ = Unit

module _ (rest : Opcode → ℕ → ℕ → List ℕ → ℕ) (slot : Operand → ℕ) (ρ : Regs)
    (fits : IsRegs ρ) where
  abbrev val : Operand → ℕ
  val = operand_value rest slot ρ

  -- An immediate `k` on the left, and the register beside it.
  immediate_left :
      (k : ℕ) (a b : Operand)
      → is_imm_of k a ≡ true
      → Mixed a b
      → (v : ℕ) × (b ≡ vreg (pos v)) × (a ≡ imm (pos k))
  unfolding is_imm_of
  immediate_left k (imm c) (vreg (pos v)) t m = (v, refl, ap imm ((eq_ℤ_iff c (pos k)).0 t))
  immediate_left k (imm c) b t m = absurd m
  immediate_left k _ b t m = cc

  immediate_right :
      (k : ℕ) (a b : Operand)
      → is_imm_of k b ≡ true
      → Mixed a b
      → (v : ℕ) × (a ≡ vreg (pos v)) × (b ≡ imm (pos k))
  unfolding is_imm_of
  immediate_right k (vreg (pos v)) (imm c) t m = (v, refl, ap imm ((eq_ℤ_iff c (pos k)).0 t))
  immediate_right k (imm c) (imm e) t m = absurd m
  immediate_right k a (imm c) t m = absurd m
  immediate_right k a _ t m = cc

  module _ (d : ℤ) (k : ℕ) (small : k < u64_mod) (value_of : ℕ → ℕ → ℕ) (a b : Operand)
      (mixed : Mixed a b) (holds : ρ d ≡ value_of (val a) (val b)) where
    mod_small : k % u64_mod ≡ k
    mod_small = omega arith

    keep_left :
        ((x : ℕ) → x < u64_mod → value_of x k ≡ x)
        → (o : Option ℤ) → MeansSome ρ d o
        → MeansSome ρ d (if is_imm_of k b then some (slot_number a) else o)
    unfolding operand_value slot_number
    keep_left law o other = elim (Bool-cases (is_imm_of k b)) [
      | inl t ↦
          let (v, ea, eb) = immediate_right k a b t mixed in
          let same : value_of (val a) (val b) ≡ ρ (pos v) =
            rw (ea, eb, mod_small) (law (ρ (pos v)) (fits (pos v))) in
          rw (t, ea) (holds ∙ same)
      | inr t ↦ rw t other
    ]

    keep_right :
        ((x : ℕ) → x < u64_mod → value_of k x ≡ x)
        → (o : Option ℤ) → MeansSome ρ d o
        → MeansSome ρ d (if is_imm_of k a then some (slot_number b) else o)
    unfolding operand_value slot_number
    keep_right law o other = elim (Bool-cases (is_imm_of k a)) [
      | inl t ↦
          let (v, eb, ea) = immediate_left k a b t mixed in
          let same : value_of (val a) (val b) ≡ ρ (pos v) =
            rw (ea, eb, mod_small) (law (ρ (pos v)) (fits (pos v))) in
          rw (t, eb) (holds ∙ same)
      | inr t ↦ rw t other
    ]

  module _ (d : ℤ) (value_of : ℕ → ℕ → ℕ) (a b : Operand) (mixed : Mixed a b)
      (holds : ρ d ≡ value_of (val a) (val b)) where
    becomes_zero :
        ((x : ℕ) → value_of x 0 ≡ 0)
        → ((x : ℕ) → value_of 0 x ≡ 0)
        → MeansSome ρ d (if is_imm_of 0 a || is_imm_of 0 b then some const_zero else none)
    unfolding operand_value
    becomes_zero right left = elim (Bool-cases (is_imm_of 0 a)) [
      | inl t ↦
          let (v, eb, ea) = immediate_left 0 a b t mixed in
          let same : value_of (val a) (val b) ≡ 0 = rw (ea, eb) (left (ρ (pos v))) in
          rw t (holds ∙ same)
      | inr t ↦ elim (Bool-cases (is_imm_of 0 b)) [
        | inl u ↦
            let (v, ea, eb) = immediate_right 0 a b u mixed in
            let same : value_of (val a) (val b) ≡ 0 = rw (ea, eb) (right (ρ (pos v))) in
            rw (t, u) (holds ∙ same)
        | inr u ↦ rw (t, u) tt
      ]
    ]

  -- A binary opcode's value as a function of its operands.
  abbrev shift_of : Opcode → ℕ → ℕ → ℕ → ℕ → ℕ
  shift_of op type pred x y = value rest slot op type pred (x ∷ y ∷ [])

  algebraic_alias-MeansSome :
      (op : Opcode) (type pred : ℕ) (d : ℤ) (a b : Operand)
      → Mixed a b
      → ρ d ≡ value rest slot op type pred (val a ∷ val b ∷ [])
      → MeansSome ρ d (algebraic_alias op a b)
  unfolding algebraic_alias value int_value
  algebraic_alias-MeansSome op_add type pred d a b m h =
      let f = λ (x y : ℕ). (x + y) % u64_mod in
      keep_right d 0 (omega arith) f a b m h (λ x lt. omega arith) _
        (keep_left d 0 (omega arith) f a b m h (λ x lt. omega arith) none tt)
  algebraic_alias-MeansSome op_sub type pred d a b m h =
      keep_left d 0 (omega arith) (λ x y. (x + (u64_mod - y)) % u64_mod) a b m h
        (λ x lt. omega arith) none tt
  algebraic_alias-MeansSome op_mul type pred d a b m h =
      let f = λ (x y : ℕ). x * y % u64_mod in
      keep_right d 1 (omega arith) f a b m h (λ x lt. omega arith) _
        (keep_left d 1 (omega arith) f a b m h (λ x lt. omega arith) _
          (becomes_zero d f a b m h (λ x. omega arith) (λ x. omega arith)))
  algebraic_alias-MeansSome op_or type pred d a b m h =
      let f = bitwise or_bit 64 in
      keep_right d 0 (omega arith) f a b m h zero_or _
        (keep_left d 0 (omega arith) f a b m h or_zero none tt)
  algebraic_alias-MeansSome op_xor type pred d a b m h =
      let f = bitwise xor_bit 64 in
      keep_right d 0 (omega arith) f a b m h zero_xor _
        (keep_left d 0 (omega arith) f a b m h xor_zero none tt)
  algebraic_alias-MeansSome op_and type pred d a b m h =
      becomes_zero d (bitwise and_bit 64) a b m h and_zero zero_and
  algebraic_alias-MeansSome op_shl type pred d a b m h =
      keep_left d 0 (omega arith) (shift_of op_shl type pred) a b m h (λ x lt. omega arith) none tt
  algebraic_alias-MeansSome op_lshr type pred d a b m h =
      keep_left d 0 (omega arith) (shift_of op_lshr type pred) a b m h (λ x lt. omega arith) none tt
  algebraic_alias-MeansSome op_ashr type pred d a b m h =
      keep_left d 0 (omega arith) (shift_of op_ashr type pred) a b m h ashr_zero none tt
    where
      ashr_zero : (x : ℕ) → x < u64_mod → to_u64 (shr_ℤ (to_i64 x) 0) ≡ x
      ashr_zero x lt = rw shr_ℤ-zero (to_u64-to_i64 x lt)
  algebraic_alias-MeansSome _ type pred d a b m h = tt

  by_role :
      (op : Opcode) (i : Instr) (a b : Operand)
      → Mixed a b
      → RoleHolds rest slot ρ (record i { op = op; args = a ∷ b ∷ [] }) (role op)
      → MeansSome ρ i.dst (algebraic_alias op a b)
  unfolding role algebraic_alias
  by_role op_add i a b m h = algebraic_alias-MeansSome op_add i.type i.pred i.dst a b m h
  by_role op_sub i a b m h = algebraic_alias-MeansSome op_sub i.type i.pred i.dst a b m h
  by_role op_mul i a b m h = algebraic_alias-MeansSome op_mul i.type i.pred i.dst a b m h
  by_role op_or i a b m h = algebraic_alias-MeansSome op_or i.type i.pred i.dst a b m h
  by_role op_xor i a b m h = algebraic_alias-MeansSome op_xor i.type i.pred i.dst a b m h
  by_role op_and i a b m h = algebraic_alias-MeansSome op_and i.type i.pred i.dst a b m h
  by_role op_shl i a b m h = algebraic_alias-MeansSome op_shl i.type i.pred i.dst a b m h
  by_role op_lshr i a b m h = algebraic_alias-MeansSome op_lshr i.type i.pred i.dst a b m h
  by_role op_ashr i a b m h = algebraic_alias-MeansSome op_ashr i.type i.pred i.dst a b m h
  by_role _ i a b m h = tt

  algebraic_args-DstMeans :
      (i : Instr) (d : ℤ) (args : List Operand)
      → MixedArgs args
      → DstHolds rest slot ρ (record i { dst = d; args = args }) d
      → DstMeans ρ d (algebraic_args i.op args)
  unfolding algebraic_args
  algebraic_args-DstMeans i (pos d) (a ∷ b ∷ []) m h =
      by_role i.op (record i { dst = pos d }) a b m h
  algebraic_args-DstMeans i (negsuc d) args m h = tt
  algebraic_args-DstMeans i (pos d) _ m h = tt

  -- If each immediate of a two-operand instruction stands beside a register, 64-bit registers that
  -- solve the function's equations keep every promise of the table after algebraic simplification,
  -- given that they kept them before.
  pub algebraic_simplify-IsSound :
      (f : Func) (alias : AliasTab)
      → All
          (λ (b : Block). All (λ (i : Instr). MixedArgs i.args × Holds rest slot ρ i) b.instrs)
          f.blocks
      → IsSound ρ alias
      → IsSound ρ (algebraic_simplify f alias)
  unfolding algebraic_simplify algebraic_instr
  algebraic_simplify-IsSound f alias h s =
      each_instr-IsSound ρ (λ i. MixedArgs i.args × Holds rest slot ρ i) algebraic_instr
        (λ a i p t.
          write_alias-IsSound ρ a i.dst (algebraic_args i.op i.args) t
            (algebraic_args-DstMeans i i.dst i.args p.0 p.1))
        f alias h s
