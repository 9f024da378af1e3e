-- ===== src/Opt/Alias/Merge.antt =====
-- On `phi_simplify` and `fold_self_icmp`, src/backend/opt.c.
use mini_asm.Base.{
  ℕ, zero, suc, ◌≡◌, refl, ◌<◌, true, false, List, [], ◌∷◌, map, Option, none, some, arith, inl,
  inr, All, Bool-cases, ap, ◌∙◌,
}
use mini_asm.Base.Int.{ℤ, pos, negsuc, eq_ℤ, eq_ℤ_iff, ltb_ℤ}
use mini_asm.Ir.{
  Opcode, op_eq, op_eq→eq, op_phi, op_icmp, Operand, absent, vreg, imm, label_arg, fp_imm,
  operand_eq, Instr, Block, Func,
}
use mini_asm.Ir.Meaning.{
  Regs, operand_value, value, value_known, int_value, Holds, DstHolds, MergeHolds, role,
}
use mini_asm.Opt.Alias.{
  AliasTab, phi_alias, phi_instr, phi_simplify, icmp_self_value, self_alias, self_icmp_args,
  self_icmp_instr, fold_self_icmp,
}
use mini_asm.Opt.Alias.Means.{MeansSome, DstMeans, IsSound, write_alias-IsSound, each_instr-IsSound}

pub operand_eq→eq : (a b : Operand) → operand_eq a b ≡ true → a ≡ b
operand_eq→eq (absent a) (absent b) h = ap absent ((eq_ℤ_iff a b).0 h)
operand_eq→eq (vreg a) (vreg b) h = ap vreg ((eq_ℤ_iff a b).0 h)
operand_eq→eq (imm a) (imm b) h = ap imm ((eq_ℤ_iff a b).0 h)
operand_eq→eq (label_arg a) (label_arg b) h = ap label_arg ((eq_ℤ_iff a b).0 h)
operand_eq→eq (fp_imm a) (fp_imm b) h = ap fp_imm ((eq_ℤ_iff a b).0 h)
operand_eq→eq _ _ h = cc

-- A register's number is not negative.
abbrev pub IsNumbered : Operand → Type 0
IsNumbered (vreg (negsuc v)) = ⊥
IsNumbered _ = Unit

ltb_ℤ_irrefl : (z : ℤ) → ltb_ℤ z z ≡ false
ltb_ℤ_irrefl z = ground arith

-- The outcome that the table of predicates gives for two equal values is the comparison's value, for
-- every predicate number and every word.
pub icmp_self_value_lem : (pred x : ℕ) → int_value op_icmp pred (x ∷ x ∷ []) ≡ icmp_self_value pred
unfolding icmp_self_value int_value
icmp_self_value_lem zero x = ground arith
icmp_self_value_lem (suc zero) x = ground arith
icmp_self_value_lem (suc (suc zero)) x = rw ltb_ℤ_irrefl
icmp_self_value_lem (suc (suc (suc zero))) x = rw ltb_ℤ_irrefl
icmp_self_value_lem (suc (suc (suc (suc zero)))) x = rw ltb_ℤ_irrefl
icmp_self_value_lem (suc (suc (suc (suc (suc zero))))) x = rw ltb_ℤ_irrefl
icmp_self_value_lem (suc (suc (suc (suc (suc (suc zero)))))) x = ground arith
icmp_self_value_lem (suc (suc (suc (suc (suc (suc (suc zero))))))) x = ground arith
icmp_self_value_lem (suc (suc (suc (suc (suc (suc (suc (suc zero)))))))) x = ground arith
icmp_self_value_lem (suc (suc (suc (suc (suc (suc (suc (suc (suc zero))))))))) x = ground arith
icmp_self_value_lem _ x = refl

icmp_self_value-lt : (pred v : ℕ) → icmp_self_value pred ≡ some v → v < 2
unfolding icmp_self_value
icmp_self_value-lt zero v h = ground arith
icmp_self_value-lt (suc zero) v h = ground arith
icmp_self_value-lt (suc (suc zero)) v h = ground arith
icmp_self_value-lt (suc (suc (suc zero))) v h = ground arith
icmp_self_value-lt (suc (suc (suc (suc zero)))) v h = ground arith
icmp_self_value-lt (suc (suc (suc (suc (suc zero))))) v h = ground arith
icmp_self_value-lt (suc (suc (suc (suc (suc (suc zero)))))) v h = ground arith
icmp_self_value-lt (suc (suc (suc (suc (suc (suc (suc zero))))))) v h = ground arith
icmp_self_value-lt (suc (suc (suc (suc (suc (suc (suc (suc zero)))))))) v h = ground arith
icmp_self_value-lt (suc (suc (suc (suc (suc (suc (suc (suc (suc zero))))))))) v h = ground arith
icmp_self_value-lt _ v h = cc

module _ (rest : Opcode → ℕ → ℕ → List ℕ → ℕ) (slot : Operand → ℕ) (ρ : Regs) where
  both_inputs :
      (d : ℤ) (a b : Operand) (as' : List Operand)
      → operand_eq a b ≡ true
      → MergeHolds rest slot ρ d (a ∷ b ∷ as')
      → ρ d ≡ operand_value rest slot ρ a
  both_inputs d a b as' t (inl h) = h
  both_inputs d a b as' t (inr h) = rw (operand_eq→eq a b t) h

  phi_alias-MeansSome :
      (d : ℤ) (args : List Operand)
      → All IsNumbered args
      → MergeHolds rest slot ρ d args
      → MeansSome ρ d (phi_alias args)
  unfolding phi_alias operand_value
  phi_alias-MeansSome d (vreg (pos v) ∷ b ∷ as') n h =
      elim (Bool-cases (operand_eq (vreg (pos v)) b)) [
        | inl t ↦ rw t (both_inputs d (vreg (pos v)) b as' t h)
        | inr t ↦ rw t tt
      ]
  phi_alias-MeansSome d (imm c ∷ b ∷ as') n h = elim (Bool-cases (operand_eq (imm c) b)) [
    | inl t ↦ elim (Bool-cases (eq_ℤ c (pos 0))) [
      | inl z ↦
          let h' = both_inputs d (imm c) b as' t h in rw (t, z) (h' ∙ rw ((eq_ℤ_iff c (pos 0)).0 z))
      | inr z ↦ rw (t, z) tt
    ]
    | inr t ↦ rw t tt
  ]
  phi_alias-MeansSome d (vreg (negsuc v) ∷ as') n h = absurd n.0
  phi_alias-MeansSome d _ n h = tt

  phi_instr-IsSound :
      (alias : AliasTab) (i : Instr)
      → All IsNumbered i.args × Holds rest slot ρ i
      → IsSound ρ alias
      → IsSound ρ (phi_instr alias i)
  unfolding phi_instr role
  phi_instr-IsSound alias i h s = elim (Bool-cases (op_eq i.op op_phi)) [
    | inl t ↦ rw t (
        write_alias-IsSound ρ alias i.dst (phi_alias i.args) s (go i.op i.dst (op_eq→eq _ _ t) h.1))
    | inr t ↦ rw t s
  ]
    where
      go :
          (op : Opcode) (d : ℤ)
          → op ≡ op_phi
          → DstHolds rest slot ρ (record i { op = op; dst = d }) d
          → DstMeans ρ d (phi_alias i.args)
      go op (pos d) e k = phi_alias-MeansSome (pos d) i.args h.0 (rw e at k)
      go op (negsuc d) e k = tt

  -- For numbered registers, a solution of the equations keeps every promise of the table after phi
  -- simplification, given that it kept them before.
  pub phi_simplify-IsSound :
      (f : Func) (alias : AliasTab)
      → All
          (λ (b : Block). All (λ (i : Instr). All IsNumbered i.args × Holds rest slot ρ i) b.instrs)
          f.blocks
      → IsSound ρ alias
      → IsSound ρ (phi_simplify f alias)
  unfolding phi_simplify
  phi_simplify-IsSound f alias h s =
      each_instr-IsSound ρ (λ i. All IsNumbered i.args × Holds rest slot ρ i) phi_instr
        phi_instr-IsSound f alias h s

  self_alias-MeansSome :
      (d : ℤ) (o : Option ℕ)
      → ((v : ℕ) → o ≡ some v → (v < 2) × (ρ d ≡ v))
      → MeansSome ρ d (self_alias o)
  unfolding self_alias
  self_alias-MeansSome d none h = tt
  self_alias-MeansSome d (some zero) h = (h 0 refl).1
  self_alias-MeansSome d (some (suc zero)) h = (h 1 refl).1
  self_alias-MeansSome d (some (suc (suc v))) h = absurd (omega (arith, (h (suc (suc v)) refl).0))

  self_value :
      (type pred x v : ℕ)
      → icmp_self_value pred ≡ some v
      → value rest slot op_icmp type pred (x ∷ x ∷ []) ≡ v
  self_value type pred x v k =
      value_known rest slot op_icmp type pred (x ∷ x ∷ []) v (icmp_self_value_lem pred x ∙ k)

  self_icmp_args-MeansSome :
      (d : ℤ) (type pred : ℕ) (args : List Operand)
      → ρ d ≡ value rest slot op_icmp type pred (map (operand_value rest slot ρ) args)
      → MeansSome ρ d (self_icmp_args pred args)
  unfolding self_icmp_args operand_value
  self_icmp_args-MeansSome d type pred (vreg a ∷ vreg b ∷ []) h = elim (Bool-cases (eq_ℤ a b)) [
    | inl t ↦
        let e = (eq_ℤ_iff a b).0 t in
        rw t (
          self_alias-MeansSome d (icmp_self_value pred)
            (λ v k. (icmp_self_value-lt pred v k, h ∙ rw (← e) (self_value type pred (ρ a) v k))))
    | inr t ↦ rw t tt
  ]
  self_icmp_args-MeansSome d type pred _ h = tt

  self_icmp_instr-IsSound :
      (alias : AliasTab) (i : Instr)
      → Holds rest slot ρ i
      → IsSound ρ alias
      → IsSound ρ (self_icmp_instr alias i)
  unfolding self_icmp_instr role
  self_icmp_instr-IsSound alias i h s = elim (Bool-cases (op_eq i.op op_icmp)) [
    | inl t ↦ rw t (
        write_alias-IsSound ρ alias i.dst (self_icmp_args i.pred i.args) s
          (go i.op i.dst (op_eq→eq _ _ t) h))
    | inr t ↦ rw t s
  ]
    where
      go :
          (op : Opcode) (d : ℤ)
          → op ≡ op_icmp
          → DstHolds rest slot ρ (record i { op = op; dst = d }) d
          → DstMeans ρ d (self_icmp_args i.pred i.args)
      go op (pos d) e k = self_icmp_args-MeansSome (pos d) i.type i.pred i.args (rw e at k)
      go op (negsuc d) e k = tt

  -- A solution of the equations keeps every promise of the table after comparisons of a register with
  -- itself are folded, given that it kept them before.
  pub fold_self_icmp-IsSound :
      (f : Func) (alias : AliasTab)
      → All (λ (b : Block). All (Holds rest slot ρ) b.instrs) f.blocks
      → IsSound ρ alias
      → IsSound ρ (fold_self_icmp f alias)
  unfolding fold_self_icmp
  fold_self_icmp-IsSound f alias h s =
      each_instr-IsSound ρ (Holds rest slot ρ) self_icmp_instr self_icmp_instr-IsSound f alias h s
