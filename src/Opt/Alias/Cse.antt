-- ===== src/Opt/Alias/Cse.antt =====
-- On `common_subexpr_elim`, src/backend/opt.c.
use mathlib.Core.List.{foldl}
use mini_asm.Base.{
  ℕ, ◌≡◌, refl, Bool, true, false, List, [], ◌∷◌, map, arith, inl, inr, All, Bool-cases, ap, ◌∙◌,
  sym, and_parts,
}
use mini_asm.Base.Int.{ℤ, pos, negsuc}
use mini_asm.Ir.{
  Opcode, op_eq→eq, op_add, op_va_start, op_va_arg, op_va_end, op_memcpy, op_switch, Operand, Instr,
  Block, Func,
}
use mini_asm.Ir.Meaning.{Regs, operand_value, value, Holds, DstHolds, role, computed}
use mini_asm.Opt.Alias.{
  AliasTab, args_eq, is_reg, same_value, find_same, cse_candidate, cse_instr, cse_block,
  common_subexpr_elim,
}
use mini_asm.Opt.Alias.Means.{Means, MeansSome, DstMeans, IsSound, write_alias-IsSound}
use mini_asm.Opt.Alias.Merge.{operand_eq→eq}

-- The opcodes with a hidden state that the pass does not know: a second `va_arg` reads the next
-- argument.
unfoldable pub hidden_state : Opcode → Bool
hidden_state op_va_start = true
hidden_state op_va_arg = true
hidden_state op_va_end = true
hidden_state op_memcpy = true
hidden_state op_switch = true
hidden_state _ = false

args_eq→eq : (as' bs : List Operand) → args_eq as' bs ≡ true → as' ≡ bs
unfolding args_eq
args_eq→eq [] [] h = refl
args_eq→eq (a ∷ as') (b ∷ bs) h =
    let (p, q) = and_parts _ _ h in rw (operand_eq→eq a b p, args_eq→eq as' bs q)
args_eq→eq [] (b ∷ bs) h = cc
args_eq→eq (a ∷ as') [] h = cc

-- What the pass does not skip and has no hidden state is a function of its operands.
candidate_computed :
    (op : Opcode) → cse_candidate op ≡ true → hidden_state op ≡ false → role op ≡ computed
unfolding cse_candidate hidden_state role
candidate_computed op_add h k = refl
candidate_computed _ h k = cc

same_fields :
    (p i : Instr)
    → same_value p i ≡ true
    → (p.op ≡ i.op)
      × (p.type ≡ i.type)
      × (p.pred ≡ i.pred)
      × (p.args ≡ i.args)
      × (is_reg p.dst ≡ true)
unfolding same_value
same_fields p i h = ground (arith, op_eq→eq p.op i.op, args_eq→eq p.args i.args)

module _ (rest : Opcode → ℕ → ℕ → List ℕ → ℕ) (slot : Operand → ℕ) (ρ : Regs) where
  abbrev value_of : Instr → ℕ
  value_of i = value rest slot i.op i.type i.pred (map (operand_value rest slot ρ) i.args)

  -- An instruction that agrees in all that a value depends on has the same value.
  same_value-eq :
      (p i : Instr)
      → same_value p i ≡ true
      → (p.op ≡ i.op) × (value_of p ≡ value_of i) × (is_reg p.dst ≡ true)
  same_value-eq p i h = let (o, t, q, a, r) = same_fields p i h in (o, rw (o, t, q, a), r)

  -- A computed instruction with a register holds its value there, so an equal one may use it.
  reuse :
      (d : ℤ) (p : Instr) (e : ℤ) (w : ℕ)
      → is_reg e ≡ true
      → DstHolds rest slot ρ (record p { dst = e }) e
      → role p.op ≡ computed
      → value_of p ≡ w
      → ρ d ≡ w
      → Means ρ d e
  reuse d p (pos n) w r h c v k = k ∙ sym v ∙ sym (rw c at h)
  reuse d p (negsuc n) w r h c v k = cc

  find_same-MeansSome :
      (d : ℤ) (above : List Instr) (i : Instr)
      → All (Holds rest slot ρ) above
      → role i.op ≡ computed
      → ρ d ≡ value_of i
      → MeansSome ρ d (find_same above i)
  unfolding find_same
  find_same-MeansSome d [] i hs c h = tt
  find_same-MeansSome d (p ∷ ps) i hs c h = elim (Bool-cases (same_value p i)) [
    | inl t ↦
        let (o, v, r) = same_value-eq p i t in
        rw t (reuse d p p.dst (value_of i) r hs.0 (ap role o ∙ c) v h)
    | inr t ↦ rw t (find_same-MeansSome d ps i hs.1 c h)
  ]

  cse_instr-IsSound :
      (above : List Instr) (alias : AliasTab) (i : Instr)
      → All (Holds rest slot ρ) above
      → hidden_state i.op ≡ false
      → Holds rest slot ρ i
      → IsSound ρ alias
      → IsSound ρ (cse_instr above alias i)
  unfolding cse_instr
  cse_instr-IsSound above alias i hs k h s = elim (Bool-cases (cse_candidate i.op)) [
    | inl t ↦ rw t (
        write_alias-IsSound ρ alias i.dst (find_same above i) s
          (go i.dst (candidate_computed i.op t k) h))
    | inr t ↦ rw t s
  ]
    where
      go :
          (d : ℤ)
          → role i.op ≡ computed
          → DstHolds rest slot ρ (record i { dst = d }) d
          → DstMeans ρ d (find_same above i)
      go (pos d) c k' = find_same-MeansSome (pos d) above i hs c (rw c at k')
      go (negsuc d) c k' = tt

  -- What the elimination needs of an instruction.
  abbrev pub IsOpen : Instr → Type 0
  IsOpen i = (hidden_state i.op ≡ false) × Holds rest slot ρ i

  cse_block-IsSound :
      (above is : List Instr) (alias : AliasTab)
      → All (Holds rest slot ρ) above
      → All IsOpen is
      → IsSound ρ alias
      → IsSound ρ (cse_block above is alias)
  unfolding cse_block
  cse_block-IsSound above [] alias hs ks s = s
  cse_block-IsSound above (i ∷ is) alias hs ks s =
      cse_block-IsSound (i ∷ above) is (cse_instr above alias i) (ks.0.1, hs) ks.1
        (cse_instr-IsSound above alias i hs ks.0.0 ks.0.1 s)

  cse_blocks-IsSound :
      (bs : List Block) (alias : AliasTab)
      → All (λ (b : Block). All IsOpen b.instrs) bs
      → IsSound ρ alias
      → IsSound ρ (foldl (λ a (b : Block). cse_block [] b.instrs a) alias bs)
  cse_blocks-IsSound [] alias ks s = s
  cse_blocks-IsSound (b ∷ bs) alias ks s =
      cse_blocks-IsSound bs (cse_block [] b.instrs alias) ks.1
        (cse_block-IsSound [] b.instrs alias tt ks.0 s)

  -- Where no instruction has a hidden state, registers that solve the function's equations keep every
  -- promise of the table after the elimination of common subexpressions, given that they kept them
  -- before.
  pub common_subexpr_elim-IsSound :
      (f : Func) (alias : AliasTab)
      → All (λ (b : Block). All IsOpen b.instrs) f.blocks
      → IsSound ρ alias
      → IsSound ρ (common_subexpr_elim f alias)
  unfolding common_subexpr_elim
  common_subexpr_elim-IsSound f alias ks s = cse_blocks-IsSound f.blocks alias ks s
