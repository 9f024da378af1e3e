-- ===== src/Opt/Fold/Loop.antt =====
-- On the rounds of `ir_constfold_func`, src/backend/opt.c.
use mini_asm.Base.{
  ℕ, zero, suc, ◌+◌, ◌≡◌, refl, Bool, false, ◌||◌, Option, none, some, ap, List, [], ◌∷◌, map,
  Bool-cases, inl, inr, All, length, get_or-replicate,
}
use mini_asm.Base.Int.{ℤ, pos_part}
use mini_asm.Ir.{Opcode, Operand, vreg, Instr, Block, Func}
use mini_asm.Ir.Meaning.{Regs, Holds, Satisfies}
use mini_asm.Opt.Alias.Means.{EachInstr, zip_blocks}
use mini_asm.Opt.Common.{func_maxv}
use mini_asm.Opt.Strength.Sound.{IntImm}
use mini_asm.Opt.Fold.{
  ConstTab, consttab_new, to_imm, known_value, subst_operand, subst_instr, learn_instr, is_known,
  any_arg, fold_instrs, fold_blocks, fold_loop, ir_constfold_func,
}
use mini_asm.Opt.Fold.Pass.{
  IsNarrow, Foldable, TabHolds, to_int-IsInt, learn_instr-TabHolds, subst_instr-Holds,
}

to_imm-IntImm : (v : ℤ) (o : Option ℤ) → IntImm (to_imm v o)
to_imm-IntImm v none = tt
to_imm-IntImm v (some z) = to_int-IsInt z

subst-IntImm :
    (t : ConstTab) (args : List Operand) → All IntImm args → All IntImm (map (subst_operand t) args)
unfolding subst_operand
subst-IntImm t [] h = tt
subst-IntImm t (vreg v ∷ os) h = (to_imm-IntImm v (known_value t v), subst-IntImm t os h.1)
subst-IntImm t (o ∷ os) h = (h.0, subst-IntImm t os h.1)

length-subst :
    (t : ConstTab) (args : List Operand) → length (map (subst_operand t) args) ≡ length args
length-subst t [] = refl
length-subst t (o ∷ os) = ap suc (length-subst t os)

subst_instr-Foldable : (t : ConstTab) (i : Instr) → Foldable i → Foldable (subst_instr t i)
unfolding subst_instr
subst_instr-Foldable t i h = (rw (length-subst t i.args) h.0, subst-IntImm t i.args h.1)

module _ (rest : Opcode → ℕ → ℕ → List ℕ → ℕ) (slot : Operand → ℕ) (ρ : Regs)
    (narrow : IsNarrow ρ) where
  -- An instruction that folding may look at and whose equation holds.
  abbrev Good : Instr → Type 0
  Good i = Foldable i × Holds rest slot ρ i

  fold_instrs-Good :
      (t : ConstTab) (ch : Bool) (is : List Instr)
      → TabHolds ρ t
      → All Good is
      → All Good (fold_instrs t ch is).0 × TabHolds ρ (fold_instrs t ch is).1
  unfolding fold_instrs
  fold_instrs-Good t ch [] s h = (tt, s)
  fold_instrs-Good t ch (i ∷ is) s h =
      let i' = subst_instr t i in
      let f = subst_instr-Foldable t i h.0.0 in
      let k = subst_instr-Holds rest slot ρ narrow t i s h.0.1 in
      let (goods, s') =
        fold_instrs-Good (learn_instr t i') (ch || any_arg (is_known t) i.args) is
          (learn_instr-TabHolds rest slot ρ t i' f k s) h.1 in
      (((f, k), goods), s')

  fold_blocks-Good :
      (t : ConstTab) (ch : Bool) (bs : List Block)
      → TabHolds ρ t
      → All (λ (b : Block). All Good b.instrs) bs
      → All (λ (b : Block). All Good b.instrs) (fold_blocks t ch bs).0
        × TabHolds ρ (fold_blocks t ch bs).1
  unfolding fold_blocks
  fold_blocks-Good t ch [] s h = (tt, s)
  fold_blocks-Good t ch (b ∷ bs) s h =
      let (goods, s') = fold_instrs-Good t ch b.instrs s h.0 in
      let r = fold_instrs t ch b.instrs in
      let (more, s'') = fold_blocks-Good r.1 r.2 bs s' h.1 in ((goods, more), s'')

  fold_loop-Good :
      (passes : ℕ) (t : ConstTab) (bs : List Block)
      → TabHolds ρ t
      → All (λ (b : Block). All Good b.instrs) bs
      → All (λ (b : Block). All Good b.instrs) (fold_loop passes t bs)
  unfolding fold_loop
  fold_loop-Good zero t bs s h = h
  fold_loop-Good (suc passes) t bs s h =
      let (goods, s') = fold_blocks-Good t false bs s h in
      elim (Bool-cases (fold_blocks t false bs).2) [
        | inl c ↦
            rw c
              (fold_loop-Good passes (fold_blocks t false bs).1 (fold_blocks t false bs).0 s' goods)
        | inr c ↦ rw c goods
      ]

  -- The folded function keeps the solution, and folding may look at it again.
  pub ir_constfold_func-Good : (f : Func) → EachInstr Good f → EachInstr Good (ir_constfold_func f)
  unfolding ir_constfold_func consttab_new
  ir_constfold_func-Good f h =
      fold_loop-Good 16 (consttab_new (pos_part (func_maxv f) + 1)) f.blocks
        (λ v. rw (get_or-replicate {A = Option ℤ} (pos_part (func_maxv f) + 1) v none) tt) h

  -- Registers that hold `int` values and solve the equations of a function whose foldable instructions
  -- are no conversions and have the right number of operands, with `int` immediates, solve those of the
  -- constant-folded function.
  pub ir_constfold_func-Satisfies :
      (f : Func)
      → EachInstr Foldable f
      → Satisfies rest slot ρ f
      → Satisfies rest slot ρ (ir_constfold_func f)
  ir_constfold_func-Satisfies f h s =
      zip_blocks Good Good (Holds rest slot ρ) (λ i g _. g.1) (ir_constfold_func f).blocks goods
        goods
    where
      goods : EachInstr Good (ir_constfold_func f)
      goods =
          ir_constfold_func-Good f
            (zip_blocks Foldable (Holds rest slot ρ) Good (λ i p q. (p, q)) f.blocks h s)
