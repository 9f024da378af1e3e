-- ===== src/Opt/Alias/Copy.antt =====
-- On `copy_propagate_func`, src/backend/opt.c.
use mini_asm.Base.{ℕ, zero, suc, ◌≡◌, ◌↔◌, refl, List, All, All-intro, sym, get_or}
use mini_asm.Base.Int.{ℤ, pos, negsuc}
use mini_asm.Ir.{Opcode, Operand, vreg, Instr, Block, Func}
use mini_asm.Ir.Meaning.{Regs, operand_value, Holds, Satisfies}
use mini_asm.Ir.Rewrite.{args-Holds}
use mini_asm.Opt.Alias.{
  AliasTab, unknown, apply_alias, copy_operand, copy_instr, copy_propagate_func,
}
use mini_asm.Opt.Alias.Means.{Means, IsSound, map_instrs-All}

each_trivial : (bs : List Block) → All (λ (b : Block). All (λ (i : Instr). Unit {0}) b.instrs) bs
each_trivial bs =
    All-intro (λ (b : Block). All (λ (i : Instr). Unit {0}) b.instrs) bs
      (λ b. All-intro (λ (i : Instr). Unit {0}) b.instrs (λ i. tt))

module _ (rest : Opcode → ℕ → ℕ → List ℕ → ℕ) (slot : Operand → ℕ) (ρ : Regs) where
  apply_alias-value :
      (v : ℤ) (a : ℤ) → Means ρ v a → operand_value rest slot ρ (apply_alias v a) ≡ ρ v
  unfolding apply_alias operand_value
  apply_alias-value v (pos w) m = sym m
  apply_alias-value v (negsuc zero) m = refl
  apply_alias-value v (negsuc (suc zero)) m = sym m
  apply_alias-value v (negsuc (suc (suc zero))) m = sym m
  apply_alias-value v (negsuc (suc (suc (suc k)))) m = refl

  module _ (alias : AliasTab) (sound : IsSound ρ alias) where
    -- An operand keeps its value.
    pub copy_operand-value :
        (o : Operand)
        → operand_value rest slot ρ (copy_operand alias o) ≡ operand_value rest slot ρ o
    unfolding copy_operand operand_value
    copy_operand-value (vreg (pos v)) = apply_alias-value (pos v) (get_or alias v unknown) (sound v)
    copy_operand-value (vreg (negsuc v)) = refl
    copy_operand-value _ = refl

    copy-Holds : (i : Instr) → Holds rest slot ρ (copy_instr alias i) ≡ Holds rest slot ρ i
    unfolding copy_instr
    copy-Holds i = args-Holds rest slot ρ (copy_operand alias) copy_operand-value i

    -- Under a table whose promises the registers keep, they solve the equations of the function after
    -- copy propagation exactly if they did before.
    pub copy_propagate_func-Satisfies :
        (f : Func) → Satisfies rest slot ρ (copy_propagate_func f alias) ↔ Satisfies rest slot ρ f
    unfolding copy_propagate_func
    copy_propagate_func-Satisfies f =
        map_instrs-All (λ _. Unit {0}) (Holds rest slot ρ) (copy_instr alias)
          (λ i _. (λ h. rw (copy-Holds i) at h, λ h. rw (copy-Holds i) h)) f (each_trivial f.blocks)
