-- ===== src/Ir/Rewrite.antt =====
-- On rewriting the operands of an instruction.
use mini_asm.Base.{ℕ, ◌≡◌, refl, List, [], ◌∷◌, map}
use mini_asm.Base.Int.{ℤ, pos, negsuc}
use mini_asm.Ir.{Opcode, Operand, Instr}
use mini_asm.Ir.Meaning.{
  Regs, operand_value, Holds, DstHolds, RoleHolds, MergeHolds, Role, effect, merge, computed, role,
}

abbrev pub map_args : (Operand → Operand) → Instr → Instr
map_args g i = record i { args = map g i.args }

module _ (rest : Opcode → ℕ → ℕ → List ℕ → ℕ) (slot : Operand → ℕ) (ρ : Regs)
    (g : Operand → Operand)
    (same : (o : Operand) → operand_value rest slot ρ (g o) ≡ operand_value rest slot ρ o) where
  pub args-value :
      (args : List Operand)
      → map (operand_value rest slot ρ) (map g args) ≡ map (operand_value rest slot ρ) args
  args-value [] = refl
  args-value (o ∷ os) = rw (same o, args-value os)

  args-MergeHolds :
      (d : ℤ) (args : List Operand)
      → MergeHolds rest slot ρ d (map g args) ≡ MergeHolds rest slot ρ d args
  args-MergeHolds d [] = refl
  args-MergeHolds d (a ∷ []) = refl
  args-MergeHolds d (a ∷ b ∷ os) = rw (same a, same b)

  args-RoleHolds :
      (i : Instr) (r : Role) → RoleHolds rest slot ρ (map_args g i) r ≡ RoleHolds rest slot ρ i r
  args-RoleHolds i effect = refl
  args-RoleHolds i merge = args-MergeHolds i.dst i.args
  args-RoleHolds i computed = rw (args-value i.args)

  args-DstHolds :
      (i : Instr) (d : ℤ) → DstHolds rest slot ρ (map_args g i) d ≡ DstHolds rest slot ρ i d
  args-DstHolds i (pos d) = args-RoleHolds i (role i.op)
  args-DstHolds i (negsuc d) = refl

  -- The equation of an instruction is the same type before and after.
  pub args-Holds : (i : Instr) → Holds rest slot ρ (map_args g i) ≡ Holds rest slot ρ i
  args-Holds i = args-DstHolds i i.dst
