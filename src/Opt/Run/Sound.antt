-- ===== src/Opt/Run/Sound.antt =====
-- On src/backend/opt.c, `ir_optimize_func` from `func_maxv` to `free(alias)`: the passes on one table
-- together.
use mini_asm.Base.{
  ℕ, ◌<◌, ◌+◌, ◌≡◌, refl, false, List, [], ◌∷◌, map, Option, some, All, get_or-replicate, inl, inr,
  Bool-cases,
}
use mini_asm.Base.Int.{ℤ, u64_mod, to_u64, pos_part}
use mini_asm.Ir.{Opcode, op_mul, op_udiv, op_urem, Operand, imm, Instr, Block, Func}
use mini_asm.Ir.Meaning.{Regs, IsRegs, Holds, Satisfies}
use mini_asm.Opt.Common.{func_maxv}
use mini_asm.Opt.Alias.{unknown, is_reg}
use mini_asm.Opt.Alias.Means.{EachInstr, IsSound, zip_blocks}
use mini_asm.Opt.Alias.Algebra.{MixedArgs, algebraic_simplify-IsSound}
use mini_asm.Opt.Alias.Merge.{IsNumbered, phi_simplify-IsSound, fold_self_icmp-IsSound}
use mini_asm.Opt.Alias.Cse.{hidden_state, common_subexpr_elim-IsSound}
use mini_asm.Opt.Alias.Load.{ReadsBack, local_load_elim-IsSound, collaps_ext_chains-IsSound}
use mini_asm.Opt.Alias.Copy.{copy_propagate_func-Satisfies}
use mini_asm.Opt.Fold.Sound.{is_ext}
use mini_asm.Opt.Strength.{
  power_of, reduce_by, apply_reduced, reduce_args, reduce_instr, strength_reduce,
}
use mini_asm.Opt.Strength.Sound.{IntImm, strength_reduce-Satisfies}
use mini_asm.Opt.Run.{alias_new, alias_table, rewrite_func}

-- What the passes need of an instruction: operands as the front ends write them, no hidden state and no
-- conversion.
pub record IsPlain (i : Instr) : Type 0 where
  pub mixed : MixedArgs i.args
  pub numbered : All IsNumbered i.args
  pub ints : All IntImm i.args
  pub open_state : hidden_state i.op ≡ false
  pub no_ext : is_ext i.op ≡ false

alias_new-IsSound : (ρ : Regs) (f : Func) → IsSound ρ (alias_new f)
unfolding alias_new
alias_new-IsSound ρ f v = rw (get_or-replicate (pos_part (func_maxv f) + 2) v unknown) tt

-- The properties that strength reduction leaves.
abbrev Later : Instr → Type 0
Later i = All IsNumbered i.args × (hidden_state i.op ≡ false) × (is_ext i.op ≡ false)

reduced-Later :
    (i : Instr) (a : Operand) (c : ℤ) (op : Opcode) (o : Option ℕ)
    → Later (record i { op = op; args = a ∷ imm c ∷ [] })
    → Later (apply_reduced (record i { op = op; args = a ∷ imm c ∷ [] }) a c (reduce_by op c o))
unfolding reduce_by hidden_state is_ext
reduced-Later i a c op_mul (some lg) h = ((h.0.0, (tt, tt)), refl, refl)
reduced-Later i a c op_udiv (some lg) h = ((h.0.0, (tt, tt)), refl, refl)
reduced-Later i a c op_urem (some lg) h = ((h.0.0, (tt, tt)), refl, refl)
reduced-Later i a c _ o h = h

args-Later :
    (i : Instr) (args : List Operand)
    → Later (record i { args = args })
    → Later (reduce_args (record i { args = args }) args)
unfolding reduce_args
args-Later i (a ∷ imm c ∷ []) h = reduced-Later i a c i.op (power_of (to_u64 c)) h
args-Later i _ h = h

reduce_instr-Later : (i : Instr) → Later i → Later (reduce_instr i)
unfolding reduce_instr
reduce_instr-Later i h = elim (Bool-cases (is_reg i.dst)) [
  | inl t ↦ rw t (args-Later i i.args h)
  | inr t ↦ rw t h
]

instrs-Later : (is : List Instr) → All IsPlain is → All Later (map reduce_instr is)
instrs-Later [] h = tt
instrs-Later (i ∷ is) h =
    (reduce_instr-Later i (h.0.numbered, h.0.open_state, h.0.no_ext), instrs-Later is h.1)

blocks-Later :
    (bs : List Block)
    → All (λ (b : Block). All IsPlain b.instrs) bs
    → All
        (λ (b : Block). All Later b.instrs)
        (map (λ (b : Block). record b { instrs = map reduce_instr b.instrs }) bs)
blocks-Later [] h = tt
blocks-Later (b ∷ bs) h = (instrs-Later b.instrs h.0, blocks-Later bs h.1)

strength_reduce-Later : (f : Func) → EachInstr IsPlain f → EachInstr Later (strength_reduce f)
unfolding strength_reduce
strength_reduce-Later f h = blocks-Later f.blocks h

module _ (rest : Opcode → ℕ → ℕ → List ℕ → ℕ) (slot : Operand → ℕ)
    (slot_fits : (o : Operand) → slot o < u64_mod) (ρ : Regs) (fits : IsRegs ρ) (f : Func)
    (plain : EachInstr IsPlain f) (solution : Satisfies rest slot ρ f)
    (memory : All (λ (b : Block). ReadsBack rest slot ρ b.instrs) (strength_reduce f).blocks) where
  abbrev reduced : Func
  reduced = strength_reduce f

  reduced-Satisfies : Satisfies rest slot ρ reduced
  reduced-Satisfies =
      (strength_reduce-Satisfies rest slot slot_fits ρ fits f (
          zip_blocks IsPlain IsPlain (λ i. All IntImm i.args) (λ i p _. p.ints) f.blocks plain
            plain)).1
        solution

  later : EachInstr Later reduced
  later = strength_reduce-Later f plain

  with-Later :
      (Q : Instr → Type 0)
      → ((i : Instr) → Later i → Holds rest slot ρ i → Q i)
      → EachInstr Q reduced
  with-Later Q both =
      zip_blocks Later (Holds rest slot ρ) Q both reduced.blocks later reduced-Satisfies

  alias_table-IsSound : IsSound ρ (alias_table f reduced)
  unfolding alias_table
  alias_table-IsSound =
      local_load_elim-IsSound rest slot ρ reduced _
        (with-Later (λ i. All IsNumbered i.args) (λ i l h. l.0)) memory
        (collaps_ext_chains-IsSound ρ reduced _ (with-Later _ (λ i l h. l.2)) (
          fold_self_icmp-IsSound rest slot ρ reduced _ reduced-Satisfies (
            phi_simplify-IsSound rest slot ρ reduced _ (with-Later _ (λ i l h. (l.0, h))) (
              common_subexpr_elim-IsSound rest slot ρ reduced _ (with-Later _ (λ i l h. (l.1, h))) (
                algebraic_simplify-IsSound rest slot ρ fits f (alias_new f)
                  (zip_blocks IsPlain (Holds rest slot ρ) _ (λ i p h. (p.mixed, h)) f.blocks plain
                    solution)
                  (alias_new-IsSound ρ f))))))

  -- Registers that solve the equations of a function without conversions and hidden state, whose
  -- operands are numbered registers and `int` immediates with a register beside each immediate of a
  -- pair, still solve them after one application of the alias table and of strength reduction, provided
  -- that a load right after a store of the same type through the same register reads the value back.
  pub rewrite_func-Satisfies : Satisfies rest slot ρ (rewrite_func f)
  unfolding rewrite_func
  rewrite_func-Satisfies =
      (copy_propagate_func-Satisfies rest slot ρ (alias_table f reduced) alias_table-IsSound
          reduced).1
        reduced-Satisfies
