-- ===== src/Builder/Alias/Finalize.antt =====
-- src/ir/ir_builder.c, `ir_builder_finalize`: what is left of the placeholders, and a second call.
use mini_asm.Base.{
  ℕ, zero, suc, ◌≡◌, refl, sym, ap, ◌∙◌, none, some, false, List, [], ◌∷◌, All, update_at,
  Option-cases, inl, inr,
}
use mathlib.Core.Path.{subst}
use mini_asm.Ir.{Operand, absent, vreg, imm, label_arg, fp_imm, Instr, Block, Func}
use mini_asm.Ir.FpTable.{FpTable}
use mini_asm.Builder.State.{Cell, IrBuilder}
use mini_asm.Builder.Alias.{
  Resolved, to_vreg, to_imm, to_fp, cell_of, put_resolved, finalize_arg, finalize_args,
  finalize_instrs, finalize_blocks, finalize_func, blocks_at, ir_builder_finalize,
}
use mini_asm.Builder.Alias.Leads.{IsSettled, IsPlain, resolve_vreg-IsPlain, resolve_vreg-plain}

-- An operand's placeholder, if it is one, leads somewhere in fewer than 32 hops.
abbrev pub Settles : List Cell → Operand → Type 0
Settles cs (vreg v) = IsSettled cs v
Settles cs (absent _) = Unit
Settles cs (imm _) = Unit
Settles cs (label_arg _) = Unit
Settles cs (fp_imm _) = Unit

-- An operand is no defined placeholder.
abbrev pub IsFinal : List Cell → Operand → Type 0
IsFinal cs (vreg v) = (cell_of cs v).known ≡ false
IsFinal cs (absent _) = Unit
IsFinal cs (imm _) = Unit
IsFinal cs (label_arg _) = Unit
IsFinal cs (fp_imm _) = Unit

-- A predicate of every operand.
abbrev pub AllArgs : (Operand → Type 0) → List Block → Type 0
AllArgs P bs = All (λ (b : Block). All (λ (i : Instr). All P i.args) b.instrs) bs

put_resolved-IsFinal :
    (cs : List Cell) (t : FpTable) (r : Resolved) → IsPlain cs r → IsFinal cs (put_resolved t r).1
unfolding put_resolved
put_resolved-IsFinal cs t (to_vreg v) h = h
put_resolved-IsFinal cs t (to_imm c) h = tt
put_resolved-IsFinal cs t (to_fp c) h = tt

arg-IsFinal :
    (cs : List Cell) (t : FpTable) (o : Operand) → Settles cs o → IsFinal cs (finalize_arg cs t o).1
unfolding finalize_arg
arg-IsFinal cs t (vreg v) h = put_resolved-IsFinal cs t _ (resolve_vreg-IsPlain cs v h)
arg-IsFinal cs t (absent _) h = tt
arg-IsFinal cs t (imm _) h = tt
arg-IsFinal cs t (label_arg _) h = tt
arg-IsFinal cs t (fp_imm _) h = tt

args-IsFinal :
    (cs : List Cell) (t : FpTable) (os : List Operand)
    → All (Settles cs) os
    → All (IsFinal cs) (finalize_args cs t os).1
unfolding finalize_args
args-IsFinal cs t [] h = tt
args-IsFinal cs t (o ∷ os) h =
    (arg-IsFinal cs t o h.0, args-IsFinal cs (finalize_arg cs t o).0 os h.1)

instrs-IsFinal :
    (cs : List Cell) (t : FpTable) (is : List Instr)
    → All (λ (i : Instr). All (Settles cs) i.args) is
    → All (λ (i : Instr). All (IsFinal cs) i.args) (finalize_instrs cs t is).1
unfolding finalize_instrs
instrs-IsFinal cs t [] h = tt
instrs-IsFinal cs t (i ∷ is) h =
    (args-IsFinal cs t i.args h.0, instrs-IsFinal cs (finalize_args cs t i.args).0 is h.1)

blocks-IsFinal :
    (cs : List Cell) (t : FpTable) (bs : List Block)
    → AllArgs (Settles cs) bs
    → AllArgs (IsFinal cs) (finalize_blocks cs t bs).1
unfolding finalize_blocks
blocks-IsFinal cs t [] h = tt
blocks-IsFinal cs t (b ∷ bs) h =
    (instrs-IsFinal cs t b.instrs h.0, blocks-IsFinal cs (finalize_instrs cs t b.instrs).0 bs h.1)

-- Operands without a defined placeholder stay.
arg_stays :
    (cs : List Cell) (t : FpTable) (o : Operand) → IsFinal cs o → finalize_arg cs t o ≡ (t, o)
unfolding finalize_arg put_resolved
arg_stays cs t (vreg v) h = rw (resolve_vreg-plain cs v h)
arg_stays cs t (absent _) h = refl
arg_stays cs t (imm _) h = refl
arg_stays cs t (label_arg _) h = refl
arg_stays cs t (fp_imm _) h = refl

args_stay :
    (cs : List Cell) (t : FpTable) (os : List Operand)
    → All (IsFinal cs) os
    → finalize_args cs t os ≡ (t, os)
unfolding finalize_args
args_stay cs t [] h = refl
args_stay cs t (o ∷ os) h = rw (arg_stays cs t o h.0, args_stay cs t os h.1)

instrs_stay :
    (cs : List Cell) (t : FpTable) (is : List Instr)
    → All (λ (i : Instr). All (IsFinal cs) i.args) is
    → finalize_instrs cs t is ≡ (t, is)
unfolding finalize_instrs
instrs_stay cs t [] h = refl
instrs_stay cs t (i ∷ is) h = rw (args_stay cs t i.args h.0, instrs_stay cs t is h.1)

blocks_stay :
    (cs : List Cell) (t : FpTable) (bs : List Block)
    → AllArgs (IsFinal cs) bs
    → finalize_blocks cs t bs ≡ (t, bs)
unfolding finalize_blocks
blocks_stay cs t [] h = refl
blocks_stay cs t (b ∷ bs) h = rw (instrs_stay cs t b.instrs h.0, blocks_stay cs t bs h.1)

-- The blocks of the current function.
abbrev pub current_blocks : IrBuilder → List Block
current_blocks b = elim b.cur_func [ none ↦ [] | some f ↦ blocks_at (b.m.funcs) f ]

blocks_at-update :
    (fs : List Func) (f : ℕ) (xs : List Block)
    → (blocks_at fs f ≡ [] → xs ≡ [])
    → blocks_at (update_at fs f (λ (fn : Func). record fn { blocks = xs })) f ≡ xs
blocks_at-update [] f xs h = sym (h refl)
blocks_at-update (x ∷ fs) zero xs h = refl
blocks_at-update (x ∷ fs) (suc f) xs h = blocks_at-update fs f xs h

update_at-twice :
    {A : Type 0} (xs : List A) (i : ℕ) (g : A → A)
    → ((x : A) → g (g x) ≡ g x)
    → update_at (update_at xs i g) i g ≡ update_at xs i g
update_at-twice [] i g h = refl
update_at-twice (x ∷ xs) zero g h = ap (λ y. y ∷ xs) (h x)
update_at-twice (x ∷ xs) (suc i) g h = ap (λ ys. x ∷ ys) (update_at-twice xs i g h)

finalized_blocks :
    (b : IrBuilder) (f : ℕ)
    → blocks_at (finalize_func f b).m.funcs f
      ≡ (finalize_blocks b.aliases b.fp (blocks_at b.m.funcs f)).1
unfolding finalize_func finalize_blocks
finalized_blocks b f =
    blocks_at-update b.m.funcs f _ (λ e. ap (λ bs. (finalize_blocks b.aliases b.fp bs).1) e)

finalize_func-twice :
    (b : IrBuilder) (f : ℕ)
    → AllArgs (Settles b.aliases) (blocks_at b.m.funcs f)
    → finalize_func f (finalize_func f b) ≡ finalize_func f b
unfolding finalize_func
finalize_func-twice b f h =
    let cs = b.aliases in
    let bs = blocks_at b.m.funcs f in
    let stay : finalize_blocks cs (finalize_blocks cs b.fp bs).0 (finalize_blocks cs b.fp bs).1
        ≡ ((finalize_blocks cs b.fp bs).0, (finalize_blocks cs b.fp bs).1) =
      blocks_stay cs _ _ (blocks-IsFinal cs b.fp bs h) in
    rw (
      finalize_func,
      finalized_blocks b f,
      stay,
      update_at-twice b.m.funcs f
          (λ (fn : Func). record fn { blocks = (finalize_blocks cs b.fp bs).1 }) (λ x. refl),
    )

finalize-none : (b : IrBuilder) → b.cur_func ≡ none → ir_builder_finalize b ≡ b
unfolding ir_builder_finalize
finalize-none b e = ap (λ o. elim o [ none ↦ b | some f ↦ finalize_func f b ]) e

finalize-some :
    (b : IrBuilder) (f : ℕ) → b.cur_func ≡ some f → ir_builder_finalize b ≡ finalize_func f b
unfolding ir_builder_finalize
finalize-some b f e = ap (λ o. elim o [ none ↦ b | some f ↦ finalize_func f b ]) e

blocks-none : (b : IrBuilder) → b.cur_func ≡ none → current_blocks b ≡ []
blocks-none b e = ap (λ o. elim o [ none ↦ [] | some f ↦ blocks_at (b.m.funcs) f ]) e

blocks-some :
    (b : IrBuilder) (f : ℕ) → b.cur_func ≡ some f → current_blocks b ≡ blocks_at b.m.funcs f
blocks-some b f e = ap (λ o. elim o [ none ↦ [] | some f ↦ blocks_at (b.m.funcs) f ]) e

finalize_some_lem :
    (b : IrBuilder) (f : ℕ)
    → b.cur_func ≡ some f
    → AllArgs (Settles b.aliases) (current_blocks b)
    → AllArgs (IsFinal b.aliases) (current_blocks (ir_builder_finalize b))
      × (ir_builder_finalize (ir_builder_finalize b) ≡ ir_builder_finalize b)
unfolding finalize_func
finalize_some_lem b f e h =
    let settled : AllArgs (Settles b.aliases) (blocks_at b.m.funcs f) =
      subst (AllArgs (Settles b.aliases)) (blocks-some b f e) h in
    (
      subst (AllArgs (IsFinal b.aliases))
          (sym (
            ap current_blocks (finalize-some b f e)
            ∙ blocks-some (finalize_func f b) f e
            ∙ finalized_blocks b f))
          (blocks-IsFinal b.aliases b.fp (blocks_at b.m.funcs f) settled),
      ap ir_builder_finalize (finalize-some b f e)
          ∙ finalize-some (finalize_func f b) f e
          ∙ finalize_func-twice b f settled
          ∙ sym (finalize-some b f e),
    )

-- If every register that the current function reads leads to a result by fewer than 32 links, no
-- operand is a defined placeholder after `ir_builder_finalize`, and a second call changes nothing.
pub ir_builder_finalize_lem :
    (b : IrBuilder)
    → AllArgs (Settles b.aliases) (current_blocks b)
    → AllArgs (IsFinal b.aliases) (current_blocks (ir_builder_finalize b))
      × (ir_builder_finalize (ir_builder_finalize b) ≡ ir_builder_finalize b)
ir_builder_finalize_lem b h = elim (Option-cases b.cur_func) [
  | inl n ↦ (
    subst (AllArgs (IsFinal b.aliases))
        (sym (ap current_blocks (finalize-none b n) ∙ blocks-none b n)) tt,
    ap ir_builder_finalize (finalize-none b n),
  )
  | inr (f, e) ↦ finalize_some_lem b f e h
]
