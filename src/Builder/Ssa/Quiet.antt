-- ===== src/Builder/Ssa/Quiet.antt =====
-- src/ir/ir_builder.c: the calls of the life cycle and of placeholders, which append no instruction.
use Prim.Native.String.{String}
use mini_asm.Base.{
  ℕ, zero, suc, ◌+◌, ◌≡◌, refl, sym, ap, ◌∙◌, List, [], ◌∷◌, ◌++◌, Option, none, some, length,
  get_elem?, update_at, arith, some_inj,
}
use mini_asm.Ir.{Instr, Block, Func}
use mini_asm.Ir.Build.{ir_func_new, ir_block_new}
use mini_asm.Ir.FpTable.{FpTable}
use mini_asm.Builder.State.{
  IrValue, IrBuilder, Cell, Build, ir_builder_func, ir_builder_params, ir_builder_block,
}
use mini_asm.Builder.Alias.{
  blocks_at, finalize_args, finalize_instrs, finalize_blocks, finalize_func, ir_value_placeholder,
  ir_value_define, ir_builder_finalize,
}
use mini_asm.Builder.Ssa.{defs_instrs, defs, defines, IsSsa, allowed_mono}

-- A step that succeeds and keeps the definitions single.
abbrev pub Quiet : {A : Type 0} → Build A → Type 0
Quiet {A} m =
    (b : IrBuilder) → (a : A) × (b' : IrBuilder) × (m b ≡ some (a, b')) × (IsSsa b → IsSsa b')

blocks_at-new : (fs : List Func) (f : Func) → blocks_at (fs ++ f ∷ []) (length fs) ≡ f.blocks
blocks_at-new [] f = refl
blocks_at-new (x ∷ fs) f = blocks_at-new fs f

new_function :
    (v : ℕ) (fs : List Func) (f : Func) (k : ℕ)
    → some (length fs) ≡ some k
    → defs v (blocks_at (fs ++ f ∷ []) k) ≡ defs v f.blocks
new_function v fs f k e =
    ap (λ n. defs v (blocks_at (fs ++ f ∷ []) n)) (sym (some_inj.0 e))
    ∙ ap (defs v) (blocks_at-new fs f)

pub func-Quiet : (n : String) (r : ℕ) → Quiet (ir_builder_func n r)
unfolding ir_builder_func ir_func_new
func-Quiet n r b = (_, _, refl, (λ s f e v. omega (arith, new_function v b.m.funcs _ f e)))

-- A change of one function that leaves its definitions leaves those of every function.
defs-update :
    (v : ℕ) (fs : List Func) (i f : ℕ) (g : Func → Func)
    → ((x : Func) → get_elem? fs i ≡ some x → defs v (g x).blocks ≡ defs v x.blocks)
    → defs v (blocks_at (update_at fs i g) f) ≡ defs v (blocks_at fs f)
defs-update v [] i f g h = refl
defs-update v (x ∷ fs) zero zero g h = h x refl
defs-update v (x ∷ fs) zero (suc f) g h = refl
defs-update v (x ∷ fs) (suc i) zero g h = refl
defs-update v (x ∷ fs) (suc i) (suc f) g h = defs-update v fs i f g h

pub params-Quiet : (f : ℕ) (ts : List ℕ) (n : ℕ) → Quiet (ir_builder_params f ts n)
unfolding ir_builder_params
params-Quiet f ts n b = (
  _,
  _,
  refl,
  (λ s k e v. omega (
    arith,
    s k e v,
    defs-update v b.m.funcs f k (λ (fn : Func). record fn { nparams = n; params = ts })
        (λ x q. refl),
  )),
)

defs-append : (v : ℕ) (xs ys : List Block) → defs v (xs ++ ys) ≡ defs v xs + defs v ys
defs-append v [] ys = omega arith
defs-append v (x ∷ xs) ys = omega (arith, defs-append v xs ys)

empty_block-defs :
    (v : ℕ) (x : Func) (n : String) → defs v (ir_block_new x n).blocks ≡ defs v x.blocks
unfolding ir_block_new
empty_block-defs v x n = omega (arith, defs-append v x.blocks _)

pub block-Quiet : (f : ℕ) (n : String) → Quiet (ir_builder_block f n)
unfolding ir_builder_block ir_block_new
block-Quiet f n b = (
  _,
  _,
  refl,
  (λ s k e v. omega (
    arith,
    s k e v,
    defs-update v b.m.funcs f k (λ (fn : Func). ir_block_new fn n) (λ x q. empty_block-defs v x n),
  )),
)

pub placeholder-Quiet : (t : ℕ) → Quiet (ir_value_placeholder t)
unfolding ir_value_placeholder
placeholder-Quiet t b = (
  _,
  _,
  refl,
  (λ s f e v. omega (arith, s f e v, allowed_mono v b.next_vreg (b.next_vreg + 1) (omega arith))),
)

pub define-Quiet : (p a : Option IrValue) → Quiet (ir_value_define p a)
unfolding ir_value_define
define-Quiet (some p) (some a) b = (tt, _, refl, (λ s. s))
define-Quiet none (some a) b = (tt, b, refl, (λ s. s))
define-Quiet none none b = (tt, b, refl, (λ s. s))
define-Quiet (some p) none b = (tt, b, refl, (λ s. s))

finalize_instrs-defs :
    (cs : List Cell) (t : FpTable) (v : ℕ) (is : List Instr)
    → defs_instrs v (finalize_instrs cs t is).1 ≡ defs_instrs v is
unfolding finalize_instrs
finalize_instrs-defs cs t v [] = refl
finalize_instrs-defs cs t v (i ∷ is) =
    ap (λ n. defines v i + n) (finalize_instrs-defs cs (finalize_args cs t i.args).0 v is)

finalize_blocks-defs :
    (cs : List Cell) (t : FpTable) (v : ℕ) (bs : List Block)
    → defs v (finalize_blocks cs t bs).1 ≡ defs v bs
unfolding finalize_blocks
finalize_blocks-defs cs t v [] = refl
finalize_blocks-defs cs t v (b ∷ bs) = omega (
  arith,
  finalize_instrs-defs cs t v b.instrs,
  finalize_blocks-defs cs (finalize_instrs cs t b.instrs).0 v bs,
)

pub finalize_func-IsSsa : (f : ℕ) (b : IrBuilder) → IsSsa b → IsSsa (finalize_func f b)
unfolding finalize_func
finalize_func-IsSsa f b s k e v = omega (
  arith,
  s k e v,
  defs-update v b.m.funcs f k
      (λ (fn : Func). record fn {
        blocks = (finalize_blocks b.aliases b.fp (blocks_at b.m.funcs f)).1;
      })
      (λ x q.
        finalize_blocks-defs b.aliases b.fp v (blocks_at b.m.funcs f)
        ∙ ap (λ (o : Option Func). defs v (elim o [ none ↦ [] | some fn ↦ fn.blocks ])) q),
)

pub finalize-IsSsa : (b : IrBuilder) → IsSsa b → IsSsa (ir_builder_finalize b)
unfolding ir_builder_finalize
finalize-IsSsa b s = if_function b.cur_func
  where
    if_function : (o : Option ℕ) → IsSsa (elim o [ none ↦ b | some f ↦ finalize_func f b ])
    if_function none = s
    if_function (some f) = finalize_func-IsSsa f b s
