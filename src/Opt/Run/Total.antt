-- ===== src/Opt/Run/Total.antt =====
-- On the termination of `ir_optimize`, src/backend/opt.c.
use mini_asm.Base.{ℕ, zero, suc, ◌≡◌, refl, List, [], ◌∷◌, some, Bool-cases, inl, inr}
use mini_asm.Base.Int.{ℤ, pos, ltb_ℤ}
use mini_asm.Ir.{Block, Func, Module}
use mini_asm.Opt.Fold.{ir_constfold_func}
use mini_asm.Opt.Dce.Sound.{ir_dce_func_total}
use mini_asm.Opt.DeadBlocks.{prune, fold_branches, dead_block_elim}
use mini_asm.Opt.DeadBlocks.Reach.{prune_marks}
use mini_asm.Opt.Run.{
  rewrite_func, optimize_round, optimize_rounds, ir_optimize_func, optimize_funcs, ir_optimize,
}

prune_total : (bs : List Block) → (cs : List Block) × (prune bs ≡ some cs)
unfolding prune
prune_total [] = ([], refl)
prune_total (b ∷ bs) = (_, (prune_marks b bs).1)

pub dead_block_elim_total : (f : Func) → (g : Func) × (dead_block_elim f ≡ some g)
unfolding dead_block_elim
dead_block_elim_total f =
    let (cs, e) = prune_total (fold_branches f.blocks) in (record f { blocks = cs }, rw e)

optimize_round_total : (f : Func) → (g : Func) × (optimize_round f ≡ some g)
unfolding optimize_round
optimize_round_total f =
    let (g, eg) = ir_dce_func_total (ir_constfold_func f) in
    let (h, eh) = ir_dce_func_total (rewrite_func g) in
    let (k, ek) = dead_block_elim_total h in (k, rw (eg, eh, ek))

optimize_rounds_total : (n : ℕ) (f : Func) → (g : Func) × (optimize_rounds n f ≡ some g)
unfolding optimize_rounds
optimize_rounds_total zero f = (f, refl)
optimize_rounds_total (suc n) f =
    let (g, eg) = optimize_round_total f in
    let (h, eh) = optimize_rounds_total n g in (h, rw (eg, eh))

optimize_funcs_total : (fs : List Func) → (gs : List Func) × (optimize_funcs fs ≡ some gs)
unfolding optimize_funcs ir_optimize_func
optimize_funcs_total [] = ([], refl)
optimize_funcs_total (f ∷ fs) =
    let (g, eg) = optimize_rounds_total 8 f in
    let (gs, es) = optimize_funcs_total fs in (g ∷ gs, rw (eg, es))

-- The optimizer returns a module on every module at every level: neither the elimination loop nor the
-- block search runs for ever.
pub ir_optimize_total : (level : ℤ) (m : Module) → (m' : Module) × (ir_optimize level m ≡ some m')
unfolding ir_optimize
ir_optimize_total level m = elim (Bool-cases (ltb_ℤ (pos 0) level)) [
  | inl t ↦ let (gs, es) = optimize_funcs_total m.funcs in (record m { funcs = gs }, rw (t, es))
  | inr t ↦ (m, rw t)
]
