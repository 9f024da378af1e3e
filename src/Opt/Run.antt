-- ===== src/Opt/Run.antt =====
-- src/backend/opt.c, "Orchestrator": the passes in their order, eight rounds to a function.
pub mod Sound
pub mod Total
use mini_asm.Base.{
  ℕ, zero, suc, ◌+◌, Bool, List, [], ◌∷◌, Option, none, some, replicate, leb, if◌then◌else◌,
}
use mini_asm.Base.Int.{ℤ, pos_part, ltb_ℤ, pos}
use mini_asm.Ir.{Func, Module}
use mini_asm.Opt.Common.{func_maxv}
use mini_asm.Opt.Fold.{ir_constfold_func}
use mini_asm.Opt.Dce.{ir_dce_func}
use mini_asm.Opt.Alias.{
  AliasTab, unknown, algebraic_simplify, common_subexpr_elim, phi_simplify, fold_self_icmp,
  collaps_ext_chains, local_load_elim, copy_propagate_func,
}
use mini_asm.Opt.Strength.{strength_reduce}
use mini_asm.Opt.DeadBlocks.{dead_block_elim}

infixl 5 ◌>>=◌
abbrev pub ◌>>=◌ {ℓ κ} : {A : Type ℓ} {B : Type κ} → Option A → (A → Option B) → Option B
none >>= k = none
some a >>= k = k a

-- `alias[i] = -1` for `maxv + 2` cells.
unfoldable pub alias_new : Func → AliasTab
alias_new f = replicate (pos_part (func_maxv f) + 2) unknown

-- The table after the passes that read the function `g`, which strength reduction made of `f`.
unfoldable pub alias_table : Func → Func → AliasTab
alias_table f g = local_load_elim g (
    collaps_ext_chains g (
      fold_self_icmp g
        (phi_simplify g (common_subexpr_elim g (algebraic_simplify f (alias_new f))))))

-- From `func_maxv` to `free(alias)`.
unfoldable pub rewrite_func : Func → Func
rewrite_func f = copy_propagate_func (strength_reduce f) (alias_table f (strength_reduce f))

-- The body of the loop over `iter`.
unfoldable pub optimize_round : Func → Option Func
optimize_round f = do
  g ← ir_dce_func (ir_constfold_func f)
  h ← ir_dce_func (rewrite_func g)
  dead_block_elim h

unfoldable pub optimize_rounds : ℕ → Func → Option Func
optimize_rounds zero f = some f
optimize_rounds (suc n) f = do g ← optimize_round f; optimize_rounds n g

unfoldable pub ir_optimize_func : Func → Option Func
ir_optimize_func = optimize_rounds 8

unfoldable pub optimize_funcs : List Func → Option (List Func)
optimize_funcs [] = some []
optimize_funcs (f ∷ fs) = do g ← ir_optimize_func f; gs ← optimize_funcs fs; some (g ∷ gs)

-- `ir_opt_level <= 0` leaves the module.
unfoldable pub ir_optimize : ℤ → Module → Option Module
ir_optimize level m =
    if ltb_ℤ (pos 0) level
    then (do fs ← optimize_funcs m.funcs; some (record m { funcs = fs }))
    else some m
