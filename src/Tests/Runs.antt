-- ===== src/Tests/Runs.antt =====
-- The passes on the sample functions.
use mini_asm.Base.{◌≡◌, refl, map, [], ◌∷◌, some, true}
use mini_asm.Base.Int.{pos, ◌+ℤ◌, ◌*ℤ◌}
use mini_asm.Base.Bits.{bitwise}
use mini_asm.Ir.{op_ret, Block, op_mul, op_shl, op_zext, op_va_arg}
use mini_asm.Opt.Common.{func_maxv}
use mini_asm.Opt.Fold.{
  consttab_new, is_known, subst_instr, learn_instr, fold_instrs, fold_blocks, fold_loop,
  ir_constfold_func,
}
use mini_asm.Opt.Dce.{
  mark_uses, is_kept, drops_any, sweep_block, any_dropped, used_flags, dce_loop, count_instrs,
  ir_dce_func,
}
use mini_asm.Opt.Strength.{trailing_zeros, is_pow2_u64, power_of, reduce_instr, strength_reduce}
use mini_asm.Opt.DeadBlocks.{
  fold_cbr, search_loop, keep_marked, search_start, prune, dead_block_elim,
}
use mini_asm.Opt.Alias.{
  algebraic_simplify, common_subexpr_elim, phi_simplify, fold_self_icmp, collaps_ext_chains,
  local_load_elim, copy_propagate_func, cse_candidate, find_same, ext_alias,
}
use mini_asm.Opt.Run.{optimize_round, rewrite_func, alias_table, alias_new, ◌>>=◌}
use mini_asm.Tests.Samples.{
  late_func, jump, no_dst, instr, block, func, reg, num, const_func, folded_func, swept_func,
  branch_block, dead_block, exit_block, entry_block,
}

ir_constfold_func_test : ir_constfold_func const_func ≡ folded_func
unfolding ir_constfold_func fold_loop fold_blocks fold_instrs learn_instr subst_instr consttab_new
    func_maxv is_known ◌+ℤ◌ ◌*ℤ◌
ir_constfold_func_test = refl

ir_dce_func_test : ir_dce_func const_func ≡ some swept_func
unfolding ir_dce_func dce_loop count_instrs used_flags mark_uses any_dropped drops_any sweep_block
    is_kept func_maxv
ir_dce_func_test = refl

power_of_test : power_of 64 ≡ some 6
unfolding power_of is_pow2_u64 trailing_zeros bitwise
power_of_test = refl

strength_reduce_test :
    strength_reduce (func (block "entry" (instr op_mul (pos 1) (reg 0 ∷ num 8 ∷ []) ∷ []) ∷ []))
    ≡ func (block "entry" (instr op_shl (pos 1) (reg 0 ∷ num 3 ∷ []) ∷ []) ∷ [])
unfolding strength_reduce reduce_instr is_pow2_u64 trailing_zeros bitwise
strength_reduce_test = refl

dead_block_elim_test :
    dead_block_elim (func (branch_block ∷ dead_block ∷ exit_block ∷ []))
    ≡ some (func (entry_block ∷ exit_block ∷ []))
unfolding dead_block_elim fold_cbr prune search_start search_loop keep_marked
dead_block_elim_test = refl

-- Two reads of a variable argument list are one candidate and one value to the pass.
va_arg_merged :
    find_same (instr op_va_arg (pos 1) (reg 0 ∷ []) ∷ []) (instr op_va_arg (pos 2) (reg 0 ∷ []))
    ≡ some (pos 1)
unfolding find_same
va_arg_merged = refl

va_arg_candidate : cse_candidate op_va_arg ≡ true
unfolding cse_candidate
va_arg_candidate = refl

-- The second of two widenings is replaced by the value before the first.
ext_alias_test :
    ext_alias (instr op_zext (pos 1) (reg 0 ∷ [])) (instr op_zext (pos 2) (reg 1 ∷ []))
    ≡ some (pos 0)
unfolding ext_alias
ext_alias_test = refl

-- The sum of two immediates, read in an earlier block, becomes the register with the sum's number.
late_func_test :
    (do g ← optimize_round late_func; some (map (λ (b : Block). b.instrs) g.blocks))
    ≡ some ((jump "def" ∷ []) ∷ (instr op_ret no_dst (reg 5 ∷ []) ∷ []) ∷ (jump "use" ∷ []) ∷ [])
unfolding optimize_round ir_dce_func dce_loop any_dropped ir_constfold_func fold_loop fold_blocks
    fold_instrs is_known learn_instr subst_instr consttab_new func_maxv drops_any is_kept used_flags
    mark_uses count_instrs sweep_block rewrite_func alias_table alias_new algebraic_simplify
    common_subexpr_elim phi_simplify fold_self_icmp collaps_ext_chains local_load_elim
    copy_propagate_func strength_reduce reduce_instr dead_block_elim fold_cbr prune search_start
    search_loop keep_marked ◌+ℤ◌
late_func_test = refl
