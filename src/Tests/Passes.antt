-- ===== src/Tests/Passes.antt =====
-- The theorems about the passes at concrete inputs.
use mini_asm.Base.{
  zero, suc, ◌≡◌, ◌<◌, ◌^◌, ◌↔◌, refl, List, [], ◌∷◌, some, true, false, arith, All, replicate,
  get_or, get_or-replicate,
}
use mini_asm.Base.Int.{pos, negsuc, IsInt, to_u64, u64_mod}
use mini_asm.Base.Bits.{bitwise}
use mini_asm.Ir.{op_icmp, op_sdiv, Operand, Instr, Block, Func, Module}
use mini_asm.Ir.Meaning.{role, operand_value, value, int_value, binary, Holds, Satisfies, Regs}
use mini_asm.Ir.Regs.{uses, defines}
use mini_asm.Opt.Common.{func_maxv}
use mini_asm.Opt.Fold.{fold_binary, foldable, to_imm, ir_constfold_func}
use mini_asm.Opt.Fold.Sound.{FoldsTo, is_ext, fold_binary-FoldsTo}
use mini_asm.Opt.Fold.Pass.{arity, Foldable, to_imm-value_iff}
use mini_asm.Opt.Fold.Loop.{ir_constfold_func-Satisfies}
use mini_asm.Opt.Dce.{
  used_flags, mark_uses, is_kept, drops_any, sweep_block, any_dropped, dce_loop, count_instrs,
  ir_dce_func,
}
use mini_asm.Opt.Dce.Marks.{get_or-used_flags}
use mini_asm.Opt.Dce.Sound.{
  IsLive, effects, ir_dce_func_total, ir_dce_func-IsLive, ir_dce_func-effects, ir_dce_func-defines,
}
use mini_asm.Opt.Strength.{trailing_zeros, is_pow2_u64, reduce_instr, strength_reduce}
use mini_asm.Opt.Strength.Pow2.{is_pow2_u64_iff}
use mini_asm.Opt.Strength.Sound.{strength_reduce-Satisfies}
use mini_asm.Opt.Alias.{
  algebraic_simplify, common_subexpr_elim, phi_simplify, fold_self_icmp, local_load_elim,
  copy_propagate_func, unknown, AliasTab, icmp_self_value,
}
use mini_asm.Opt.Alias.Means.{EachInstr, IsSound, zip_blocks}
use mini_asm.Opt.Alias.Merge.{
  IsNumbered, icmp_self_value_lem, phi_simplify-IsSound, fold_self_icmp-IsSound,
}
use mini_asm.Opt.Alias.Algebra.{MixedArgs, algebraic_simplify-IsSound}
use mini_asm.Opt.Alias.Cse.{hidden_state, common_subexpr_elim-IsSound}
use mini_asm.Opt.Alias.Load.{ReadsBack, local_load_elim-IsSound}
use mini_asm.Opt.Alias.Copy.{copy_propagate_func-Satisfies}
use mini_asm.Opt.DeadBlocks.{prune}
use mini_asm.Opt.DeadBlocks.Edges.{Reach}
use mini_asm.Opt.DeadBlocks.Kept.{Selects, prune_lem}
use mini_asm.Opt.Run.{rewrite_func, ir_optimize}
use mini_asm.Opt.Run.Sound.{IsPlain, rewrite_func-Satisfies}
use mini_asm.Opt.Run.Total.{ir_optimize_total}
use mini_asm.Tests.Samples.{
  arith_func, const_func, swept_func, entry_block, dead_block, exit_block, sample_regs, rest_zero,
  slot_zero, sample_regs-fits, sample_regs-IsInt,
}

abbrev small_slot : (o : Operand) → slot_zero o < u64_mod
small_slot o = omega arith

arith_func-IsPlain : EachInstr IsPlain arith_func
unfolding hidden_state is_ext
arith_func-IsPlain = (
  (
    record {
      mixed = tt;
      numbered = (tt, (tt, tt));
      ints = (tt, (omega arith, tt));
      open_state = refl;
      no_ext = refl;
    },
    (
      record {
        mixed = tt;
        numbered = (tt, (tt, tt));
        ints = (tt, (omega arith, tt));
        open_state = refl;
        no_ext = refl;
      },
      (
        record {
          mixed = tt;
          numbered = (tt, (tt, tt));
          ints = (tt, (omega arith, tt));
          open_state = refl;
          no_ext = refl;
        },
        (
          record { mixed = tt; numbered = tt; ints = tt; open_state = refl; no_ext = refl },
          (
            record {
              mixed = tt;
              numbered = (tt, (tt, tt));
              ints = (tt, (tt, tt));
              open_state = refl;
              no_ext = refl;
            },
            (
              record {
                mixed = tt;
                numbered = (tt, tt);
                ints = (tt, tt);
                open_state = refl;
                no_ext = refl;
              },
              (
                record {
                  mixed = tt;
                  numbered = (tt, tt);
                  ints = (tt, tt);
                  open_state = refl;
                  no_ext = refl;
                },
                tt,
              ),
            ),
          ),
        ),
      ),
    ),
  ),
  tt,
)

arith_func-Satisfies : Satisfies rest_zero slot_zero sample_regs arith_func
unfolding role value int_value operand_value
arith_func-Satisfies = ((refl, (refl, (refl, (tt, (tt, (tt, (tt, tt))))))), tt)

reduced-ReadsBack :
    All
      (λ (b : Block). ReadsBack rest_zero slot_zero sample_regs b.instrs)
      (strength_reduce arith_func).blocks
unfolding strength_reduce reduce_instr is_pow2_u64 trailing_zeros bitwise operand_value
reduced-ReadsBack = (
  (λ a b c. tt, (λ a b c. tt, (λ a b c. tt, (λ a b c. tt, (λ a b c d. refl, (λ a b c. tt, tt)))))),
  tt,
)

rewrite_func-Satisfies_example : Satisfies rest_zero slot_zero sample_regs (rewrite_func arith_func)
rewrite_func-Satisfies_example =
    rewrite_func-Satisfies rest_zero slot_zero small_slot sample_regs sample_regs-fits arith_func
      arith_func-IsPlain arith_func-Satisfies reduced-ReadsBack

arith_func-Foldable : EachInstr Foldable arith_func
unfolding foldable is_ext arity
arith_func-Foldable = (
  (
    (refl, (tt, (omega arith, tt))),
    (
      (refl, (tt, (omega arith, tt))),
      (
        (refl, (tt, (omega arith, tt))),
        ((refl, tt), ((refl, (tt, (tt, tt))), ((refl, (tt, tt)), ((refl, (tt, tt)), tt)))),
      ),
    ),
  ),
  tt,
)

ir_constfold_func-Satisfies_example :
    Satisfies rest_zero slot_zero sample_regs (ir_constfold_func arith_func)
ir_constfold_func-Satisfies_example =
    ir_constfold_func-Satisfies rest_zero slot_zero sample_regs sample_regs-IsInt arith_func
      arith_func-Foldable arith_func-Satisfies

abbrev sample_module : Module
sample_module = record { funcs = arith_func ∷ const_func ∷ []; strings = [] }

ir_optimize_total_example : (m' : Module) × (ir_optimize (pos 1) sample_module ≡ some m')
ir_optimize_total_example = ir_optimize_total (pos 1) sample_module

prune_lem_example :
    (cs : List Block) × (prune (entry_block ∷ dead_block ∷ exit_block ∷ []) ≡ some cs)
    × Selects
        (Reach (entry_block ∷ dead_block ∷ exit_block ∷ []))
        0
        (entry_block ∷ dead_block ∷ exit_block ∷ [])
        cs
prune_lem_example = prune_lem entry_block (dead_block ∷ exit_block ∷ [])

swept : ir_dce_func const_func ≡ some swept_func
unfolding ir_dce_func dce_loop count_instrs used_flags mark_uses any_dropped drops_any sweep_block
    is_kept func_maxv
swept = refl

ir_dce_func-defines_example : defines 1 swept_func.blocks ≡ true
ir_dce_func-defines_example = ir_dce_func-defines const_func swept_func swept 1 refl refl

ir_dce_func-effects_example : effects swept_func.blocks ≡ effects const_func.blocks
ir_dce_func-effects_example = ir_dce_func-effects const_func swept_func swept

ir_dce_func-IsLive_example :
    All (λ (b : Block). All (IsLive swept_func.blocks) b.instrs) swept_func.blocks
ir_dce_func-IsLive_example = ir_dce_func-IsLive const_func swept_func swept

ir_dce_func_total_example : (g : Func) × (ir_dce_func const_func ≡ some g)
ir_dce_func_total_example = ir_dce_func_total const_func

get_or-used_flags_example :
    get_or (used_flags 6 arith_func.blocks) 4 false ≡ uses 4 arith_func.blocks
get_or-used_flags_example = get_or-used_flags 6 arith_func.blocks 4 (omega arith)

strength_reduce-Satisfies_example :
    Satisfies rest_zero slot_zero sample_regs (strength_reduce arith_func)
    ↔ Satisfies rest_zero slot_zero sample_regs arith_func
strength_reduce-Satisfies_example =
    strength_reduce-Satisfies rest_zero slot_zero small_slot sample_regs sample_regs-fits arith_func
      (
        (
          (tt, (omega arith, tt)),
          (
            (tt, (omega arith, tt)),
            ((tt, (omega arith, tt)), (tt, ((tt, (tt, tt)), ((tt, tt), ((tt, tt), tt))))),
          ),
        ),
        tt,
      )

is_pow2_u64_iff_example : (is_pow2_u64 8 ≡ some 3) ↔ ((8 ≡ 2 ^ 3) × (3 < 64))
is_pow2_u64_iff_example = is_pow2_u64_iff 8 3 (omega arith)

sdiv_plain : is_ext op_sdiv ≡ false
unfolding is_ext
sdiv_plain = refl

fold_binary-FoldsTo_example :
    FoldsTo
      (fold_binary op_sdiv (negsuc 6) (pos 2) 0)
      (binary op_sdiv 0 (to_u64 (negsuc 6)) (to_u64 (pos 2)))
fold_binary-FoldsTo_example =
    fold_binary-FoldsTo op_sdiv (negsuc 6) (pos 2) 0 sdiv_plain (omega arith) (omega arith)

abbrev big_regs : Regs
big_regs v = 10000000000

to_imm-value_iff_example :
    (operand_value rest_zero slot_zero big_regs (to_imm (pos 3) (some (pos 10000000000)))
      ≡ big_regs (pos 3))
    ↔ IsInt (pos 10000000000)
to_imm-value_iff_example =
    to_imm-value_iff rest_zero slot_zero big_regs 3 (pos 10000000000) (refl, omega arith)

abbrev fresh_table : AliasTab
fresh_table = replicate 6 unknown

fresh-IsSound : IsSound sample_regs fresh_table
fresh-IsSound v = rw (get_or-replicate 6 v unknown) tt

algebraic_simplify-IsSound_example : IsSound sample_regs (algebraic_simplify arith_func fresh_table)
algebraic_simplify-IsSound_example =
    algebraic_simplify-IsSound rest_zero slot_zero sample_regs sample_regs-fits arith_func
      fresh_table
      (zip_blocks IsPlain (Holds rest_zero slot_zero sample_regs)
        (λ (i : Instr). MixedArgs i.args × Holds rest_zero slot_zero sample_regs i)
        (λ i p h. (p.mixed, h)) arith_func.blocks arith_func-IsPlain arith_func-Satisfies)
      fresh-IsSound

common_subexpr_elim-IsSound_example :
    IsSound sample_regs (common_subexpr_elim arith_func fresh_table)
common_subexpr_elim-IsSound_example =
    common_subexpr_elim-IsSound rest_zero slot_zero sample_regs arith_func fresh_table
      (zip_blocks IsPlain (Holds rest_zero slot_zero sample_regs)
        (λ (i : Instr). (hidden_state i.op ≡ false) × Holds rest_zero slot_zero sample_regs i)
        (λ i p h. (p.open_state, h)) arith_func.blocks arith_func-IsPlain arith_func-Satisfies)
      fresh-IsSound

phi_simplify-IsSound_example : IsSound sample_regs (phi_simplify arith_func fresh_table)
phi_simplify-IsSound_example =
    phi_simplify-IsSound rest_zero slot_zero sample_regs arith_func fresh_table
      (zip_blocks IsPlain (Holds rest_zero slot_zero sample_regs)
        (λ (i : Instr). All IsNumbered i.args × Holds rest_zero slot_zero sample_regs i)
        (λ i p h. (p.numbered, h)) arith_func.blocks arith_func-IsPlain arith_func-Satisfies)
      fresh-IsSound

fold_self_icmp-IsSound_example : IsSound sample_regs (fold_self_icmp arith_func fresh_table)
fold_self_icmp-IsSound_example =
    fold_self_icmp-IsSound rest_zero slot_zero sample_regs arith_func fresh_table
      arith_func-Satisfies fresh-IsSound

icmp_self_value_lem_example : int_value op_icmp 6 (9 ∷ 9 ∷ []) ≡ icmp_self_value 6
icmp_self_value_lem_example = icmp_self_value_lem 6 9

arith_func-ReadsBack :
    All (λ (b : Block). ReadsBack rest_zero slot_zero sample_regs b.instrs) arith_func.blocks
unfolding operand_value
arith_func-ReadsBack = (
  (λ a b c. tt, (λ a b c. tt, (λ a b c. tt, (λ a b c. tt, (λ a b c d. refl, (λ a b c. tt, tt)))))),
  tt,
)

local_load_elim-IsSound_example : IsSound sample_regs (local_load_elim arith_func fresh_table)
local_load_elim-IsSound_example =
    local_load_elim-IsSound rest_zero slot_zero sample_regs arith_func fresh_table
      (zip_blocks IsPlain (Holds rest_zero slot_zero sample_regs) _ (λ i p h. p.numbered)
        arith_func.blocks arith_func-IsPlain arith_func-Satisfies)
      arith_func-ReadsBack fresh-IsSound

copied-IsSound : IsSound sample_regs (unknown ∷ unknown ∷ pos 1 ∷ [])
copied-IsSound zero = tt
copied-IsSound (suc zero) = tt
copied-IsSound (suc (suc zero)) = refl
copied-IsSound (suc (suc (suc v))) = tt

copy_propagate_func-Satisfies_example :
    Satisfies rest_zero slot_zero sample_regs
      (copy_propagate_func arith_func (unknown ∷ unknown ∷ pos 1 ∷ []))
    ↔ Satisfies rest_zero slot_zero sample_regs arith_func
copy_propagate_func-Satisfies_example =
    copy_propagate_func-Satisfies rest_zero slot_zero sample_regs (unknown ∷ unknown ∷ pos 1 ∷ [])
      copied-IsSound arith_func
