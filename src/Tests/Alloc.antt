-- ===== src/Tests/Alloc.antt =====
-- The register allocator on sample functions.
use Prim.Native.String.{String}
use mini_asm.Base.{◌⊎◌, ◌≡◌, refl, List, [], ◌∷◌, some, false, true, get_or, ℕ, arith, ◌<◌, length}
use mini_asm.Base.Int.{pos}
use mini_asm.Ir.{op_alloca, op_add, op_store, op_ret, op_call, Func}
use mini_asm.Opt.DeadBlocks.{block_succs}
use mini_asm.Regalloc.Targets.{x86_64_reginfo, arm_reginfo, regalloc_regname_for}
use mini_asm.Regalloc.Intervals.{
  Interval, find_iv, touch, is_fp_class, note_instr, note_instrs, note_blocks, block_spans,
  find_span, note_phis, start_at_zero, start_params, add_params, mark_call_crossing, mark_instrs,
  mark_blocks, extend_labels, extend_blocks, compute_intervals,
}
use mini_asm.Regalloc.Intervals.Keys.{AllNumbered, Keyed}
use mini_asm.Regalloc.Intervals.Uses.{BlocksCovered}
use mini_asm.Regalloc.Intervals.Inputs.{InputsCovered}
use mini_asm.Regalloc.Intervals.Loops.{LoopsLast}
use mini_asm.Regalloc.Intervals.Held.{compute_intervals-Covered}
use mini_asm.Regalloc.Intervals.Distinct.{compute_intervals-Keyed}
use mini_asm.Regalloc.Scan.{
  free, spilled, expire_cell, expire, first_free, place, spill, choose, scan_step, scan_from,
  linear_scan,
}
use mini_asm.Regalloc.Scan.Lookup.{iv_at}
use mini_asm.Regalloc.Scan.Invariant.{IsOrdered, assigned_at, IsApart, InPool}
use mini_asm.Regalloc.Run.{insert_iv, sort_intervals, write_reg, answer, regalloc_run}
use mini_asm.Regalloc.Run.Answer.{live, regalloc_run-IsApart, regalloc_run-InPool}
use mini_asm.Regalloc.Scan.Safe.{linear_scan-decides}
use mini_asm.Regalloc.Run.Sort.{sort_intervals-IsOrdered}
use mini_asm.Regalloc.Run.Names.{regalloc_run-named}
use mini_asm.Tests.Samples.{no_dst, instr, block, func, reg, num, jump, phi}

-- The register 0 is dead where the register 2 is defined.
abbrev chain_func : Func
chain_func = func (
    block "entry" (
      instr op_alloca (pos 0) []
      ∷ instr op_add (pos 1) (reg 0 ∷ num 1 ∷ [])
      ∷ instr op_add (pos 2) (reg 1 ∷ num 1 ∷ [])
      ∷ instr op_ret no_dst (reg 2 ∷ [])
      ∷ [])
    ∷ [])

chain_of :
    (get_or (regalloc_run false (some arm_reginfo) chain_func).reg_of 0 free ≡ pos 0)
    × (get_or (regalloc_run false (some arm_reginfo) chain_func).reg_of 2 free ≡ pos 0)
unfolding regalloc_run compute_intervals note_blocks note_instrs note_instr is_fp_class note_phis
    block_spans start_params start_at_zero add_params mark_blocks mark_instrs extend_blocks
    extend_labels block_succs sort_intervals insert_iv linear_scan scan_from scan_step expire
    expire_cell find_iv first_free choose place answer write_reg touch
chain_of = (refl, refl)

chain_func-AllNumbered : AllNumbered chain_func.blocks
chain_func-AllNumbered = ((tt, ((tt, (tt, tt)), ((tt, (tt, tt)), ((tt, tt), tt)))), tt)

regalloc_run-IsApart_example :
    (i j : ℕ) × ((iv_at (live (some arm_reginfo) chain_func chain_func-AllNumbered) i).reg ≡ pos 0)
    × ((iv_at (live (some arm_reginfo) chain_func chain_func-AllNumbered) j).reg ≡ pos 2)
    × IsApart
        (iv_at (live (some arm_reginfo) chain_func chain_func-AllNumbered) i)
        (iv_at (live (some arm_reginfo) chain_func chain_func-AllNumbered) j)
regalloc_run-IsApart_example =
    regalloc_run-IsApart (some arm_reginfo) chain_func chain_func-AllNumbered 0 2 0
      (λ e. omega (arith, e)) chain_of.0 chain_of.1

regalloc_run-InPool_example :
    (i : ℕ) × ((iv_at (live (some arm_reginfo) chain_func chain_func-AllNumbered) i).reg ≡ pos 0)
    × InPool 8 0 (iv_at (live (some arm_reginfo) chain_func chain_func-AllNumbered) i) 0
regalloc_run-InPool_example =
    regalloc_run-InPool (some arm_reginfo) chain_func chain_func-AllNumbered 0 0 chain_of.0

regalloc_run-named_example :
    (n : String) × (regalloc_regname_for (pos 0) (some arm_reginfo) ≡ some n)
regalloc_run-named_example =
    regalloc_run-named (some arm_reginfo) chain_func chain_func-AllNumbered refl 0 0 chain_of.0

compute_intervals-Keyed_example : Keyed (compute_intervals chain_func).ivs
compute_intervals-Keyed_example = compute_intervals-Keyed chain_func chain_func-AllNumbered

abbrev crossing_iv : Interval
crossing_iv = record {
  reg = pos 4;
  start = pos 1;
  end = pos 9;
  crosses_call = true;
  force_spill = false;
}

abbrev float_iv : Interval
float_iv = record {
  reg = pos 7;
  start = pos 2;
  end = pos 3;
  crosses_call = false;
  force_spill = true;
}

pair-IsOrdered : IsOrdered (sort_intervals (float_iv ∷ crossing_iv ∷ []))
pair-IsOrdered = sort_intervals-IsOrdered (float_iv ∷ crossing_iv ∷ []) (record {
  distinct = (((λ e. cc e), tt), (tt, tt));
  numbered = ((λ e. cc e), ((λ e. cc e), tt));
})

abbrev pair : List Interval
pair = sort_intervals (float_iv ∷ crossing_iv ∷ [])

pair-lt : 0 < length pair
unfolding sort_intervals insert_iv
pair-lt = omega arith

linear_scan-decides_example :
    (assigned_at (linear_scan pair 9 4) 0 ≡ spilled)
    ⊎ ((r : ℕ) × (assigned_at (linear_scan pair 9 4) 0 ≡ pos r))
linear_scan-decides_example = linear_scan-decides pair 9 4 pair-IsOrdered 0 pair-lt

pair_test : (linear_scan pair 9 4).assigned ≡ pos 4 ∷ spilled ∷ []
unfolding sort_intervals insert_iv linear_scan scan_from scan_step expire expire_cell find_iv
    first_free choose place spill
pair_test = refl

-- A value defined before a loop and read in it above a call.
abbrev loop_func : Func
loop_func = func (
    block "entry" (instr op_alloca (pos 0) [] ∷ jump "loop" ∷ [])
    ∷ block "loop"
        (instr op_store no_dst (num 1 ∷ reg 0 ∷ []) ∷ instr op_call no_dst [] ∷ jump "loop" ∷ [])
    ∷ [])

-- Its interval lasts to the end of the loop, over the call, but is not marked as crossing it, and its
-- register is one that calls do not keep.
loop_interval_test :
    find_iv (compute_intervals loop_func).ivs (pos 0)
    ≡ some (record {
      reg = pos 0;
      start = pos 1;
      end = pos 5;
      crosses_call = false;
      force_spill = false;
    })
unfolding compute_intervals note_blocks note_instrs note_instr is_fp_class note_phis block_spans
    start_params start_at_zero add_params mark_blocks mark_instrs mark_call_crossing extend_blocks
    extend_labels find_span block_succs find_iv touch
loop_interval_test = refl

loop_register_test :
    get_or (regalloc_run false (some x86_64_reginfo) loop_func).reg_of 0 free ≡ pos 0
unfolding regalloc_run compute_intervals note_blocks note_instrs note_instr is_fp_class note_phis
    block_spans start_params start_at_zero add_params mark_blocks mark_instrs mark_call_crossing
    extend_blocks extend_labels find_span block_succs sort_intervals insert_iv linear_scan scan_from
    scan_step expire expire_cell find_iv first_free choose place answer write_reg touch
loop_register_test = refl

-- A counter: the register 3 is read at the end of the loop, by the phi at its start.
abbrev count_func : Func
count_func = func (
    block "entry" (instr op_add (pos 0) (num 1 ∷ num 2 ∷ []) ∷ jump "loop" ∷ [])
    ∷ block "loop" (
        phi 2 (reg 0) (reg 3)
        ∷ instr op_add (pos 3) (reg 2 ∷ num 1 ∷ [])
        ∷ instr op_call no_dst []
        ∷ jump "loop"
        ∷ [])
    ∷ [])

compute_intervals-Covered_example :
    BlocksCovered (compute_intervals count_func).ivs 0 count_func.blocks
    × InputsCovered (compute_intervals count_func).ivs count_func.blocks count_func.blocks
    × LoopsLast count_func.blocks (compute_intervals count_func).ivs 0 count_func.blocks
compute_intervals-Covered_example = compute_intervals-Covered count_func
