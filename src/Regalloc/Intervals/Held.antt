-- ===== src/Regalloc/Intervals/Held.antt =====
-- On the intervals that `compute_intervals`, src/backend/regalloc.c, answers after all passes.
use mini_asm.Base.{[]}
use mini_asm.Base.Int.{negsuc}
use mini_asm.Ir.{Func}
use mini_asm.Regalloc.Intervals.{
  Live, note_blocks, note_phis, start_params, add_params, mark_blocks, block_spans, param_base,
  compute_intervals,
}
use mini_asm.Regalloc.Intervals.Covers.{Grows}
use mini_asm.Regalloc.Intervals.Later.{
  note_phis-Grows, start_params-Grows, add_params-Grows, mark_blocks-Grows, extend_blocks-Grows,
}
use mini_asm.Regalloc.Intervals.Uses.{BlocksCovered, grow_blocks, note_blocks-Covered}
use mini_asm.Regalloc.Intervals.Inputs.{InputsCovered, grow_inputs, note_phis-Covered}
use mini_asm.Regalloc.Intervals.Loops.{LoopsLast, extend_blocks-Last}

-- For every function, the intervals cover, at the position of each instruction, the registers that it
-- reads or defines, a phi's register at the start of its block; they cover each register input of a
-- phi, of the first two, at the end of the first block with the input's label, if there is one; and for
-- each label of a branch whose first block of that name does not start behind the branching block, each
-- interval starts after the branching block's end, ends before that block's start, or lasts to the
-- branching block's end. Registers with a negative number are not counted.
pub compute_intervals-Covered :
    (f : Func)
    → BlocksCovered (compute_intervals f).ivs 0 f.blocks
      × InputsCovered (compute_intervals f).ivs f.blocks f.blocks
      × LoopsLast f.blocks (compute_intervals f).ivs 0 f.blocks
unfolding compute_intervals
compute_intervals-Covered f =
    let ss = block_spans 0 f.blocks in
    let start : Live = record { ivs = []; maxv = negsuc 0 } in
    let one = note_blocks 0 start f.blocks in
    let two : Live = record one { ivs = note_phis ss f.blocks one.ivs } in
    let params = start_params f.nparams param_base two in
    let added = add_params f.nparams param_base params.ivs in
    let marked = mark_blocks 0 f.blocks added in
    let later : Grows two.ivs (compute_intervals f).ivs = λ v p h.
      extend_blocks-Grows ss ss f.blocks marked v p (
        mark_blocks-Grows 0 f.blocks added v p (
          add_params-Grows f.nparams param_base params.ivs v p
            (start_params-Grows f.nparams param_base two v p h))) in
    (
      grow_blocks one.ivs _ (λ v p h. later v p (note_phis-Grows ss f.blocks one.ivs v p h)) 0
          f.blocks (note_blocks-Covered 0 start f.blocks),
      grow_inputs f.blocks two.ivs _ later f.blocks (note_phis-Covered f.blocks f.blocks one.ivs),
      extend_blocks-Last f.blocks 0 f.blocks marked,
    )
