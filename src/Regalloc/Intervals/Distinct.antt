-- ===== src/Regalloc/Intervals/Distinct.antt =====
-- On the registers of the intervals of `compute_intervals`, src/backend/regalloc.c, after all passes.
use Prim.Native.String.{String}
use mini_asm.Base.{
  ℕ, suc, ◌+◌, ◌≡◌, refl, ◌∙◌, List, [], ◌∷◌, map, Option, none, some, length, Bool-cases, inl, inr,
  leb,
}
use mini_asm.Base.Int.{negsuc}
use mini_asm.Ir.{Instr, Block, Func, op_eq, op_call}
use mini_asm.Opt.DeadBlocks.{block_succs}
use mini_asm.Regalloc.Intervals.{
  Interval, Live, Span, mark_crossing, mark_call_crossing, note_blocks, find_span, note_phis,
  start_params, add_params, mark_instrs, mark_blocks, extend, extend_to, extend_labels,
  extend_blocks, compute_intervals, block_spans, param_base,
}
use mini_asm.Regalloc.Intervals.Keys.{
  regs, Keyed, regs-map, mark_crossing-reg, extend-reg, AllNumbered, note_blocks-Keyed,
  note_phis-Keyed, regs-start_params, add_params-Keyed,
}

regs-mark_instrs :
    (p : ℕ) (is : List Instr) (ivs : List Interval) → regs (mark_instrs p is ivs) ≡ regs ivs
unfolding mark_instrs mark_call_crossing
regs-mark_instrs p [] ivs = refl
regs-mark_instrs p (i ∷ is) ivs = elim (Bool-cases (op_eq i.op op_call)) [
  | inl e ↦ rw e (
      regs-mark_instrs (suc p) is (map (mark_crossing (suc p)) ivs)
      ∙ regs-map (mark_crossing (suc p)) (mark_crossing-reg (suc p)) ivs)
  | inr e ↦ rw e (regs-mark_instrs (suc p) is ivs)
]

regs-mark_blocks :
    (p : ℕ) (bs : List Block) (ivs : List Interval) → regs (mark_blocks p bs ivs) ≡ regs ivs
unfolding mark_blocks
regs-mark_blocks p [] ivs = refl
regs-mark_blocks p (b ∷ bs) ivs =
    regs-mark_blocks (p + length b.instrs) bs (mark_instrs p b.instrs ivs)
    ∙ regs-mark_instrs p b.instrs ivs

regs-extend_to :
    (from : Span) (o : Option Span) (ivs : List Interval) → regs (extend_to from o ivs) ≡ regs ivs
regs-extend_to from none ivs = refl
regs-extend_to from (some s) ivs = elim (Bool-cases (leb s.first from.first)) [
  | inl e ↦ rw e (regs-map (extend s.first from.last) (extend-reg s.first from.last) ivs)
  | inr e ↦ rw e refl
]

regs-extend_labels :
    (ss : List Span) (from : Span) (ls : List String) (ivs : List Interval)
    → regs (extend_labels ss from ls ivs) ≡ regs ivs
unfolding extend_labels
regs-extend_labels ss from [] ivs = refl
regs-extend_labels ss from (l ∷ ls) ivs =
    regs-extend_labels ss from ls (extend_to from (find_span ss l) ivs)
    ∙ regs-extend_to from (find_span ss l) ivs

regs-extend_blocks :
    (ss rest : List Span) (bs : List Block) (ivs : List Interval)
    → regs (extend_blocks ss rest bs ivs) ≡ regs ivs
unfolding extend_blocks
regs-extend_blocks ss (s ∷ rest) (b ∷ bs) ivs =
    regs-extend_blocks ss rest bs (extend_labels ss s (block_succs b.instrs) ivs)
    ∙ regs-extend_labels ss s (block_succs b.instrs) ivs
regs-extend_blocks ss [] bs ivs = refl
regs-extend_blocks ss (s ∷ rest) [] ivs = refl

-- In a function whose operands are numbered registers, no two intervals are those of one register and
-- none is that of the number -1.
pub compute_intervals-Keyed : (f : Func) → AllNumbered f.blocks → Keyed (compute_intervals f).ivs
unfolding compute_intervals
compute_intervals-Keyed f n =
    let ss = block_spans 0 f.blocks in
    let one = note_blocks 0 (record { ivs = []; maxv = negsuc 0 }) f.blocks in
    let two : Live = record one { ivs = note_phis ss f.blocks one.ivs } in
    let params = start_params f.nparams param_base two in
    let added = add_params f.nparams param_base params.ivs in
    let noted : Keyed one.ivs =
      note_blocks-Keyed 0 (record { ivs = []; maxv = negsuc 0 }) f.blocks n
        (record { distinct = tt; numbered = tt }) in
    let phis : Keyed two.ivs = note_phis-Keyed ss f.blocks one.ivs n noted in
    let started : Keyed params.ivs = rw (regs-start_params f.nparams param_base two) phis in
    let with_params : Keyed added = add_params-Keyed f.nparams param_base params.ivs started in
    rw
      (regs-extend_blocks ss ss f.blocks (mark_blocks 0 f.blocks added)
        ∙ regs-mark_blocks 0 f.blocks added)
      with_params
