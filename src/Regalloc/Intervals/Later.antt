-- ===== src/Regalloc/Intervals/Later.antt =====
-- On the passes of `compute_intervals`, src/backend/regalloc.c, after the first one.
use Prim.Native.String.{String}
use mathlib.Core.List.{foldl}
use mini_asm.Base.{
  ℕ, zero, suc, ◌+◌, List, [], ◌∷◌, map, Option, none, some, length, Bool-cases, inl, inr, leb,
}
use mini_asm.Base.Int.{ℤ, pos}
use mini_asm.Ir.{Operand, vreg, Instr, Block, arg_at, op_eq, op_phi, op_call}
use mini_asm.Opt.DeadBlocks.{block_succs}
use mini_asm.Regalloc.Intervals.{
  Interval, Live, Span, has_iv, mark_crossing, mark_call_crossing, find_span, touch_end, note_input,
  note_phi, note_phis, start_params, add_params, mark_instrs, mark_blocks, extend, extend_to,
  extend_labels, extend_blocks, new_iv,
}
use mini_asm.Regalloc.Intervals.Covers.{
  Covered, Grows, touch-Grows, start_at_zero-Grows, map-Grows, append-Grows, mark_crossing-Spans,
  extend-Spans,
}

touch_end-Grows : (d : ℤ) (o : Option Span) (ivs : List Interval) → Grows ivs (touch_end d o ivs)
touch_end-Grows d none ivs v q h = h
touch_end-Grows d (some s) ivs v q h = touch-Grows d s.last ivs v q h

pub note_input-Grows :
    (ss : List Span) (l : Option String) (o : Operand) (ivs : List Interval)
    → Grows ivs (note_input ss l o ivs)
unfolding note_input
note_input-Grows ss (some l) (vreg d) ivs v q h = touch_end-Grows d (find_span ss l) ivs v q h
note_input-Grows ss (some l) _ ivs v q h = h
note_input-Grows ss none o ivs v q h = h

pub note_phi-Grows :
    (ss : List Span) (ivs : List Interval) (i : Instr) → Grows ivs (note_phi ss ivs i)
unfolding note_phi
note_phi-Grows ss ivs i v q h = elim (Bool-cases (op_eq i.op op_phi)) [
  | inl e ↦ rw e (
      note_input-Grows ss i.label2 (arg_at i.args 1) _ v q
        (note_input-Grows ss i.label (arg_at i.args 0) ivs v q h))
  | inr e ↦ rw e h
]

pub note_phis-Grows :
    (ss : List Span) (bs : List Block) (ivs : List Interval) → Grows ivs (note_phis ss bs ivs)
unfolding note_phis
note_phis-Grows ss [] ivs v q h = h
note_phis-Grows ss (b ∷ bs) ivs v q h = note_phis-Grows ss bs _ v q (instrs b.instrs ivs h)
  where
    instrs :
        (is : List Instr) (xs : List Interval)
        → Covered v q xs
        → Covered v q (foldl (note_phi ss) xs is)
    instrs [] xs k = k
    instrs (i ∷ is) xs k = instrs is (note_phi ss xs i) (note_phi-Grows ss xs i v q k)

pub start_params-Grows : (n d : ℕ) (s : Live) → Grows s.ivs (start_params n d s).ivs
unfolding start_params
start_params-Grows zero d s v q h = h
start_params-Grows (suc n) d s v q h =
    start_params-Grows n (suc d) _ v q (start_at_zero-Grows (pos d) s.ivs v q h)

pub add_params-Grows : (n d : ℕ) (ivs : List Interval) → Grows ivs (add_params n d ivs)
unfolding add_params
add_params-Grows zero d ivs v q h = h
add_params-Grows (suc n) d ivs v q h = elim (Bool-cases (has_iv ivs (pos d))) [
  | inl e ↦ rw e (add_params-Grows n (suc d) ivs v q h)
  | inr e ↦ rw e (
      add_params-Grows n (suc d) _ v q
        (append-Grows ivs (record (new_iv (pos d)) { start = pos 0; end = pos 0 } ∷ []) v q h))
]

mark_instrs-Grows :
    (p : ℕ) (is : List Instr) (ivs : List Interval) → Grows ivs (mark_instrs p is ivs)
unfolding mark_instrs mark_call_crossing
mark_instrs-Grows p [] ivs v q h = h
mark_instrs-Grows p (i ∷ is) ivs v q h = elim (Bool-cases (op_eq i.op op_call)) [
  | inl e ↦ rw e (
      mark_instrs-Grows (suc p) is (map (mark_crossing (suc p)) ivs) v q
        (map-Grows (mark_crossing (suc p)) (mark_crossing-Spans (suc p)) ivs v q h))
  | inr e ↦ rw e (mark_instrs-Grows (suc p) is ivs v q h)
]

pub mark_blocks-Grows :
    (p : ℕ) (bs : List Block) (ivs : List Interval) → Grows ivs (mark_blocks p bs ivs)
unfolding mark_blocks
mark_blocks-Grows p [] ivs v q h = h
mark_blocks-Grows p (b ∷ bs) ivs v q h =
    mark_blocks-Grows (p + length b.instrs) bs (mark_instrs p b.instrs ivs) v q
      (mark_instrs-Grows p b.instrs ivs v q h)

extend_to-Grows :
    (from : Span) (o : Option Span) (ivs : List Interval) → Grows ivs (extend_to from o ivs)
extend_to-Grows from none ivs v q h = h
extend_to-Grows from (some s) ivs v q h = elim (Bool-cases (leb s.first from.first)) [
  | inl e ↦ rw e (map-Grows (extend s.first from.last) (extend-Spans s.first from.last) ivs v q h)
  | inr e ↦ rw e h
]

extend_labels-Grows :
    (ss : List Span) (from : Span) (ls : List String) (ivs : List Interval)
    → Grows ivs (extend_labels ss from ls ivs)
unfolding extend_labels
extend_labels-Grows ss from [] ivs v q h = h
extend_labels-Grows ss from (l ∷ ls) ivs v q h =
    extend_labels-Grows ss from ls (extend_to from (find_span ss l) ivs) v q
      (extend_to-Grows from (find_span ss l) ivs v q h)

pub extend_blocks-Grows :
    (ss rest : List Span) (bs : List Block) (ivs : List Interval)
    → Grows ivs (extend_blocks ss rest bs ivs)
unfolding extend_blocks
extend_blocks-Grows ss (s ∷ rest) (b ∷ bs) ivs v q h =
    extend_blocks-Grows ss rest bs (extend_labels ss s (block_succs b.instrs) ivs) v q
      (extend_labels-Grows ss s (block_succs b.instrs) ivs v q h)
extend_blocks-Grows ss [] bs ivs v q h = h
extend_blocks-Grows ss (s ∷ rest) [] ivs v q h = h
