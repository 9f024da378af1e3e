-- ===== src/Regalloc/Intervals.antt =====
-- src/backend/regalloc.c, `compute_intervals`: the range of positions over which each register is live.
-- The list `L` grows at its end. The field `assigned` stands in the state of the scan.
pub mod Keys
pub mod Distinct
pub mod Covers
pub mod Later
pub mod Uses
pub mod Inputs
pub mod Loops
pub mod Held
use Prim.Native.String.{String}
use text.Mathlib.Text.{◌==◌ as str_eq}
use mathlib.Core.List.{foldl}
use mini_asm.Base.{
  ℕ, zero, suc, ◌+◌, ◌-◌, Bool, true, false, not, ◌&&◌, ◌||◌, List, [], ◌∷◌, ◌++◌, map, Option,
  none, some, ltb, leb, ◌==◌, if◌then◌else◌, length, get_or,
}
use mini_asm.Base.Int.{ℤ, pos, negsuc, ltb_ℤ, eq_ℤ, max_ℤ}
use mini_asm.Ir.{
  Opcode, op_eq, op_phi, op_call, op_fadd, op_fsub, op_fmul, op_fdiv, op_fneg, op_fcmp, op_sitofp,
  op_uitofp, op_fptosi, op_fptoui, op_fpext, op_fptrunc, Operand, vreg, Instr, Block, Func, arg_at,
}
use mini_asm.Opt.Alias.{is_reg}
use mini_asm.Opt.DeadBlocks.{block_succs}

pub record Interval : Type 0 where
  pub reg : ℤ
  pub start : ℤ
  pub end : ℤ
  pub crosses_call : Bool
  pub force_spill : Bool

unfoldable pub find_iv : List Interval → ℤ → Option Interval
find_iv [] v = none
find_iv (i ∷ is) v = if eq_ℤ i.reg v then some i else find_iv is v

abbrev pub has_iv : List Interval → ℤ → Bool
has_iv [] v = false
has_iv (i ∷ is) v = eq_ℤ i.reg v || has_iv is v

-- What `add_iv` writes; INT_MAX is 2147483647.
unfoldable pub new_iv : ℤ → Interval
new_iv v = record {
  reg = v;
  start = pos 2147483647;
  end = negsuc 0;
  crosses_call = false;
  force_spill = false;
}

unfoldable pub widen : ℕ → Interval → Interval
widen p i = record i {
  start = if ltb_ℤ (pos p) i.start then pos p else i.start;
  end = if ltb_ℤ i.end (pos p) then pos p else i.end;
}

-- `touch_use` and `touch_def`: the first interval of the register, or a new one at the end, is widened.
unfoldable pub touch : ℤ → ℕ → List Interval → List Interval
unfolding widen new_iv
touch v p [] = widen p (new_iv v) ∷ []
touch v p (i ∷ is) = if eq_ℤ i.reg v then widen p i ∷ is else i ∷ touch v p is

-- `iv->force_spill = 1` for the register's interval, if there is one.
unfoldable pub mark_spill : ℤ → List Interval → List Interval
mark_spill v [] = []
mark_spill v (i ∷ is) =
    if eq_ℤ i.reg v then record i { force_spill = true } ∷ is else i ∷ mark_spill v is

abbrev pub mark_crossing : ℕ → Interval → Interval
mark_crossing p i =
    if not (ltb_ℤ (pos p) i.start) && not (ltb_ℤ i.end (pos p))
    then record i { crosses_call = true }
    else i

unfoldable pub mark_call_crossing : ℕ → List Interval → List Interval
mark_call_crossing p = map (mark_crossing p)

unfoldable pub is_fp_class : Opcode → Bool
is_fp_class op_fadd = true
is_fp_class op_fsub = true
is_fp_class op_fmul = true
is_fp_class op_fdiv = true
is_fp_class op_fneg = true
is_fp_class op_fcmp = true
is_fp_class op_sitofp = true
is_fp_class op_uitofp = true
is_fp_class op_fptosi = true
is_fp_class op_fptoui = true
is_fp_class op_fpext = true
is_fp_class op_fptrunc = true
is_fp_class _ = false

-- `L` and `maxv`.
pub record Live : Type 0 where
  pub ivs : List Interval
  pub maxv : ℤ

-- A register at a position; a floating-point instruction forces a spill.
unfoldable pub note_reg : Bool → ℕ → ℤ → Live → Live
note_reg fp p v s = record {
  ivs = if fp then mark_spill v (touch v p s.ivs) else touch v p s.ivs;
  maxv = max_ℤ s.maxv v;
}

unfoldable pub note_arg : Bool → ℕ → Live → Operand → Live
unfolding note_reg
note_arg fp p s (vreg v) = note_reg fp p v s
note_arg fp p s _ = s

-- The body of pass 1: `first` is the block's start and `p` the position after `pos++`.
unfoldable pub note_instr : ℕ → ℕ → Live → Instr → Live
unfolding note_arg note_reg
note_instr first p s i =
    if op_eq i.op op_phi
    then (if is_reg i.dst then note_reg false first i.dst s else s)
    else (let t = foldl (note_arg (is_fp_class i.op) p) s i.args in
        if is_reg i.dst then note_reg (is_fp_class i.op) p i.dst t else t)

unfoldable pub note_instrs : ℕ → ℕ → Live → List Instr → Live
note_instrs first p s [] = s
note_instrs first p s (i ∷ is) = note_instrs first (suc p) (note_instr first (suc p) s i) is

unfoldable pub note_blocks : ℕ → Live → List Block → Live
note_blocks p s [] = s
note_blocks p s (b ∷ bs) = note_blocks (p + length b.instrs) (note_instrs p p s b.instrs) bs

-- A block's name with `block_start` and `block_end`.
pub record Span : Type 0 where
  pub name : String
  pub first : ℕ
  pub last : ℕ

unfoldable pub block_spans : ℕ → List Block → List Span
block_spans p [] = []
block_spans p (b ∷ bs) =
    record { name = b.name; first = p; last = p + length b.instrs }
    ∷ block_spans (p + length b.instrs) bs

-- The first block of a name, up to the `break`.
unfoldable pub find_span : List Span → String → Option Span
find_span [] l = none
find_span (s ∷ ss) l = if str_eq s.name l then some s else find_span ss l

abbrev pub touch_end : ℤ → Option Span → List Interval → List Interval
touch_end v none ivs = ivs
touch_end v (some s) ivs = touch v s.last ivs

-- The use of a phi's input at the end of the block that a label names.
unfoldable pub note_input : List Span → Option String → Operand → List Interval → List Interval
unfolding find_span
note_input ss (some l) (vreg v) ivs = touch_end v (find_span ss l) ivs
note_input ss _ _ ivs = ivs

unfoldable pub note_phi : List Span → List Interval → Instr → List Interval
unfolding note_input
note_phi ss ivs i =
    if op_eq i.op op_phi
    then note_input ss i.label2 (arg_at i.args 1) (note_input ss i.label (arg_at i.args 0) ivs)
    else ivs

-- Pass 2.
unfoldable pub note_phis : List Span → List Block → List Interval → List Interval
unfolding note_phi
note_phis ss bs ivs = foldl (λ is (b : Block). foldl (note_phi ss) is b.instrs) ivs bs

abbrev pub param_base : ℕ
param_base = 1000

-- `iv->start = 0` for the register's interval, if there is one.
unfoldable pub start_at_zero : ℤ → List Interval → List Interval
start_at_zero v [] = []
start_at_zero v (i ∷ is) =
    if eq_ℤ i.reg v then record i { start = pos 0 } ∷ is else i ∷ start_at_zero v is

-- The first loop over the parameters.
unfoldable pub start_params : ℕ → ℕ → Live → Live
start_params zero v s = s
start_params (suc n) v s =
    start_params n (suc v)
      (record { ivs = start_at_zero (pos v) s.ivs; maxv = max_ℤ s.maxv (pos v) })

-- The second loop: an interval at the entry for a parameter that has none.
unfoldable pub add_params : ℕ → ℕ → List Interval → List Interval
unfolding new_iv
add_params zero v ivs = ivs
add_params (suc n) v ivs = add_params n (suc v) (
    if has_iv ivs (pos v)
    then ivs
    else ivs ++ record (new_iv (pos v)) { start = pos 0; end = pos 0 } ∷ [])

-- Pass 3.
unfoldable pub mark_instrs : ℕ → List Instr → List Interval → List Interval
mark_instrs p [] ivs = ivs
mark_instrs p (i ∷ is) ivs =
    mark_instrs (suc p) is (if op_eq i.op op_call then mark_call_crossing (suc p) ivs else ivs)

unfoldable pub mark_blocks : ℕ → List Block → List Interval → List Interval
mark_blocks p [] ivs = ivs
mark_blocks p (b ∷ bs) ivs = mark_blocks (p + length b.instrs) bs (mark_instrs p b.instrs ivs)

-- An interval that meets the loop from `lo` to `hi` lasts to its end.
abbrev pub extend : ℕ → ℕ → Interval → Interval
extend lo hi i =
    if not (ltb_ℤ (pos hi) i.start) && not (ltb_ℤ i.end (pos lo))
    then record i { end = if ltb_ℤ i.end (pos hi) then pos hi else i.end }
    else i

-- A branch from the block `from` back to the block found.
abbrev pub extend_to : Span → Option Span → List Interval → List Interval
extend_to from none ivs = ivs
extend_to from (some s) ivs =
    if leb s.first from.first then map (extend s.first from.last) ivs else ivs

unfoldable pub extend_labels : List Span → Span → List String → List Interval → List Interval
extend_labels ss from [] ivs = ivs
extend_labels ss from (l ∷ ls) ivs = extend_labels ss from ls (extend_to from (find_span ss l) ivs)

unfoldable pub extend_blocks : List Span → List Span → List Block → List Interval → List Interval
extend_blocks ss (s ∷ rest) (b ∷ bs) ivs =
    extend_blocks ss rest bs (extend_labels ss s (block_succs b.instrs) ivs)
extend_blocks ss _ _ ivs = ivs

-- The intervals, and `maxv + 1` through `out_nvregs` as `maxv`.
unfoldable pub compute_intervals : Func → Live
compute_intervals f =
    let ss = block_spans 0 f.blocks in
    let one = note_blocks 0 (record { ivs = []; maxv = negsuc 0 }) f.blocks in
    let params =
      start_params f.nparams param_base (record one { ivs = note_phis ss f.blocks one.ivs }) in
    let all = mark_blocks 0 f.blocks (add_params f.nparams param_base params.ivs) in
    record params { ivs = extend_blocks ss ss f.blocks all }
