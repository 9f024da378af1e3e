-- ===== src/Regalloc/Intervals/Uses.antt =====
-- On the reads and definitions that pass 1 of `compute_intervals`, src/backend/regalloc.c, notes.
use mathlib.Core.List.{foldl}
use mini_asm.Base.{
  ℕ, suc, ◌+◌, Bool, true, false, List, [], ◌∷◌, length, All, Bool-cases, inl, inr, if◌then◌else◌,
}
use mini_asm.Base.Int.{ℤ, pos, negsuc}
use mini_asm.Ir.{Operand, vreg, Instr, Block, op_eq, op_phi}
use mini_asm.Opt.Alias.{is_reg}
use mini_asm.Regalloc.Intervals.{
  Interval, Live, note_reg, note_arg, note_instr, note_instrs, note_blocks, is_fp_class,
}
use mini_asm.Regalloc.Intervals.Covers.{Covered, Grows, note_reg-Grows, note_reg-Covered}

abbrev pub ArgCovered : List Interval → ℕ → Operand → Type 0
ArgCovered ivs p (vreg (pos v)) = Covered v p ivs
ArgCovered ivs p _ = Unit

abbrev pub DstCovered : List Interval → ℕ → ℤ → Type 0
DstCovered ivs p (pos v) = Covered v p ivs
DstCovered ivs p (negsuc v) = Unit

-- A phi defines its register at the block's start; it reads at the ends of other blocks.
abbrev pub CoveredBy : List Interval → ℕ → ℕ → Instr → Bool → Type 0
CoveredBy ivs first p i true = DstCovered ivs first i.dst
CoveredBy ivs first p i false = All (ArgCovered ivs p) i.args × DstCovered ivs p i.dst

-- `first` is the start of the block and `p` the position before the instruction.
abbrev pub InstrsCovered : List Interval → ℕ → ℕ → List Instr → Type 0
InstrsCovered ivs first p [] = Unit
InstrsCovered ivs first p (i ∷ is) =
    CoveredBy ivs first (suc p) i (op_eq i.op op_phi) × InstrsCovered ivs first (suc p) is

abbrev pub BlocksCovered : List Interval → ℕ → List Block → Type 0
BlocksCovered ivs p [] = Unit
BlocksCovered ivs p (b ∷ bs) =
    InstrsCovered ivs p p b.instrs × BlocksCovered ivs (p + length b.instrs) bs

module _ (xs ys : List Interval) (g : Grows xs ys) where
  grow_arg : (p : ℕ) (o : Operand) → ArgCovered xs p o → ArgCovered ys p o
  grow_arg p (vreg (pos v)) h = g v p h
  grow_arg p (vreg (negsuc v)) h = tt
  grow_arg p _ h = tt

  grow_args : (p : ℕ) (os : List Operand) → All (ArgCovered xs p) os → All (ArgCovered ys p) os
  grow_args p [] h = tt
  grow_args p (o ∷ os) h = (grow_arg p o h.0, grow_args p os h.1)

  grow_dst : (p : ℕ) (d : ℤ) → DstCovered xs p d → DstCovered ys p d
  grow_dst p (pos v) h = g v p h
  grow_dst p (negsuc v) h = tt

  grow_instr :
      (first p : ℕ) (i : Instr) (b : Bool) → CoveredBy xs first p i b → CoveredBy ys first p i b
  grow_instr first p i true h = grow_dst first i.dst h
  grow_instr first p i false h = (grow_args p i.args h.0, grow_dst p i.dst h.1)

  grow_instrs :
      (first p : ℕ) (is : List Instr) → InstrsCovered xs first p is → InstrsCovered ys first p is
  grow_instrs first p [] h = tt
  grow_instrs first p (i ∷ is) h =
      (grow_instr first (suc p) i (op_eq i.op op_phi) h.0, grow_instrs first (suc p) is h.1)

  pub grow_blocks : (p : ℕ) (bs : List Block) → BlocksCovered xs p bs → BlocksCovered ys p bs
  grow_blocks p [] h = tt
  grow_blocks p (b ∷ bs) h =
      (grow_instrs p p b.instrs h.0, grow_blocks (p + length b.instrs) bs h.1)

note_arg-Grows : (fp : Bool) (p : ℕ) (s : Live) (o : Operand) → Grows s.ivs (note_arg fp p s o).ivs
unfolding note_arg
note_arg-Grows fp p s (vreg d) v q h = note_reg-Grows fp p d s v q h
note_arg-Grows fp p s _ v q h = h

note_arg-Covered :
    (fp : Bool) (p : ℕ) (s : Live) (o : Operand) → ArgCovered (note_arg fp p s o).ivs p o
unfolding note_arg
note_arg-Covered fp p s (vreg (pos v)) = note_reg-Covered fp p v s
note_arg-Covered fp p s (vreg (negsuc v)) = tt
note_arg-Covered fp p s _ = tt

note_args-Grows :
    (fp : Bool) (p : ℕ) (os : List Operand) (s : Live)
    → Grows s.ivs (foldl (note_arg fp p) s os).ivs
note_args-Grows fp p [] s v q h = h
note_args-Grows fp p (o ∷ os) s v q h =
    note_args-Grows fp p os (note_arg fp p s o) v q (note_arg-Grows fp p s o v q h)

note_args-Covered :
    (fp : Bool) (p : ℕ) (os : List Operand) (s : Live)
    → All (ArgCovered (foldl (note_arg fp p) s os).ivs p) os
note_args-Covered fp p [] s = tt
note_args-Covered fp p (o ∷ os) s = (
  grow_arg (note_arg fp p s o).ivs _ (note_args-Grows fp p os (note_arg fp p s o)) p o
      (note_arg-Covered fp p s o),
  note_args-Covered fp p os (note_arg fp p s o),
)

-- The registers after a destination was noted.
abbrev with_dst : Bool → ℕ → ℤ → Live → Live
with_dst fp p d s = if is_reg d then note_reg fp p d s else s

with_dst-Grows : (fp : Bool) (p : ℕ) (d : ℤ) (s : Live) → Grows s.ivs (with_dst fp p d s).ivs
with_dst-Grows fp p (pos d) s v q h = note_reg-Grows fp p (pos d) s v q h
with_dst-Grows fp p (negsuc d) s v q h = h

with_dst-Covered : (fp : Bool) (p : ℕ) (d : ℤ) (s : Live) → DstCovered (with_dst fp p d s).ivs p d
with_dst-Covered fp p (pos d) s = note_reg-Covered fp p d s
with_dst-Covered fp p (negsuc d) s = tt

note_instr-Grows : (first p : ℕ) (s : Live) (i : Instr) → Grows s.ivs (note_instr first p s i).ivs
unfolding note_instr
note_instr-Grows first p s i v q h = elim (Bool-cases (op_eq i.op op_phi)) [
  | inl e ↦ rw e (with_dst-Grows false first i.dst s v q h)
  | inr e ↦ rw e (
      with_dst-Grows (is_fp_class i.op) p i.dst _ v q
        (note_args-Grows (is_fp_class i.op) p i.args s v q h))
]

note_instr-Covered :
    (first p : ℕ) (s : Live) (i : Instr)
    → CoveredBy (note_instr first p s i).ivs first p i (op_eq i.op op_phi)
unfolding note_instr
note_instr-Covered first p s i = elim (Bool-cases (op_eq i.op op_phi)) [
  | inl e ↦ rw e (with_dst-Covered false first i.dst s)
  | inr e ↦
      let t = foldl (note_arg (is_fp_class i.op) p) s i.args in
      rw e (
        grow_args t.ivs _ (with_dst-Grows (is_fp_class i.op) p i.dst t) p i.args
            (note_args-Covered (is_fp_class i.op) p i.args s),
        with_dst-Covered (is_fp_class i.op) p i.dst t,
      )
]

note_instrs-Grows :
    (first p : ℕ) (s : Live) (is : List Instr) → Grows s.ivs (note_instrs first p s is).ivs
unfolding note_instrs
note_instrs-Grows first p s [] v q h = h
note_instrs-Grows first p s (i ∷ is) v q h =
    note_instrs-Grows first (suc p) (note_instr first (suc p) s i) is v q
      (note_instr-Grows first (suc p) s i v q h)

note_instrs-Covered :
    (first p : ℕ) (s : Live) (is : List Instr)
    → InstrsCovered (note_instrs first p s is).ivs first p is
unfolding note_instrs
note_instrs-Covered first p s [] = tt
note_instrs-Covered first p s (i ∷ is) =
    let t = note_instr first (suc p) s i in
    (
      grow_instr t.ivs _ (note_instrs-Grows first (suc p) t is) first (suc p) i (op_eq i.op op_phi)
          (note_instr-Covered first (suc p) s i),
      note_instrs-Covered first (suc p) t is,
    )

note_blocks-Grows : (p : ℕ) (s : Live) (bs : List Block) → Grows s.ivs (note_blocks p s bs).ivs
unfolding note_blocks
note_blocks-Grows p s [] v q h = h
note_blocks-Grows p s (b ∷ bs) v q h =
    note_blocks-Grows (p + length b.instrs) (note_instrs p p s b.instrs) bs v q
      (note_instrs-Grows p p s b.instrs v q h)

pub note_blocks-Covered :
    (p : ℕ) (s : Live) (bs : List Block) → BlocksCovered (note_blocks p s bs).ivs p bs
unfolding note_blocks
note_blocks-Covered p s [] = tt
note_blocks-Covered p s (b ∷ bs) =
    let t = note_instrs p p s b.instrs in
    (
      grow_instrs t.ivs _ (note_blocks-Grows (p + length b.instrs) t bs) p p b.instrs
          (note_instrs-Covered p p s b.instrs),
      note_blocks-Covered (p + length b.instrs) t bs,
    )
