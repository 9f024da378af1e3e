-- ===== src/Regalloc/Intervals/Inputs.antt =====
-- On the inputs of phis, which pass 2 of `compute_intervals`, src/backend/regalloc.c, notes.
use Prim.Native.String.{String}
use text.Mathlib.Text.{◌==◌ as str_eq}
use mathlib.Core.List.{foldl}
use mini_asm.Base.{
  ℕ, ◌+◌, ◌≡◌, refl, Bool, true, false, List, [], ◌∷◌, Option, none, some, length, All, All-map,
  Bool-cases, inl, inr, if◌then◌else◌,
}
use mathlib.Core.Path.{subst}
use mini_asm.Base.Int.{pos, negsuc}
use mini_asm.Ir.{Operand, vreg, absent, imm, label_arg, fp_imm, arg_at, op_eq, op_phi, Instr, Block}
use mini_asm.Regalloc.Intervals.{
  Interval, Span, touch_end, block_spans, find_span, note_input, note_phi, note_phis,
}
use mini_asm.Regalloc.Intervals.Covers.{Covered, Grows, touch-Covered}
use mini_asm.Regalloc.Intervals.Later.{note_input-Grows, note_phi-Grows, note_phis-Grows}

-- Where the first block of a name starts and ends, the list starting at a position.
abbrev pub start_of : List Block → ℕ → String → Option ℕ
start_of [] p l = none
start_of (b ∷ bs) p l = if str_eq b.name l then some p else start_of bs (p + length b.instrs) l

abbrev pub end_of : List Block → ℕ → String → Option ℕ
end_of [] p l = none
end_of (b ∷ bs) p l =
    if str_eq b.name l then some (p + length b.instrs) else end_of bs (p + length b.instrs) l

-- An input is covered at the end of the block that it comes from, if there is one.
abbrev CoveredAt : List Interval → ℕ → Option ℕ → Type 0
CoveredAt ivs v none = Unit
CoveredAt ivs v (some e) = Covered v e ivs

abbrev InputCovered : List Interval → List Block → Option String → Operand → Type 0
InputCovered ivs bs (some l) (vreg (pos v)) = CoveredAt ivs v (end_of bs 0 l)
InputCovered ivs bs _ _ = Unit

abbrev PhiCovered : List Interval → List Block → Instr → Bool → Type 0
PhiCovered ivs bs i true =
    InputCovered ivs bs i.label (arg_at i.args 0) × InputCovered ivs bs i.label2 (arg_at i.args 1)
PhiCovered ivs bs i false = Unit

-- The inputs of the phis of some blocks, which come from blocks of the whole list.
abbrev pub InputsCovered : List Interval → List Block → List Block → Type 0
InputsCovered ivs whole bs =
    All (λ (b : Block). All (λ (i : Instr). PhiCovered ivs whole i (op_eq i.op op_phi)) b.instrs) bs

unfoldable pub first_of : Option Span → Option ℕ
first_of none = none
first_of (some s) = some s.first

last_of : Option Span → Option ℕ
last_of none = none
last_of (some s) = some s.last

pub start_of-span :
    (bs : List Block) (p : ℕ) (l : String)
    → first_of (find_span (block_spans p bs) l) ≡ start_of bs p l
unfolding find_span block_spans first_of
start_of-span [] p l = refl
start_of-span (b ∷ bs) p l = elim (Bool-cases (str_eq b.name l)) [
  | inl e ↦ rw e refl
  | inr e ↦ rw e (start_of-span bs (p + length b.instrs) l)
]

end_of-span :
    (bs : List Block) (p : ℕ) (l : String)
    → last_of (find_span (block_spans p bs) l) ≡ end_of bs p l
unfolding find_span block_spans last_of
end_of-span [] p l = refl
end_of-span (b ∷ bs) p l = elim (Bool-cases (str_eq b.name l)) [
  | inl e ↦ rw e refl
  | inr e ↦ rw e (end_of-span bs (p + length b.instrs) l)
]

module _ (whole : List Block) (xs ys : List Interval) (g : Grows xs ys) where
  grow_at : (v : ℕ) (o : Option ℕ) → CoveredAt xs v o → CoveredAt ys v o
  grow_at v none h = tt
  grow_at v (some e) h = g v e h

  grow_input :
      (l : Option String) (a : Operand) → InputCovered xs whole l a → InputCovered ys whole l a
  grow_input none a h = tt
  grow_input (some l) (vreg (pos v)) h = grow_at v (end_of whole 0 l) h
  grow_input (some l) (vreg (negsuc v)) h = tt
  grow_input (some l) (absent v) h = tt
  grow_input (some l) (imm v) h = tt
  grow_input (some l) (label_arg v) h = tt
  grow_input (some l) (fp_imm v) h = tt

  grow_phi : (i : Instr) (b : Bool) → PhiCovered xs whole i b → PhiCovered ys whole i b
  grow_phi i true h =
      (grow_input i.label (arg_at i.args 0) h.0, grow_input i.label2 (arg_at i.args 1) h.1)
  grow_phi i false h = tt

  grow_instrs :
      (is : List Instr)
      → All (λ (i : Instr). PhiCovered xs whole i (op_eq i.op op_phi)) is
      → All (λ (i : Instr). PhiCovered ys whole i (op_eq i.op op_phi)) is
  grow_instrs is h =
      All-map (λ (i : Instr). PhiCovered xs whole i (op_eq i.op op_phi))
        (λ (i : Instr). PhiCovered ys whole i (op_eq i.op op_phi)) is
        (λ i k. grow_phi i (op_eq i.op op_phi) k) h

  pub grow_inputs : (bs : List Block) → InputsCovered xs whole bs → InputsCovered ys whole bs
  grow_inputs bs h =
      All-map
        (λ (b : Block). All (λ (i : Instr). PhiCovered xs whole i (op_eq i.op op_phi)) b.instrs)
        (λ (b : Block). All (λ (i : Instr). PhiCovered ys whole i (op_eq i.op op_phi)) b.instrs) bs
        (λ b k. grow_instrs b.instrs k) h

module _ (whole : List Block) where
  abbrev spans : List Span
  spans = block_spans 0 whole

  touched :
      (v : ℕ) (o : Option Span) (ivs : List Interval)
      → CoveredAt (touch_end (pos v) o ivs) v (last_of o)
  unfolding last_of
  touched v none ivs = tt
  touched v (some s) ivs = touch-Covered v s.last ivs

  note_input-Covered :
      (l : Option String) (a : Operand) (ivs : List Interval)
      → InputCovered (note_input spans l a ivs) whole l a
  unfolding note_input
  note_input-Covered none a ivs = tt
  note_input-Covered (some l) (vreg (pos v)) ivs =
      subst (CoveredAt (touch_end (pos v) (find_span spans l) ivs) v) (end_of-span whole 0 l)
        (touched v (find_span spans l) ivs)
  note_input-Covered (some l) (vreg (negsuc v)) ivs = tt
  note_input-Covered (some l) (absent v) ivs = tt
  note_input-Covered (some l) (imm v) ivs = tt
  note_input-Covered (some l) (label_arg v) ivs = tt
  note_input-Covered (some l) (fp_imm v) ivs = tt

  note_phi-Covered :
      (ivs : List Interval) (i : Instr)
      → PhiCovered (note_phi spans ivs i) whole i (op_eq i.op op_phi)
  unfolding note_phi
  note_phi-Covered ivs i = elim (Bool-cases (op_eq i.op op_phi)) [
    | inl e ↦
        let one = note_input spans i.label (arg_at i.args 0) ivs in
        rw e (
          grow_input whole one (note_input spans i.label2 (arg_at i.args 1) one)
              (note_input-Grows spans i.label2 (arg_at i.args 1) one) i.label (arg_at i.args 0)
              (note_input-Covered i.label (arg_at i.args 0) ivs),
          note_input-Covered i.label2 (arg_at i.args 1) one,
        )
    | inr e ↦ rw e tt
  ]

  fold-Grows : (is : List Instr) (xs : List Interval) → Grows xs (foldl (note_phi spans) xs is)
  fold-Grows [] xs v q h = h
  fold-Grows (i ∷ is) xs v q h =
      fold-Grows is (note_phi spans xs i) v q (note_phi-Grows spans xs i v q h)

  fold-Covered :
      (is : List Instr) (xs : List Interval)
      → All
          (λ (i : Instr). PhiCovered (foldl (note_phi spans) xs is) whole i (op_eq i.op op_phi))
          is
  fold-Covered [] xs = tt
  fold-Covered (i ∷ is) xs =
      let next = note_phi spans xs i in
      (
        grow_phi whole next (foldl (note_phi spans) next is) (fold-Grows is next) i
            (op_eq i.op op_phi) (note_phi-Covered xs i),
        fold-Covered is next,
      )

  pub note_phis-Covered :
      (bs : List Block) (xs : List Interval) → InputsCovered (note_phis spans bs xs) whole bs
  unfolding note_phis
  note_phis-Covered [] xs = tt
  note_phis-Covered (b ∷ bs) xs =
      let next = foldl (note_phi spans) xs b.instrs in
      (
        grow_instrs whole next (note_phis spans bs next) (note_phis-Grows spans bs next) b.instrs
            (fold-Covered b.instrs xs),
        note_phis-Covered bs next,
      )
