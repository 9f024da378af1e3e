-- ===== src/Regalloc/Intervals/Keys.antt =====
-- On the registers of the intervals of `compute_intervals`, src/backend/regalloc.c, pass by pass.
use Prim.Native.String.{String}
use mathlib.Core.List.{foldl}
use mini_asm.Base.{
  ℕ, zero, suc, ◌+◌, ◌≡◌, ◌≢◌, refl, ap, sym, ◌∙◌, Bool, true, false, List, [], ◌∷◌, ◌++◌, map,
  Option, none, some, length, Bool-cases, inl, inr, if◌then◌else◌, All, AllPairs, All-append,
  AllPairs-concat, ◌||◌,
}
use mini_asm.Base.Int.{ℤ, pos, negsuc, ltb_ℤ, eq_ℤ, eq_ℤ_iff}
use mini_asm.Ir.{Operand, vreg, Instr, Block, arg_at, op_eq, op_phi}
use mini_asm.Opt.Alias.{is_reg}
use mini_asm.Opt.Alias.Merge.{IsNumbered}
use mini_asm.Regalloc.Intervals.{
  Interval, Live, Span, has_iv, touch, mark_spill, mark_crossing, note_reg, note_arg, note_instr,
  note_instrs, note_blocks, is_fp_class, find_span, touch_end, note_input, note_phi, note_phis,
  start_at_zero, start_params, add_params, extend, new_iv,
}

abbrev pub regs : List Interval → List ℤ
regs = map (λ (i : Interval). i.reg)

-- The registers are different and none is -1.
pub record IsKeyed (rs : List ℤ) : Type 0 where
  pub distinct : AllPairs (λ (a b : ℤ). a ≢ b) rs
  pub numbered : All (λ (a : ℤ). a ≢ negsuc 0) rs

abbrev pub Keyed : List Interval → Type 0
Keyed ivs = IsKeyed (regs ivs)

-- A register joins the others unless it is there.
abbrev add_reg : ℤ → List ℤ → List ℤ
add_reg v [] = v ∷ []
add_reg v (r ∷ rs) = if eq_ℤ r v then r ∷ rs else r ∷ add_reg v rs

add_reg-All {κ} : (P : ℤ → Type κ) (v : ℤ) (rs : List ℤ) → P v → All P rs → All P (add_reg v rs)
add_reg-All P v [] p h = (p, tt)
add_reg-All P v (r ∷ rs) p h = elim (Bool-cases (eq_ℤ r v)) [
  | inl e ↦ rw e h
  | inr e ↦ rw e (h.0, add_reg-All P v rs p h.1)
]

add_reg-distinct :
    (v : ℤ) (rs : List ℤ)
    → AllPairs (λ (a b : ℤ). a ≢ b) rs
    → AllPairs (λ (a b : ℤ). a ≢ b) (add_reg v rs)
add_reg-distinct v [] h = (tt, tt)
add_reg-distinct v (r ∷ rs) h = elim (Bool-cases (eq_ℤ r v)) [
  | inl e ↦ rw e h
  | inr e ↦
      let apart : r ≢ v = λ q. cc (sym e ∙ (eq_ℤ_iff r v).1 q) in
      rw e (add_reg-All (λ (b : ℤ). r ≢ b) v rs apart h.0, add_reg-distinct v rs h.1)
]

add_reg-IsKeyed : (v : ℕ) (rs : List ℤ) → IsKeyed rs → IsKeyed (add_reg (pos v) rs)
add_reg-IsKeyed v rs h = record {
  distinct = add_reg-distinct (pos v) rs h.distinct;
  numbered = add_reg-All (λ (a : ℤ). a ≢ negsuc 0) (pos v) rs (λ e. cc e) h.numbered;
}

regs-touch : (v : ℤ) (p : ℕ) (ivs : List Interval) → regs (touch v p ivs) ≡ add_reg v (regs ivs)
unfolding touch
regs-touch v p [] = refl
regs-touch v p (i ∷ is) = elim (Bool-cases (eq_ℤ i.reg v)) [
  | inl e ↦ rw e refl
  | inr e ↦ rw e (ap (λ rs. i.reg ∷ rs) (regs-touch v p is))
]

pub touch-Keyed : (v p : ℕ) (ivs : List Interval) → Keyed ivs → Keyed (touch (pos v) p ivs)
touch-Keyed v p ivs h = rw (regs-touch (pos v) p ivs) (add_reg-IsKeyed v (regs ivs) h)

regs-mark_spill : (v : ℤ) (ivs : List Interval) → regs (mark_spill v ivs) ≡ regs ivs
unfolding mark_spill
regs-mark_spill v [] = refl
regs-mark_spill v (i ∷ is) = elim (Bool-cases (eq_ℤ i.reg v)) [
  | inl e ↦ rw e refl
  | inr e ↦ rw e (ap (λ rs. i.reg ∷ rs) (regs-mark_spill v is))
]

regs-start_at_zero : (v : ℤ) (ivs : List Interval) → regs (start_at_zero v ivs) ≡ regs ivs
unfolding start_at_zero
regs-start_at_zero v [] = refl
regs-start_at_zero v (i ∷ is) = elim (Bool-cases (eq_ℤ i.reg v)) [
  | inl e ↦ rw e refl
  | inr e ↦ rw e (ap (λ rs. i.reg ∷ rs) (regs-start_at_zero v is))
]

-- A change of every interval that keeps its register.
pub regs-map :
    (g : Interval → Interval)
    → ((i : Interval) → (g i).reg ≡ i.reg)
    → (ivs : List Interval) → regs (map g ivs) ≡ regs ivs
regs-map g same [] = refl
regs-map g same (i ∷ is) = rw (same i, regs-map g same is) refl

if-reg : (b : Bool) (x y : Interval) → x.reg ≡ y.reg → (if b then x else y).reg ≡ y.reg
if-reg true x y h = h
if-reg false x y h = refl

pub mark_crossing-reg : (p : ℕ) (i : Interval) → (mark_crossing p i).reg ≡ i.reg
mark_crossing-reg p i = if-reg _ (record i { crosses_call = true }) i refl

pub extend-reg : (lo hi : ℕ) (i : Interval) → (extend lo hi i).reg ≡ i.reg
extend-reg lo hi i =
    if-reg _ (record i { end = if ltb_ℤ i.end (pos hi) then pos hi else i.end }) i refl

note_reg-Keyed :
    (fp : Bool) (p v : ℕ) (s : Live) → Keyed s.ivs → Keyed (note_reg fp p (pos v) s).ivs
unfolding note_reg
note_reg-Keyed true p v s h =
    rw (regs-mark_spill (pos v) (touch (pos v) p s.ivs)) (touch-Keyed v p s.ivs h)
note_reg-Keyed false p v s h = touch-Keyed v p s.ivs h

note_arg-Keyed :
    (fp : Bool) (p : ℕ) (s : Live) (o : Operand)
    → IsNumbered o
    → Keyed s.ivs
    → Keyed (note_arg fp p s o).ivs
unfolding note_arg
note_arg-Keyed fp p s (vreg (pos v)) n h = note_reg-Keyed fp p v s h
note_arg-Keyed fp p s (vreg (negsuc v)) n h = absurd n
note_arg-Keyed fp p s _ n h = h

note_args-Keyed :
    (fp : Bool) (p : ℕ) (s : Live) (os : List Operand)
    → All IsNumbered os
    → Keyed s.ivs
    → Keyed (foldl (note_arg fp p) s os).ivs
note_args-Keyed fp p s [] n h = h
note_args-Keyed fp p s (o ∷ os) n h =
    note_args-Keyed fp p (note_arg fp p s o) os n.1 (note_arg-Keyed fp p s o n.0 h)

note_dst-Keyed :
    (fp : Bool) (p : ℕ) (d : ℤ) (s : Live)
    → Keyed s.ivs
    → Keyed (if is_reg d then note_reg fp p d s else s).ivs
note_dst-Keyed fp p (pos d) s h = note_reg-Keyed fp p d s h
note_dst-Keyed fp p (negsuc d) s h = h

note_instr-Keyed :
    (first p : ℕ) (s : Live) (i : Instr)
    → All IsNumbered i.args
    → Keyed s.ivs
    → Keyed (note_instr first p s i).ivs
unfolding note_instr
note_instr-Keyed first p s i n h = elim (Bool-cases (op_eq i.op op_phi)) [
  | inl e ↦ rw e (note_dst-Keyed false first i.dst s h)
  | inr e ↦ rw e (
      note_dst-Keyed (is_fp_class i.op) p i.dst (foldl (note_arg (is_fp_class i.op) p) s i.args)
        (note_args-Keyed (is_fp_class i.op) p s i.args n h))
]

note_instrs-Keyed :
    (first p : ℕ) (s : Live) (is : List Instr)
    → All (λ (i : Instr). All IsNumbered i.args) is
    → Keyed s.ivs
    → Keyed (note_instrs first p s is).ivs
unfolding note_instrs
note_instrs-Keyed first p s [] n h = h
note_instrs-Keyed first p s (i ∷ is) n h =
    note_instrs-Keyed first (suc p) (note_instr first (suc p) s i) is n.1
      (note_instr-Keyed first (suc p) s i n.0 h)

-- Every register that an instruction reads has a number that is not negative.
abbrev pub AllNumbered : List Block → Type 0
AllNumbered = All (λ (b : Block). All (λ (i : Instr). All IsNumbered i.args) b.instrs)

pub note_blocks-Keyed :
    (p : ℕ) (s : Live) (bs : List Block)
    → AllNumbered bs
    → Keyed s.ivs
    → Keyed (note_blocks p s bs).ivs
unfolding note_blocks
note_blocks-Keyed p s [] n h = h
note_blocks-Keyed p s (b ∷ bs) n h =
    note_blocks-Keyed (p + length b.instrs) (note_instrs p p s b.instrs) bs n.1
      (note_instrs-Keyed p p s b.instrs n.0 h)

touch_end-Keyed :
    (v : ℕ) (o : Option Span) (ivs : List Interval) → Keyed ivs → Keyed (touch_end (pos v) o ivs)
touch_end-Keyed v none ivs h = h
touch_end-Keyed v (some s) ivs h = touch-Keyed v s.last ivs h

note_input-Keyed :
    (ss : List Span) (l : Option String) (o : Operand) (ivs : List Interval)
    → IsNumbered o
    → Keyed ivs
    → Keyed (note_input ss l o ivs)
unfolding note_input
note_input-Keyed ss none o ivs n h = h
note_input-Keyed ss (some l) (vreg (pos v)) ivs n h = touch_end-Keyed v (find_span ss l) ivs h
note_input-Keyed ss (some l) (vreg (negsuc v)) ivs n h = absurd n
note_input-Keyed ss (some l) _ ivs n h = h

arg_at-IsNumbered : (os : List Operand) (k : ℕ) → All IsNumbered os → IsNumbered (arg_at os k)
arg_at-IsNumbered [] k n = tt
arg_at-IsNumbered (o ∷ os) zero n = n.0
arg_at-IsNumbered (o ∷ os) (suc k) n = arg_at-IsNumbered os k n.1

note_phi-Keyed :
    (ss : List Span) (ivs : List Interval) (i : Instr)
    → All IsNumbered i.args
    → Keyed ivs
    → Keyed (note_phi ss ivs i)
unfolding note_phi
note_phi-Keyed ss ivs i n h = elim (Bool-cases (op_eq i.op op_phi)) [
  | inl e ↦ rw e (
      note_input-Keyed ss i.label2 (arg_at i.args 1) _ (arg_at-IsNumbered i.args 1 n)
        (note_input-Keyed ss i.label (arg_at i.args 0) ivs (arg_at-IsNumbered i.args 0 n) h))
  | inr e ↦ rw e h
]

pub note_phis-Keyed :
    (ss : List Span) (bs : List Block) (ivs : List Interval)
    → AllNumbered bs
    → Keyed ivs
    → Keyed (note_phis ss bs ivs)
unfolding note_phis
note_phis-Keyed ss [] ivs n h = h
note_phis-Keyed ss (b ∷ bs) ivs n h = note_phis-Keyed ss bs _ n.1 (instrs b.instrs ivs n.0 h)
  where
    instrs :
        (is : List Instr) (ivs : List Interval)
        → All (λ (i : Instr). All IsNumbered i.args) is
        → Keyed ivs
        → Keyed (foldl (note_phi ss) ivs is)
    instrs [] ivs n h = h
    instrs (i ∷ is) ivs n h = instrs is (note_phi ss ivs i) n.1 (note_phi-Keyed ss ivs i n.0 h)

pub regs-start_params : (n v : ℕ) (s : Live) → regs (start_params n v s).ivs ≡ regs s.ivs
unfolding start_params
regs-start_params zero v s = refl
regs-start_params (suc n) v s = regs-start_params n (suc v) _ ∙ regs-start_at_zero (pos v) s.ivs

has_iv-All :
    (v : ℤ) (ivs : List Interval) → has_iv ivs v ≡ false → All (λ (a : ℤ). a ≢ v) (regs ivs)
has_iv-All v [] h = tt
has_iv-All v (i ∷ is) h = elim (Bool-cases (eq_ℤ i.reg v)) [
  | inl e ↦ cc (sym h ∙ ap (λ b. b || has_iv is v) e)
  | inr e ↦ (λ q. cc (sym e ∙ (eq_ℤ_iff i.reg v).1 q), has_iv-All v is (rw e at h))
]

regs-concat : (ivs : List Interval) (i : Interval) → regs (ivs ++ i ∷ []) ≡ regs ivs ++ i.reg ∷ []
regs-concat [] i = refl
regs-concat (x ∷ xs) i = ap (λ rs. x.reg ∷ rs) (regs-concat xs i)

pub add_params-Keyed : (n v : ℕ) (ivs : List Interval) → Keyed ivs → Keyed (add_params n v ivs)
unfolding add_params
add_params-Keyed zero v ivs h = h
add_params-Keyed (suc n) v ivs h = elim (Bool-cases (has_iv ivs (pos v))) [
  | inl e ↦ rw e (add_params-Keyed n (suc v) ivs h)
  | inr e ↦ rw e (
      add_params-Keyed n (suc v) _ (
        rw (regs-concat ivs (record (new_iv (pos v)) { start = pos 0; end = pos 0 })) (record {
          distinct =
              AllPairs-concat (λ (a b : ℤ). a ≢ b) (regs ivs) (pos v) h.distinct
                (has_iv-All (pos v) ivs e);
          numbered =
              All-append (λ (a : ℤ). a ≢ negsuc 0) (regs ivs) (pos v ∷ []) h.numbered
                ((λ q. cc q), tt);
        })))
]
