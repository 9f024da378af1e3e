-- ===== src/Opt/Common/Bound.antt =====
-- On `func_maxv`, src/backend/opt.c, and the size of the tables.
use mathlib.Core.Path.{subst}
use mathlib.Core.List.{foldl}
use mini_asm.Base.{ℕ, ◌<◌, ◌+◌, ◌≡◌, Bool, true, List, [], ◌∷◌, arith, Bool-cases, inl, inr, any_in}
use mini_asm.Base.Int.{ℤ, pos, ◌≤ℤ◌, max_ℤ, eq_ℤ_iff, pos_part}
use mini_asm.Ir.{Operand, vreg, Instr, Block, Func}
use mini_asm.Ir.Regs.{is_arg, instr_defines, instr_mentions, mentions}
use mini_asm.Opt.Common.{maxv_arg, maxv_instr, maxv_block, func_maxv}

abbrev instr_args : ℕ → List Operand → Bool
instr_args v os = any_in (is_arg v) os

-- A step that never lowers the bound and covers what it hits.
record Covers {A : Type 0} (step : ℤ → A → ℤ) (hit : ℕ → A → Bool) : Type 0 where
  grows : (m : ℤ) (a : A) → m ≤ℤ step m a
  covers : (m : ℤ) (a : A) (v : ℕ) → hit v a ≡ true → pos v ≤ℤ step m a

module _ {A : Type 0} (step : ℤ → A → ℤ) (hit : ℕ → A → Bool) (c : Covers step hit) where
  foldl-grows : (xs : List A) (m : ℤ) → m ≤ℤ foldl step m xs
  foldl-grows [] m = omega arith
  foldl-grows (x ∷ xs) m = omega (arith, c.grows m x, foldl-grows xs (step m x))

  foldl-covers : (xs : List A) (m : ℤ) (v : ℕ) → any_in (hit v) xs ≡ true → pos v ≤ℤ foldl step m xs
  foldl-covers [] m v h = cc
  foldl-covers (x ∷ xs) m v h = elim (Bool-cases (hit v x)) [
    | inl t ↦ omega (arith, c.covers m x v t, foldl-grows xs (step m x))
    | inr t ↦ foldl-covers xs (step m x) v (rw t at h)
  ]

  foldl-Covers : Covers (foldl step) (λ v xs. any_in (hit v) xs)
  foldl-Covers = record {
    grows = λ m xs. foldl-grows xs m;
    covers = λ m xs v h. foldl-covers xs m v h;
  }

maxv_arg-grows : (m : ℤ) (o : Operand) → m ≤ℤ maxv_arg m o
unfolding maxv_arg
maxv_arg-grows m (vreg v) = ground arith
maxv_arg-grows m _ = omega arith

maxv_arg-covers : (m : ℤ) (o : Operand) (v : ℕ) → is_arg v o ≡ true → pos v ≤ℤ maxv_arg m o
unfolding maxv_arg
maxv_arg-covers m (vreg w) v h = ground arith
maxv_arg-covers m _ v h = cc

maxv_args-Covers : Covers (foldl maxv_arg) instr_args
maxv_args-Covers =
    foldl-Covers maxv_arg is_arg (record { grows = maxv_arg-grows; covers = maxv_arg-covers })

max_ℤ-left : (a b : ℤ) → a ≤ℤ max_ℤ a b
max_ℤ-left a b = ground arith

max_ℤ-right : (a b : ℤ) → b ≤ℤ max_ℤ a b
max_ℤ-right a b = ground arith

maxv_instr-covers :
    (m : ℤ) (i : Instr) (v : ℕ) → instr_mentions v i ≡ true → pos v ≤ℤ maxv_instr m i
unfolding maxv_instr
maxv_instr-covers m i v h = elim (Bool-cases (instr_defines v i)) [
  | inl t ↦
      let e = (eq_ℤ_iff i.dst (pos v)).0 t in
      let below : pos v ≤ℤ max_ℤ m i.dst =
        subst (λ z. z ≤ℤ max_ℤ m i.dst) e (max_ℤ-right m i.dst) in
      omega (arith, maxv_args-Covers.grows (max_ℤ m i.dst) i.args)
  | inr t ↦ maxv_args-Covers.covers (max_ℤ m i.dst) i.args v (rw t at h)
]

maxv_instr-grows : (m : ℤ) (i : Instr) → m ≤ℤ maxv_instr m i
unfolding maxv_instr
maxv_instr-grows m i =
    omega (arith, max_ℤ-left m i.dst, maxv_args-Covers.grows (max_ℤ m i.dst) i.args)

maxv_block-Covers : Covers maxv_block (λ v (b : Block). any_in (instr_mentions v) b.instrs)
unfolding maxv_block
maxv_block-Covers =
    let instrs =
      foldl-Covers maxv_instr instr_mentions
        (record { grows = maxv_instr-grows; covers = maxv_instr-covers }) in
    record {
      grows = λ m b. instrs.grows m b.instrs;
      covers = λ m b v h. instrs.covers m b.instrs v h;
    }

-- Every register that some instruction of a function defines or reads is at most `func_maxv`.
pub func_maxv-bound : (f : Func) (v : ℕ) → mentions v f.blocks ≡ true → pos v ≤ℤ func_maxv f
unfolding func_maxv
func_maxv-bound f v h =
    (foldl-Covers maxv_block (λ w (b : Block). any_in (instr_mentions w) b.instrs)
        maxv_block-Covers).covers
      (pos 0) f.blocks v h

-- So it has a cell in the tables of `maxv + 1` cells.
pub func_maxv-cell :
    (f : Func) (v : ℕ) → mentions v f.blocks ≡ true → v < pos_part (func_maxv f) + 1
func_maxv-cell f v h = omega (arith, func_maxv-bound f v h)
