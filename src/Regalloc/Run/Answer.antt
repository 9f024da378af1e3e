-- ===== src/Regalloc/Run/Answer.antt =====
-- On the answer `reg_of` of `regalloc_run_internal`, src/backend/regalloc.c.
use mini_asm.Base.{
  ℕ, suc, ◌+◌, ◌<◌, ◌≡◌, ◌≢◌, sym, ap, ◌∙◌, false, List, [], ◌∷◌, Option, length, get_or,
  get_or-replicate, get_or-set_cases, arith, Bool-cases, inl, inr, ◌⊎◌, ltb,
}
use mini_asm.Base.Int.{ℤ, pos, negsuc, eq_ℤ}
use mini_asm.Ir.{Func}
use mini_asm.Regalloc.Targets.{TargetRegInfo, target_or_default}
use mini_asm.Regalloc.Intervals.{Interval, compute_intervals}
use mini_asm.Regalloc.Intervals.Keys.{AllNumbered}
use mini_asm.Regalloc.Intervals.Distinct.{compute_intervals-Keyed}
use mini_asm.Regalloc.Scan.{free, unset, spilled, linear_scan}
use mini_asm.Regalloc.Scan.Lookup.{iv_at}
use mini_asm.Regalloc.Scan.Invariant.{IsOrdered, IsApart, InPool, assigned_at}
use mini_asm.Regalloc.Scan.Safe.{linear_scan-IsApart, linear_scan-InPool}
use mini_asm.Regalloc.Run.{sort_intervals, write_reg, answer, pool_size, vreg_count, regalloc_run}
use mini_asm.Regalloc.Run.Sort.{sort_intervals-IsOrdered}

pos-injective : (v w : ℕ) → pos v ≡ pos w → v ≡ w
pos-injective v w e = cc

-- A cell after one write is the cell before it, or the register that the interval got.
write_reg-cases :
    (d a : ℤ) (out : List ℤ) (v r : ℕ)
    → get_or (write_reg d a out) v free ≡ pos r
    → ((d ≡ pos v) × (a ≡ pos r)) ⊎ (get_or out v free ≡ pos r)
unfolding write_reg
write_reg-cases (negsuc d) a out v r h = inr h
write_reg-cases (pos d) a out v r h = elim (Bool-cases (ltb d (length out))) [
  | inr e ↦ inr (rw e at h)
  | inl e ↦ elim (Bool-cases (eq_ℤ a spilled)) [
    | inl s ↦ elim (get_or-set_cases out d v free free) [
      | inl q ↦ absurd (cc (sym q.1 ∙ rw (e, s) at h))
      | inr q ↦ inr (sym q ∙ rw (e, s) at h)
    ]
    | inr s ↦ elim (get_or-set_cases out d v a free) [
      | inl q ↦ inl (ap pos q.0, sym q.1 ∙ rw (e, s) at h)
      | inr q ↦ inr (sym q ∙ rw (e, s) at h)
    ]
  ]
]

answer-cases :
    (is : List Interval) (k : ℕ) (assigned out : List ℤ) (v r : ℕ)
    → get_or (answer is k assigned out) v free ≡ pos r
    → ((m : ℕ) × (m < length is)
        × ((iv_at is m).reg ≡ pos v)
        × (get_or assigned (k + m) unset ≡ pos r))
      ⊎ (get_or out v free ≡ pos r)
unfolding answer
answer-cases [] k assigned out v r h = inr h
answer-cases (i ∷ is) k assigned out v r h =
    elim (answer-cases is (suc k) assigned (write_reg i.reg (get_or assigned k unset) out) v r h) [
      | inl (m, l, e, a) ↦
          inl (suc m, omega arith, e, ap (λ n. get_or assigned n unset) (omega arith) ∙ a)
      | inr e ↦ elim (write_reg-cases i.reg (get_or assigned k unset) out v r e) [
        | inl (q, a) ↦ inl (0, omega arith, q, ap (λ n. get_or assigned n unset) (omega arith) ∙ a)
        | inr q ↦ inr q
      ]
    ]

module _ (target : Option TargetRegInfo) (f : Func) (named : AllNumbered f.blocks) where
  abbrev pub info : TargetRegInfo
  info = target_or_default target

  -- The intervals in the order in which the scan meets them.
  abbrev pub live : List Interval
  live = sort_intervals (compute_intervals f).ivs

  ordered : IsOrdered live
  ordered = sort_intervals-IsOrdered (compute_intervals f).ivs (compute_intervals-Keyed f named)

  -- The interval of the register `v`, which the scan gave the machine register `r`.
  abbrev Placed : ℕ → ℕ → Type 0
  Placed v r =
      (i : ℕ) × (i < length live)
      × ((iv_at live i).reg ≡ pos v)
      × (assigned_at (linear_scan live (pool_size info) info.n_caller_saved) i ≡ pos r)

  placed : (v r : ℕ) → get_or (regalloc_run false target f).reg_of v free ≡ pos r → Placed v r
  unfolding regalloc_run
  placed v r h = elim (answer-cases live 0 _ _ v r h) [
    | inl (m, l, e, a) ↦ let here : 0 + m ≡ m = omega arith in (m, l, e, rw here at a)
    | inr e ↦
        absurd (cc (sym (get_or-replicate (vreg_count (compute_intervals f).maxv) v free) ∙ e))
  ]

  -- In a function whose operands are numbered registers, two registers with one machine register in the
  -- answer have intervals of which one ends before the other starts.
  pub regalloc_run-IsApart :
      (v w r : ℕ)
      → v ≢ w
      → get_or (regalloc_run false target f).reg_of v free ≡ pos r
      → get_or (regalloc_run false target f).reg_of w free ≡ pos r
      → (i j : ℕ) × ((iv_at live i).reg ≡ pos v)
        × ((iv_at live j).reg ≡ pos w)
        × IsApart (iv_at live i) (iv_at live j)
  regalloc_run-IsApart v w r ne h h' =
      let (i, l, e, a) = placed v r h in
      let (j, l', e', a') = placed w r h' in
      let differ : i ≢ j =
        λ q. ne (pos-injective v w (sym e ∙ ap (λ n. (iv_at live n).reg) q ∙ e')) in
      (
        i,
        j,
        e,
        e',
        linear_scan-IsApart live (pool_size info) info.n_caller_saved ordered i j r l l' differ a
            a',
      )

  -- In a function whose operands are numbered registers, a machine register in the answer is below the
  -- size of the pool, is not a caller-saved one where the interval was marked to cross a call, and
  -- belongs to an interval without a forced spill.
  pub regalloc_run-InPool :
      (v r : ℕ)
      → get_or (regalloc_run false target f).reg_of v free ≡ pos r
      → (i : ℕ) × ((iv_at live i).reg ≡ pos v)
        × InPool (pool_size info) info.n_caller_saved (iv_at live i) r
  regalloc_run-InPool v r h =
      let (i, l, e, a) = placed v r h in
      (i, e, linear_scan-InPool live (pool_size info) info.n_caller_saved ordered i r l a)
