-- ===== src/Regalloc/Run.antt =====
-- src/backend/regalloc.c, `regalloc_run_internal` and `regalloc_run_target`: the intervals are sorted,
-- scanned, and written to the answer `reg_of`. `no_regalloc` says that CC_NO_REGALLOC is set.
-- `qsort` is a stable insertion sort; the standard leaves the order of equal starts open.
pub mod Sort
pub mod Answer
pub mod Names
use mini_asm.Base.{
  ℕ, zero, suc, ◌+◌, Bool, List, [], ◌∷◌, Option, none, some, ltb, if◌then◌else◌, length, get_or,
  set, replicate,
}
use mini_asm.Base.Int.{ℤ, pos, negsuc, ltb_ℤ, eq_ℤ}
use mini_asm.Ir.{Func}
use mini_asm.Regalloc.Targets.{TargetRegInfo, target_or_default}
use mini_asm.Regalloc.Intervals.{Interval, Live, compute_intervals}
use mini_asm.Regalloc.Scan.{free, unset, spilled, Scan, linear_scan}

unfoldable pub insert_iv : Interval → List Interval → List Interval
insert_iv i [] = i ∷ []
insert_iv i (x ∷ xs) = if ltb_ℤ x.start i.start then x ∷ insert_iv i xs else i ∷ x ∷ xs

unfoldable pub sort_intervals : List Interval → List Interval
sort_intervals [] = []
sort_intervals (i ∷ is) = insert_iv i (sort_intervals is)

-- RegAlloc. `info` is `none` where the code leaves the field unwritten, as a normal run does.
pub record RegAlloc : Type 0 where
  pub reg_of : List ℤ
  pub nvregs : ℕ
  pub nspills : ℕ
  pub nassigned : ℕ
  pub info : Option (Option TargetRegInfo)

-- `maxv + 1`, which is not negative.
abbrev pub vreg_count : ℤ → ℕ
vreg_count (pos m) = suc m
vreg_count (negsuc m) = 0

-- `out.reg_of[v]` behind `v >= 0 && v < nvregs`.
unfoldable pub write_reg : ℤ → ℤ → List ℤ → List ℤ
write_reg (pos v) a out =
    if ltb v (length out) then set out v (if eq_ℤ a spilled then negsuc 0 else a) else out
write_reg (negsuc v) a out = out

-- The loop over `k` that fills the answer.
unfoldable pub answer : List Interval → ℕ → List ℤ → List ℤ → List ℤ
answer [] k assigned out = out
answer (i ∷ is) k assigned out =
    answer is (suc k) assigned (write_reg i.reg (get_or assigned k unset) out)

-- `if(nregs > 16) nregs = 16`.
abbrev pub pool_size : TargetRegInfo → ℕ
pool_size info = if ltb 16 info.nregs then 16 else info.nregs

unfoldable pub regalloc_run : Bool → Option TargetRegInfo → Func → RegAlloc
regalloc_run no_regalloc target f =
    let live = compute_intervals f in
    let n = vreg_count live.maxv in
    if no_regalloc
    then record {
      reg_of = replicate n free;
      nvregs = n;
      nspills = n;
      nassigned = 0;
      info = some target;
    }
    else (let ivs = sort_intervals live.ivs in
        let s =
          linear_scan ivs (pool_size (target_or_default target))
            (target_or_default target).n_caller_saved in
        record {
          reg_of = answer ivs 0 s.assigned (replicate n free);
          nvregs = n;
          nspills = s.nspills;
          nassigned = s.nassigned;
          info = none;
        })

-- `g_target` is set for the call and restored after it.
unfoldable pub regalloc_run_target : Bool → Func → TargetRegInfo → RegAlloc
regalloc_run_target no_regalloc f info = record (regalloc_run no_regalloc (some info) f) {
  info = some (some info);
}
