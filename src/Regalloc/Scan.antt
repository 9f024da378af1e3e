-- ===== src/Regalloc/Scan.antt =====
-- src/backend/regalloc.c, the linear scan of `regalloc_run_internal`. The field `assigned` of the
-- intervals is a list of its own, one cell to an interval, since the scan writes nothing else of them:
-- -1 unset, -2 spilled, else the register. `reg_free_until` is never read and left out.
pub mod Lookup
pub mod Invariant
pub mod Safe
use mathlib.Core.List.{foldl}
use mini_asm.Base.{
  ℕ, zero, suc, ◌+◌, Bool, true, false, not, ◌&&◌, ◌||◌, List, [], ◌∷◌, ◌++◌, map, Option, none,
  some, ltb, leb, ◌==◌, if◌then◌else◌, length, get_or, set, replicate,
}
use mini_asm.Base.Int.{ℤ, pos, negsuc, ltb_ℤ, eq_ℤ}
use mini_asm.Regalloc.Intervals.{Interval, find_iv}

abbrev pub free : ℤ
free = negsuc 0

abbrev pub unset : ℤ
unset = negsuc 0

abbrev pub spilled : ℤ
spilled = negsuc 1

pub record Scan : Type 0 where
  pub holder : List ℤ
  pub assigned : List ℤ
  pub nassigned : ℕ
  pub nspills : ℕ

-- The index of the first interval of a register.
unfoldable pub index_iv : List Interval → ℤ → Option ℕ
index_iv [] v = none
index_iv (i ∷ is) v =
    if eq_ℤ i.reg v then some 0 else elim (index_iv is v) [ some n ↦ some (suc n) | none ↦ none ]

-- One register at the start of an interval: free where its holder has ended.
abbrev pub release : ℤ → ℤ → Option Interval → ℤ
release now v none = v
release now v (some h) = if ltb_ℤ h.end now then free else v

unfoldable pub expire_cell : List Interval → ℤ → ℤ → ℤ
expire_cell ivs now v = if eq_ℤ v free then v else release now v (find_iv ivs v)

unfoldable pub expire : List Interval → ℤ → List ℤ → List ℤ
expire ivs now = map (expire_cell ivs now)

-- The first free register from `lo` on; `r` is the register of the list's head.
unfoldable pub first_free : ℕ → ℕ → List ℤ → Option ℕ
first_free lo r [] = none
first_free lo r (v ∷ vs) = if leb lo r && eq_ℤ v free then some r else first_free lo (suc r) vs

-- `victim` and `victim_end`.
pub record Victim : Type 0 where
  pub victim : Option ℕ
  pub victim_end : ℤ

abbrev pub worse : ℕ → Option Interval → Victim → Victim
worse r none best = best
worse r (some h) best =
    if ltb_ℤ best.victim_end h.end then record { victim = some r; victim_end = h.end } else best

unfoldable pub find_victim : List Interval → ℕ → ℕ → List ℤ → Victim → Victim
find_victim ivs lo r [] best = best
find_victim ivs lo r (v ∷ vs) best =
    find_victim ivs lo (suc r) vs (if leb lo r then worse r (find_iv ivs v) best else best)

-- The interval `k` of the register `v` gets the machine register `r`.
unfoldable pub place : ℕ → ℤ → ℕ → Scan → Scan
place k v r s = record s {
  holder = set s.holder r v;
  assigned = set s.assigned k (pos r);
  nassigned = s.nassigned + 1;
}

unfoldable pub spill : ℕ → Scan → Scan
spill k s = record s { assigned = set s.assigned k spilled; nspills = s.nspills + 1 }

-- `if(h){ h->assigned = -2; nspills++; }`.
abbrev pub spill_holder : Option ℕ → Scan → Scan
spill_holder none s = s
spill_holder (some j) s = spill j s

unfoldable pub take_victim : List Interval → ℕ → ℤ → Option ℕ → Scan → Scan
unfolding place spill
take_victim ivs k v none s = spill k s
take_victim ivs k v (some r) s =
    place k v r (spill_holder (index_iv ivs (get_or s.holder r free)) s)

abbrev pub pool_lo : ℕ → Bool → ℕ
pool_lo n_caller crosses = if crosses then n_caller else 0

unfoldable pub choose : List Interval → ℕ → ℕ → Interval → Option ℕ → Scan → Scan
choose ivs lo k iv (some r) s = place k iv.reg r s
choose ivs lo k iv none s =
    take_victim ivs k iv.reg
      (find_victim ivs lo 0 s.holder (record { victim = none; victim_end = iv.end })).victim s

-- The body of the loop over `k`.
unfoldable pub scan_step : List Interval → ℕ → ℕ → Interval → Scan → Scan
scan_step ivs n_caller k iv s =
    let t = record s { holder = expire ivs iv.start s.holder } in
    if iv.force_spill
    then spill k t
    else choose ivs (pool_lo n_caller iv.crosses_call) k iv
        (first_free (pool_lo n_caller iv.crosses_call) 0 t.holder) t

-- The loop from `k` on; the list holds the intervals that are left.
unfoldable pub scan_from : List Interval → ℕ → ℕ → List Interval → Scan → Scan
scan_from ivs n_caller k [] s = s
scan_from ivs n_caller k (iv ∷ rest) s =
    scan_from ivs n_caller (suc k) rest (scan_step ivs n_caller k iv s)

unfoldable pub linear_scan : List Interval → ℕ → ℕ → Scan
linear_scan ivs nregs n_caller = scan_from ivs n_caller 0 ivs (record {
  holder = replicate nregs free;
  assigned = replicate (length ivs) unset;
  nassigned = 0;
  nspills = 0;
})
