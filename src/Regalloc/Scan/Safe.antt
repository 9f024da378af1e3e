-- ===== src/Regalloc/Scan/Safe.antt =====
-- On the linear scan of `regalloc_run_internal`, src/backend/regalloc.c, as a whole.
use mini_asm.Base.{
  ℕ, suc, ◌+◌, ◌≤◌, ◌<◌, ◌≡◌, ◌≢◌, refl, ap, sym, ◌∙◌, Bool, true, false, List, [], ◌∷◌, Option,
  none, some, arith, length, get_or, replicate, length-replicate, get_or-set_self, Bool-cases, inl,
  inr, ◌⊎◌,
}
use mini_asm.Base.Int.{ℤ, pos, ltb_ℤ, ◌≤ℤ◌}
use mini_asm.Regalloc.Intervals.{Interval}
use mini_asm.Regalloc.Scan.{
  free, unset, spilled, Scan, index_iv, expire, first_free, spill, spill_holder, take_victim,
  pool_lo, choose, scan_step, scan_from, linear_scan,
}
use mini_asm.Regalloc.Scan.Lookup.{iv_at, index_iv-at, first_free-some, IsFrom, find_victim-IsFrom}
use mini_asm.Regalloc.Scan.Invariant.{
  IsOrdered, IsApart, InPool, assigned_at, Inv, kept, spill-Inv, grow-Inv, expire-Inv, place-Inv,
}

module _ (ivs : List Interval) (nregs n_caller : ℕ) (o : IsOrdered ivs) where
  abbrev at : ℕ → Interval
  at = iv_at ivs

  abbrev Between : ℕ → ℤ → Scan → Type 0
  Between = Inv ivs nregs n_caller

  pool_lo_le :
      (crosses : Bool) (r : ℕ) → pool_lo n_caller crosses ≤ r → crosses ≡ true → n_caller ≤ r
  pool_lo_le true r h e = h
  pool_lo_le false r h e = cc

  spilled_self : (s : Scan) (j : ℕ) → j < length s.assigned → assigned_at (spill j s) j ≡ spilled
  unfolding spill
  spilled_self s j l = get_or-set_self s.assigned j spilled unset l

  spilled_now :
      (k : ℕ) (now : ℤ) (s : Scan)
      → k < length ivs
      → Between k now s
      → Between (suc k) now (spill k s)
  unfolding spill
  spilled_now k now s lt h =
      grow-Inv ivs nregs n_caller k now (spill k s)
        (get_or-set_self s.assigned k spilled unset (omega (arith, h.size)))
        (spill-Inv ivs nregs n_caller k now k s h)

  -- Once its holder is spilled, the intervals that a victim's register held have ended.
  victim_clear :
      (k r : ℕ) (now : ℤ) (s : Scan)
      → k ≤ length ivs
      → Between k now s
      → (i : ℕ) → i < k
      → assigned_at (spill_holder (index_iv ivs (get_or s.holder r free)) s) i ≡ pos r
      → ltb_ℤ (at i).end now ≡ true
  victim_clear k r now s small h i lt e =
      elim (h.held i r lt (kept_holder (index_iv ivs (get_or s.holder r free)) e)) [
        | inl q ↦
            let (j, found, there, _, same) = index_iv-at ivs i (omega arith) in
            let own : j ≡ i = o.distinct j i there (omega arith) same in
            let now_spilled : assigned_at (spill_holder (some j) s) i ≡ pos r =
              rw (q, found) at e in
            absurd (cc (sym (spilled_self s i (omega (arith, h.size))) ∙ rw own at now_spilled))
        | inr q ↦ q
      ]
    where
      kept_holder :
          (c : Option ℕ) → assigned_at (spill_holder c s) i ≡ pos r → assigned_at s i ≡ pos r
      kept_holder none a = a
      kept_holder (some j) a = kept s j i r a

  take_victim-Inv :
      (k : ℕ) (v : Option ℕ) (s : Scan)
      → k < length ivs
      → (at k).force_spill ≡ false
      → IsFrom (pool_lo n_caller (at k).crosses_call) nregs v
      → Between k (at k).start s
      → Between (suc k) (at k).start (take_victim ivs k (at k).reg v s)
  unfolding take_victim
  take_victim-Inv k none s lt f h inv = spilled_now k (at k).start s lt inv
  take_victim-Inv k (some r) s lt f h inv =
      place-Inv ivs nregs n_caller k r (spill_holder (index_iv ivs (get_or s.holder r free)) s) lt
        (h.1, pool_lo_le (at k).crosses_call r h.0, f)
        (victim_clear k r (at k).start s (omega arith) inv)
        (holder_spilled (index_iv ivs (get_or s.holder r free)))
    where
      holder_spilled : (j : Option ℕ) → Between k (at k).start (spill_holder j s)
      holder_spilled none = inv
      holder_spilled (some j) = spill-Inv ivs nregs n_caller k (at k).start j s inv

  free_clear :
      (k r : ℕ) (now : ℤ) (s : Scan)
      → k ≤ length ivs
      → Between k now s
      → get_or s.holder r free ≡ free
      → (i : ℕ) → i < k
      → assigned_at s i ≡ pos r
      → ltb_ℤ (at i).end now ≡ true
  free_clear k r now s small h e i lt a = elim (h.held i r lt a) [
    | inl q ↦ absurd (o.numbered i (omega arith) (sym q ∙ e))
    | inr q ↦ q
  ]

  choose-Inv :
      (k : ℕ) (s : Scan)
      → k < length ivs
      → (at k).force_spill ≡ false
      → Between k (at k).start s
      → (c : Option ℕ) → first_free (pool_lo n_caller (at k).crosses_call) 0 s.holder ≡ c
      → Between
          (suc k)
          (at k).start
          (choose ivs (pool_lo n_caller (at k).crosses_call) k (at k) c s)
  unfolding choose
  choose-Inv k s lt f inv none e =
      let from =
        find_victim-IsFrom ivs (pool_lo n_caller (at k).crosses_call) s.holder
          (record { victim = none; victim_end = (at k).end }) refl in
      take_victim-Inv k _ s lt f (rw inv.holder_size at from) inv
  choose-Inv k s lt f inv (some r) e =
      let (low, m, is, small, is_free) =
        first_free-some (pool_lo n_caller (at k).crosses_call) 0 s.holder r e in
      let same : m ≡ r = omega (arith, is) in
      place-Inv ivs nregs n_caller k r s lt
        (omega (arith, small, same, inv.holder_size), pool_lo_le (at k).crosses_call r low, f)
        (free_clear k r (at k).start s (omega arith) inv (rw same at is_free)) inv

  scan_step-Inv :
      (k : ℕ) (now : ℤ) (s : Scan)
      → k < length ivs
      → now ≤ℤ (at k).start
      → Between k now s
      → Between (suc k) (at k).start (scan_step ivs n_caller k (at k) s)
  unfolding scan_step
  scan_step-Inv k now s lt le h = elim (Bool-cases (at k).force_spill) [
    | inl f ↦ rw f (spilled_now k (at k).start t lt later)
    | inr f ↦ rw f (choose-Inv k t lt f later _ refl)
  ]
    where
      t : Scan
      t = record s { holder = expire ivs (at k).start s.holder }

      later : Between k (at k).start t
      later = expire-Inv ivs nregs n_caller k now (at k).start s o (omega arith) le h

  scan_from-Inv :
      (rest : List Interval) (k : ℕ) (now : ℤ) (s : Scan)
      → k + length rest ≡ length ivs
      → ((m : ℕ) → m < length rest → iv_at rest m ≡ at (k + m))
      → ((i : ℕ) → k ≤ i → i < length ivs → now ≤ℤ (at i).start)
      → Between k now s
      → (end : ℤ) × Between (length ivs) end (scan_from ivs n_caller k rest s)
  unfolding scan_from
  scan_from-Inv [] k now s e same le h =
      let all : k ≡ length ivs = omega (arith, e) in (now, rw all at h)
  scan_from-Inv (iv ∷ rest) k now s e same le h =
      let here : iv ≡ at k = same 0 (omega arith) ∙ ap at (omega arith) in
      rw here (
        scan_from-Inv rest (suc k) (at k).start (scan_step ivs n_caller k (at k) s)
          (omega (arith, e)) (λ m lt. same (suc m) (omega arith) ∙ ap at (omega arith))
          (λ i l lt. o.sorted k i (omega arith) lt)
          (scan_step-Inv k now s (omega (arith, e)) (le k (omega arith) (omega (arith, e))) h))

  start-Inv :
      (now : ℤ)
      → Between 0 now (record {
        holder = replicate nregs free;
        assigned = replicate (length ivs) unset;
        nassigned = 0;
        nspills = 0;
      })
  start-Inv now = record {
    holder_size = length-replicate nregs free;
    size = length-replicate (length ivs) unset;
    held = λ i r lt e. absurd (omega arith);
    apart = λ i j r lt lt' ne e e'. absurd (omega arith);
    pool = λ i r lt e. absurd (omega arith);
    decided = λ i lt. absurd (omega arith);
  }

  abbrev result : Scan
  result = linear_scan ivs nregs n_caller

  result-Inv : (end : ℤ) × Between (length ivs) end result
  unfolding linear_scan
  result-Inv =
      scan_from-Inv ivs 0 (at 0).start _ (omega arith) (λ m lt. ap at (omega arith))
        (λ i l lt. o.sorted 0 i (omega arith) lt) (start-Inv (at 0).start)

  -- Of two intervals with one register, one ends before the other starts.
  pub linear_scan-IsApart :
      (i j r : ℕ)
      → i < length ivs
      → j < length ivs
      → i ≢ j
      → assigned_at result i ≡ pos r
      → assigned_at result j ≡ pos r
      → IsApart (at i) (at j)
  linear_scan-IsApart = result-Inv.1.apart

  -- A register that an interval gets exists, survives the calls that the interval crosses, and is not
  -- given where a spill is forced.
  pub linear_scan-InPool :
      (i r : ℕ) → i < length ivs → assigned_at result i ≡ pos r → InPool nregs n_caller (at i) r
  linear_scan-InPool = result-Inv.1.pool

  -- On intervals of different registers in the order of their starts, the scan spills every interval or
  -- gives it a register.
  pub linear_scan-decides :
      (i : ℕ)
      → i < length ivs
      → (assigned_at result i ≡ spilled) ⊎ ((r : ℕ) × (assigned_at result i ≡ pos r))
  linear_scan-decides = result-Inv.1.decided
