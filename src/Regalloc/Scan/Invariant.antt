-- ===== src/Regalloc/Scan/Invariant.antt =====
-- The invariant of the linear scan, src/backend/regalloc.c, and its steps: expiring, spilling, placing.
use mini_asm.Base.{
  ℕ, suc, ◌≤◌, ◌<◌, ◌≡◌, ◌≢◌, refl, ap, sym, ◌∙◌, true, false, List, arith, length, get_or, set,
  get_or-set_cases, get_or-set_self, get_or-set_ne, length-set, Bool-cases, lt_suc_cases, ◌==◌,
  ==_iff, inl, inr, ◌⊎◌,
}
use mini_asm.Base.Int.{ℤ, pos, ltb_ℤ, eq_ℤ, eq_ℤ_iff, ◌≤ℤ◌}
use mini_asm.Regalloc.Intervals.{Interval}
use mini_asm.Regalloc.Scan.{free, unset, spilled, Scan, expire_cell, expire, place, spill}
use mini_asm.Regalloc.Scan.Lookup.{iv_at, ltb_ℤ-le_trans, index_iv-at, get_or-map_fixed, length-map}

-- The intervals are those of different registers, whose numbers are not -1, in the order of their starts.
pub record IsOrdered (ivs : List Interval) : Type 0 where
  pub distinct :
      (i j : ℕ) → i < length ivs → j < length ivs → (iv_at ivs i).reg ≡ (iv_at ivs j).reg → i ≡ j
  pub numbered : (i : ℕ) → i < length ivs → (iv_at ivs i).reg ≢ free
  pub sorted : (i j : ℕ) → i ≤ j → j < length ivs → (iv_at ivs i).start ≤ℤ (iv_at ivs j).start

-- One of two intervals ends before the other starts.
abbrev pub IsApart : Interval → Interval → Type 0
IsApart a b = (ltb_ℤ a.end b.start ≡ true) ⊎ (ltb_ℤ b.end a.start ≡ true)

-- The interval may live in the register.
abbrev pub InPool : ℕ → ℕ → Interval → ℕ → Type 0
InPool nregs n_caller iv r =
    (r < nregs) × (iv.crosses_call ≡ true → n_caller ≤ r) × (iv.force_spill ≡ false)

abbrev pub assigned_at : Scan → ℕ → ℤ
assigned_at s i = get_or s.assigned i unset

abbrev pub holder_at : Scan → ℕ → ℤ
holder_at s r = get_or s.holder r free

-- Spilling an interval keeps what was assigned to the others.
pub kept : (s : Scan) (j i r : ℕ) → assigned_at (spill j s) i ≡ pos r → assigned_at s i ≡ pos r
unfolding spill
kept s j i r h = elim (get_or-set_cases s.assigned j i spilled unset) [
  | inl e ↦ absurd (cc (sym e.1 ∙ h))
  | inr e ↦ sym e ∙ h
]

module _ (ivs : List Interval) (nregs n_caller : ℕ) where
  -- The first `k` intervals are decided, up to the position `now`.
  pub record Inv (k : ℕ) (now : ℤ) (s : Scan) : Type 0 where
    pub holder_size : length s.holder ≡ nregs
    pub size : length s.assigned ≡ length ivs
    pub held :
        (i r : ℕ)
        → i < k
        → assigned_at s i ≡ pos r
        → (holder_at s r ≡ (iv_at ivs i).reg) ⊎ (ltb_ℤ (iv_at ivs i).end now ≡ true)
    pub apart :
        (i j r : ℕ)
        → i < k
        → j < k
        → i ≢ j
        → assigned_at s i ≡ pos r
        → assigned_at s j ≡ pos r
        → IsApart (iv_at ivs i) (iv_at ivs j)
    pub pool : (i r : ℕ) → i < k → assigned_at s i ≡ pos r → InPool nregs n_caller (iv_at ivs i) r
    pub decided :
        (i : ℕ) → i < k → (assigned_at s i ≡ spilled) ⊎ ((r : ℕ) × (assigned_at s i ≡ pos r))

  pub spill-Inv : (k : ℕ) (now : ℤ) (j : ℕ) (s : Scan) → Inv k now s → Inv k now (spill j s)
  unfolding spill
  spill-Inv k now j s h = record {
    holder_size = h.holder_size;
    size = length-set s.assigned j spilled ∙ h.size;
    held = λ i r lt e. h.held i r lt (kept s j i r e);
    apart = λ i i' r lt lt' ne e e'. h.apart i i' r lt lt' ne (kept s j i r e) (kept s j i' r e');
    pool = λ i r lt e. h.pool i r lt (kept s j i r e);
    decided = λ i lt. elim (get_or-set_cases s.assigned j i spilled unset) [
      | inl e ↦ inl e.1
      | inr e ↦ rw e (h.decided i lt)
    ];
  }

  -- An interval that is spilled itself is decided.
  pub grow-Inv :
      (k : ℕ) (now : ℤ) (s : Scan) → assigned_at s k ≡ spilled → Inv k now s → Inv (suc k) now s
  grow-Inv k now s e h = record {
    holder_size = h.holder_size;
    size = h.size;
    held = λ i r lt q. h.held i r (below i r lt q) q;
    apart = λ i j r lt lt' ne q q'. h.apart i j r (below i r lt q) (below j r lt' q') ne q q';
    pool = λ i r lt q. h.pool i r (below i r lt q) q;
    decided =
        λ i lt. elim (lt_suc_cases i k lt) [ inl l ↦ h.decided i l | inr same ↦ inl (rw same e) ];
  }
    where
      below : (i r : ℕ) → i < suc k → assigned_at s i ≡ pos r → i < k
      below i r lt q = elim (lt_suc_cases i k lt) [
        | inl l ↦ l
        | inr same ↦ absurd (cc (sym e ∙ ap (assigned_at s) (sym same) ∙ q))
      ]

  free-expire_cell : (now : ℤ) → expire_cell ivs now free ≡ free
  unfolding expire_cell
  free-expire_cell now = refl

  expire_cell-held :
      (i : ℕ) (now : ℤ)
      → IsOrdered ivs
      → i < length ivs
      → (expire_cell ivs now (iv_at ivs i).reg ≡ (iv_at ivs i).reg)
        ⊎ (ltb_ℤ (iv_at ivs i).end now ≡ true)
  unfolding expire_cell
  expire_cell-held i now o lt =
      let (j, _, small, found, same) = index_iv-at ivs i lt in
      let there = o.distinct j i small lt same in
      elim (Bool-cases (eq_ℤ (iv_at ivs i).reg free)) [
        | inl e ↦ absurd (o.numbered i lt ((eq_ℤ_iff (iv_at ivs i).reg free).0 e))
        | inr e ↦ elim (Bool-cases (ltb_ℤ (iv_at ivs i).end now)) [
          | inl t ↦ inr t
          | inr t ↦ inl (rw (e, found, there, t) refl)
        ]
      ]

  -- Expiring at a later position frees only registers whose holder has ended.
  pub expire-Inv :
      (k : ℕ) (now now' : ℤ) (s : Scan)
      → IsOrdered ivs
      → k ≤ length ivs
      → now ≤ℤ now'
      → Inv k now s
      → Inv k now' (record s { holder = expire ivs now' s.holder })
  unfolding expire
  expire-Inv k now now' s o small le h = record {
    holder_size = length-map (expire_cell ivs now') s.holder ∙ h.holder_size;
    size = h.size;
    held = λ i r lt e. elim (h.held i r lt e) [
      | inl q ↦
          let cell =
            get_or-map_fixed (expire_cell ivs now') s.holder r free (free-expire_cell now') in
          elim (expire_cell-held i now' o (omega arith)) [
            | inl c ↦ inl (cell ∙ ap (expire_cell ivs now') q ∙ c)
            | inr c ↦ inr c
          ]
      | inr q ↦ inr (ltb_ℤ-le_trans (iv_at ivs i).end now now' q le)
    ];
    apart = h.apart;
    pool = h.pool;
    decided = h.decided;
  }

  -- A register whose earlier intervals have all ended takes the next interval.
  pub place-Inv :
      (k r : ℕ) (s : Scan)
      → k < length ivs
      → InPool nregs n_caller (iv_at ivs k) r
      → ((i : ℕ)
          → i < k
          → assigned_at s i ≡ pos r
          → ltb_ℤ (iv_at ivs i).end (iv_at ivs k).start ≡ true)
      → Inv k (iv_at ivs k).start s
      → Inv (suc k) (iv_at ivs k).start (place k (iv_at ivs k).reg r s)
  unfolding place
  place-Inv k r s lt fit clear h = record {
    holder_size = length-set s.holder r (iv_at ivs k).reg ∙ h.holder_size;
    size = length-set s.assigned k (pos r) ∙ h.size;
    held = λ i r' l e. elim (lt_suc_cases i k l) [
      | inl below ↦ held_below i r' below (sym (old i below) ∙ e)
      | inr same ↦
          let here : r ≡ r' = newest r' (ap now_at (sym same) ∙ e) in
          inl (
            rw (same, ← here)
              (get_or-set_self s.holder r (iv_at ivs k).reg free
                (omega (arith, fit.0, h.holder_size))))
    ];
    apart = λ i j r' l l' ne e e'. elim (lt_suc_cases i k l) [
      | inl below ↦ elim (lt_suc_cases j k l') [
        | inl below' ↦
            h.apart i j r' below below' ne (sym (old i below) ∙ e) (sym (old j below') ∙ e')
        | inr same ↦
            let here : r ≡ r' = newest r' (ap now_at (sym same) ∙ e') in
            inl (rw same (clear i below (sym (old i below) ∙ e ∙ ap pos (sym here))))
      ]
      | inr same ↦ elim (lt_suc_cases j k l') [
        | inl below' ↦
            let here : r ≡ r' = newest r' (ap now_at (sym same) ∙ e) in
            inr (rw same (clear j below' (sym (old j below') ∙ e' ∙ ap pos (sym here))))
        | inr same' ↦ absurd (ne (same ∙ sym same'))
      ]
    ];
    pool = λ i r' l e. elim (lt_suc_cases i k l) [
      | inl below ↦ h.pool i r' below (sym (old i below) ∙ e)
      | inr same ↦ let here : r ≡ r' = newest r' (ap now_at (sym same) ∙ e) in rw (same, ← here) fit
    ];
    decided = λ i l. elim (lt_suc_cases i k l) [
      | inl below ↦ rw (old i below) (h.decided i below)
      | inr same ↦ inr (r, rw same at_k)
    ];
  }
    where
      now_at : ℕ → ℤ
      now_at i = get_or (set s.assigned k (pos r)) i unset

      at_k : now_at k ≡ pos r
      at_k = get_or-set_self s.assigned k (pos r) unset (omega (arith, h.size))

      old : (i : ℕ) → i < k → now_at i ≡ assigned_at s i
      old i below = get_or-set_ne s.assigned k i (pos r) unset (λ e. omega arith)

      newest : (r' : ℕ) → now_at k ≡ pos r' → r ≡ r'
      newest r' e = cc (sym at_k ∙ e)

      held_below :
          (i r' : ℕ)
          → i < k
          → assigned_at s i ≡ pos r'
          → (get_or (set s.holder r (iv_at ivs k).reg) r' free ≡ (iv_at ivs i).reg)
            ⊎ (ltb_ℤ (iv_at ivs i).end (iv_at ivs k).start ≡ true)
      held_below i r' below e = elim (Bool-cases (r == r')) [
        | inl t ↦ inr (clear i below (e ∙ ap pos (sym ((==_iff r r').0 t))))
        | inr f ↦
            rw
              (get_or-set_ne s.holder r r' (iv_at ivs k).reg free
                (λ q. cc (sym f ∙ (==_iff r r').1 q)))
              (h.held i r' below e)
      ]
