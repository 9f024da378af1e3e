-- ===== src/Regalloc/Intervals/Covers.antt =====
-- On the positions that the intervals of `compute_intervals`, src/backend/regalloc.c, cover.
use mini_asm.Base.{
  ℕ, ◌≡◌, refl, Bool, true, false, List, [], ◌∷◌, ◌++◌, map, Bool-cases, inl, inr, ◌⊎◌,
  if◌then◌else◌, arith,
}
use mini_asm.Base.Int.{ℤ, pos, negsuc, eq_ℤ, eq_ℤ_iff, ltb_ℤ, ◌≤ℤ◌}
use mini_asm.Regalloc.Intervals.{
  Interval, Live, touch, widen, mark_spill, mark_crossing, note_reg, start_at_zero, extend, new_iv,
}

-- The interval is that of the register `v` and holds the position `p`.
abbrev pub Spans : ℕ → ℕ → Interval → Type 0
Spans v p i = (i.reg ≡ pos v) × (i.start ≤ℤ pos p) × (pos p ≤ℤ i.end)

abbrev pub Covered : ℕ → ℕ → List Interval → Type 0
Covered v p [] = ⊥
Covered v p (i ∷ is) = Spans v p i ⊎ Covered v p is

-- What the first list covers, the second covers.
abbrev pub Grows : List Interval → List Interval → Type 0
Grows xs ys = (v p : ℕ) → Covered v p xs → Covered v p ys

widen-start : (p q : ℕ) (s : ℤ) → s ≤ℤ pos q → (if ltb_ℤ (pos p) s then pos p else s) ≤ℤ pos q
widen-start p q s h = ground arith

widen-end : (p q : ℕ) (e : ℤ) → pos q ≤ℤ e → pos q ≤ℤ (if ltb_ℤ e (pos p) then pos p else e)
widen-end p q e h = ground arith

widened-start : (p : ℕ) (s : ℤ) → (if ltb_ℤ (pos p) s then pos p else s) ≤ℤ pos p
widened-start p s = ground arith

widened-end : (p : ℕ) (e : ℤ) → pos p ≤ℤ (if ltb_ℤ e (pos p) then pos p else e)
widened-end p e = ground arith

widen-Spans : (v p q : ℕ) (i : Interval) → Spans v q i → Spans v q (widen p i)
unfolding widen
widen-Spans v p q i (r, s, e) = (r, widen-start p q i.start s, widen-end p q i.end e)

-- A touched register is covered at the position.
pub touch-Covered : (v p : ℕ) (ivs : List Interval) → Covered v p (touch (pos v) p ivs)
unfolding touch widen new_iv
touch-Covered v p [] = inl (refl, widened-start p (pos 2147483647), widened-end p (negsuc 0))
touch-Covered v p (i ∷ is) = elim (Bool-cases (eq_ℤ i.reg (pos v))) [
  | inl e ↦ rw e (inl ((eq_ℤ_iff i.reg (pos v)).0 e, widened-start p i.start, widened-end p i.end))
  | inr e ↦ rw e (inr (touch-Covered v p is))
]

pub touch-Grows : (d : ℤ) (p : ℕ) (ivs : List Interval) → Grows ivs (touch d p ivs)
unfolding touch
touch-Grows d p [] v q h = absurd h
touch-Grows d p (i ∷ is) v q (inl h) = elim (Bool-cases (eq_ℤ i.reg d)) [
  | inl e ↦ rw e (inl (widen-Spans v p q i h))
  | inr e ↦ rw e (inl h)
]
touch-Grows d p (i ∷ is) v q (inr h) = elim (Bool-cases (eq_ℤ i.reg d)) [
  | inl e ↦ rw e (inr h)
  | inr e ↦ rw e (inr (touch-Grows d p is v q h))
]

mark_spill-Grows : (d : ℤ) (ivs : List Interval) → Grows ivs (mark_spill d ivs)
unfolding mark_spill
mark_spill-Grows d [] v q h = absurd h
mark_spill-Grows d (i ∷ is) v q (inl h) = elim (Bool-cases (eq_ℤ i.reg d)) [
  | inl e ↦ rw e (inl h)
  | inr e ↦ rw e (inl h)
]
mark_spill-Grows d (i ∷ is) v q (inr h) = elim (Bool-cases (eq_ℤ i.reg d)) [
  | inl e ↦ rw e (inr h)
  | inr e ↦ rw e (inr (mark_spill-Grows d is v q h))
]

pub start_at_zero-Grows : (d : ℤ) (ivs : List Interval) → Grows ivs (start_at_zero d ivs)
unfolding start_at_zero
start_at_zero-Grows d [] v q h = absurd h
start_at_zero-Grows d (i ∷ is) v q (inl h) = elim (Bool-cases (eq_ℤ i.reg d)) [
  | inl e ↦ rw e (inl (h.0, omega arith, h.2))
  | inr e ↦ rw e (inl h)
]
start_at_zero-Grows d (i ∷ is) v q (inr h) = elim (Bool-cases (eq_ℤ i.reg d)) [
  | inl e ↦ rw e (inr h)
  | inr e ↦ rw e (inr (start_at_zero-Grows d is v q h))
]

pub map-Grows :
    (g : Interval → Interval)
    → ((v q : ℕ) (i : Interval) → Spans v q i → Spans v q (g i))
    → (ivs : List Interval) → Grows ivs (map g ivs)
map-Grows g keep [] v q h = absurd h
map-Grows g keep (i ∷ is) v q (inl h) = inl (keep v q i h)
map-Grows g keep (i ∷ is) v q (inr h) = inr (map-Grows g keep is v q h)

pub append-Grows : (ivs new : List Interval) → Grows ivs (ivs ++ new)
append-Grows [] new v q h = absurd h
append-Grows (i ∷ is) new v q (inl h) = inl h
append-Grows (i ∷ is) new v q (inr h) = inr (append-Grows is new v q h)

if-Spans :
    (b : Bool) (v q : ℕ) (i j : Interval)
    → Spans v q i
    → Spans v q j
    → Spans v q (if b then i else j)
if-Spans true v q i j h k = h
if-Spans false v q i j h k = k

pub mark_crossing-Spans : (p v q : ℕ) (i : Interval) → Spans v q i → Spans v q (mark_crossing p i)
mark_crossing-Spans p v q i h = if-Spans _ v q (record i { crosses_call = true }) i h h

pub extend-Spans : (lo hi v q : ℕ) (i : Interval) → Spans v q i → Spans v q (extend lo hi i)
extend-Spans lo hi v q i h =
    if-Spans _ v q (record i { end = if ltb_ℤ i.end (pos hi) then pos hi else i.end }) i
      (h.0, h.1, widen-end hi q i.end h.2) h

pub note_reg-Grows : (fp : Bool) (p : ℕ) (d : ℤ) (s : Live) → Grows s.ivs (note_reg fp p d s).ivs
unfolding note_reg
note_reg-Grows true p d s v q h =
    mark_spill-Grows d (touch d p s.ivs) v q (touch-Grows d p s.ivs v q h)
note_reg-Grows false p d s v q h = touch-Grows d p s.ivs v q h

pub note_reg-Covered : (fp : Bool) (p v : ℕ) (s : Live) → Covered v p (note_reg fp p (pos v) s).ivs
unfolding note_reg
note_reg-Covered true p v s =
    mark_spill-Grows (pos v) (touch (pos v) p s.ivs) v p (touch-Covered v p s.ivs)
note_reg-Covered false p v s = touch-Covered v p s.ivs
