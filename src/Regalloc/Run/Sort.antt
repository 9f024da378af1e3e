-- ===== src/Regalloc/Run/Sort.antt =====
-- On the sort of the intervals, `cmp_iv`, src/backend/regalloc.c.
use mini_asm.Base.{
  ℕ, zero, suc, ◌<◌, ◌≡◌, ◌≢◌, sym, true, false, List, [], ◌∷◌, length, arith, Bool-cases, inl, inr,
  ◌⊎◌, ltb, ltb→lt, All, AllPairs,
}
use mini_asm.Base.Int.{ℤ, ltb_ℤ, ◌≤ℤ◌}
use mini_asm.Regalloc.Intervals.{Interval}
use mini_asm.Regalloc.Intervals.Keys.{regs, Keyed}
use mini_asm.Regalloc.Scan.{free}
use mini_asm.Regalloc.Scan.Lookup.{iv_at}
use mini_asm.Regalloc.Scan.Invariant.{IsOrdered}
use mini_asm.Regalloc.Run.{insert_iv, sort_intervals}

abbrev Starts : Interval → Interval → Type 0
Starts a b = a.start ≤ℤ b.start

abbrev Differs : Interval → Interval → Type 0
Differs a b = a.reg ≢ b.reg

ltb_ℤ-le : (a b : ℤ) → ltb_ℤ a b ≡ true → a ≤ℤ b
ltb_ℤ-le a b h = ground arith

not_ltb_ℤ-le : (a b : ℤ) → ltb_ℤ a b ≡ false → b ≤ℤ a
not_ltb_ℤ-le a b h = ground arith

insert_iv-All :
    (P : Interval → Type 0) (i : Interval) (xs : List Interval)
    → P i
    → All P xs
    → All P (insert_iv i xs)
unfolding insert_iv
insert_iv-All P i [] p h = (p, tt)
insert_iv-All P i (x ∷ xs) p h = elim (Bool-cases (ltb_ℤ x.start i.start)) [
  | inl e ↦ rw e (h.0, insert_iv-All P i xs p h.1)
  | inr e ↦ rw e (p, h)
]

insert_iv-Differs :
    (i : Interval) (xs : List Interval)
    → All (Differs i) xs
    → AllPairs Differs xs
    → AllPairs Differs (insert_iv i xs)
unfolding insert_iv
insert_iv-Differs i [] p h = (tt, tt)
insert_iv-Differs i (x ∷ xs) p h = elim (Bool-cases (ltb_ℤ x.start i.start)) [
  | inl e ↦
      rw e (insert_iv-All (Differs x) i xs (λ q. p.0 (sym q)) h.0, insert_iv-Differs i xs p.1 h.1)
  | inr e ↦ rw e (p, h)
]

le_trans_All :
    (i x : Interval) (xs : List Interval)
    → i.start ≤ℤ x.start
    → All (Starts x) xs
    → All (Starts i) xs
le_trans_All i x [] l h = tt
le_trans_All i x (y ∷ ys) l h = (omega (arith, h.0), le_trans_All i x ys l h.1)

insert_iv-sorted :
    (i : Interval) (xs : List Interval) → AllPairs Starts xs → AllPairs Starts (insert_iv i xs)
unfolding insert_iv
insert_iv-sorted i [] h = (tt, tt)
insert_iv-sorted i (x ∷ xs) h = elim (Bool-cases (ltb_ℤ x.start i.start)) [
  | inl e ↦
      rw e
        (insert_iv-All (Starts x) i xs (ltb_ℤ-le x.start i.start e) h.0, insert_iv-sorted i xs h.1)
  | inr e ↦
      let first = not_ltb_ℤ-le x.start i.start e in rw e ((first, le_trans_All i x xs first h.0), h)
]

sort_intervals-All :
    (P : Interval → Type 0) (is : List Interval) → All P is → All P (sort_intervals is)
unfolding sort_intervals
sort_intervals-All P [] h = tt
sort_intervals-All P (i ∷ is) h =
    insert_iv-All P i (sort_intervals is) h.0 (sort_intervals-All P is h.1)

sort_intervals-sorted : (is : List Interval) → AllPairs Starts (sort_intervals is)
unfolding sort_intervals
sort_intervals-sorted [] = tt
sort_intervals-sorted (i ∷ is) = insert_iv-sorted i (sort_intervals is) (sort_intervals-sorted is)

sort_intervals-Differs :
    (is : List Interval) → AllPairs Differs is → AllPairs Differs (sort_intervals is)
unfolding sort_intervals
sort_intervals-Differs [] h = tt
sort_intervals-Differs (i ∷ is) h =
    insert_iv-Differs i (sort_intervals is) (sort_intervals-All (Differs i) is h.0)
      (sort_intervals-Differs is h.1)

regs-All :
    (P : ℤ → Type 0) (is : List Interval) → All P (regs is) → All (λ (i : Interval). P i.reg) is
regs-All P [] h = tt
regs-All P (i ∷ is) h = (h.0, regs-All P is h.1)

regs-Differs : (is : List Interval) → AllPairs (λ (a b : ℤ). a ≢ b) (regs is) → AllPairs Differs is
regs-Differs [] h = tt
regs-Differs (i ∷ is) h = (regs-All (λ (b : ℤ). i.reg ≢ b) is h.0, regs-Differs is h.1)

All-at :
    (P : Interval → Type 0) (is : List Interval)
    → All P is
    → (i : ℕ) → i < length is
    → P (iv_at is i)
All-at P [] h i l = absurd (omega arith)
All-at P (x ∷ xs) h zero l = h.0
All-at P (x ∷ xs) h (suc i) l = All-at P xs h.1 i (omega arith)

AllPairs-at :
    (R : Interval → Interval → Type 0) (is : List Interval)
    → AllPairs R is
    → (i j : ℕ) → i < j
    → j < length is
    → R (iv_at is i) (iv_at is j)
AllPairs-at R [] h i j l l' = absurd (omega arith)
AllPairs-at R (x ∷ xs) h zero zero l l' = absurd (omega arith)
AllPairs-at R (x ∷ xs) h zero (suc j) l l' = All-at (R x) xs h.0 j (omega arith)
AllPairs-at R (x ∷ xs) h (suc i) zero l l' = absurd (omega arith)
AllPairs-at R (x ∷ xs) h (suc i) (suc j) l l' = AllPairs-at R xs h.1 i j (omega arith) (omega arith)

order_cases : (i j : ℕ) → (i < j) ⊎ ((i ≡ j) ⊎ (j < i))
order_cases i j = elim (Bool-cases (ltb i j)) [
  | inl e ↦ inl (ltb→lt i j e)
  | inr e ↦ elim (Bool-cases (ltb j i)) [
    | inl e' ↦ inr (inr (ltb→lt j i e'))
    | inr e' ↦ inr (inl (ground arith))
  ]
]

-- Sorting intervals of different registers gives intervals of different registers in the order of their
-- starts.
pub sort_intervals-IsOrdered : (is : List Interval) → Keyed is → IsOrdered (sort_intervals is)
sort_intervals-IsOrdered is h = record {
  distinct = λ i j l l' e. elim (order_cases i j) [
    | inl lt ↦ absurd (AllPairs-at Differs (sort_intervals is) differs i j lt l' e)
    | inr (inl same) ↦ same
    | inr (inr lt) ↦ absurd (AllPairs-at Differs (sort_intervals is) differs j i lt l (sym e))
  ];
  numbered = λ i l.
      All-at (λ x. x.reg ≢ free) (sort_intervals is)
        (sort_intervals-All (λ x. x.reg ≢ free) is (regs-All (λ a. a ≢ free) is h.numbered)) i l;
  sorted = λ i j le l. elim (order_cases i j) [
    | inl lt ↦ AllPairs-at Starts (sort_intervals is) (sort_intervals-sorted is) i j lt l
    | inr (inl same) ↦ rw same (omega arith)
    | inr (inr lt) ↦ absurd (omega arith)
  ];
}
  where
    differs : AllPairs Differs (sort_intervals is)
    differs = sort_intervals-Differs is (regs-Differs is h.distinct)
