-- ===== src/Regalloc/Scan/Lookup.antt =====
-- On the searches of the linear scan, src/backend/regalloc.c: an interval, a free register, a victim.
use mini_asm.Base.{
  ℕ, zero, suc, ◌+◌, ◌≤◌, ◌<◌, ◌≡◌, refl, ap, sym, true, false, List, [], ◌∷◌, map, Option, none,
  some, arith, leb, ◌&&◌, if◌then◌else◌, length, get_or, Bool-cases, and_parts, inl, inr, leb→le,
}
use mini_asm.Base.Int.{ℤ, pos, negsuc, ltb_ℤ, eq_ℤ, eq_ℤ_iff, ◌≤ℤ◌}
use mini_asm.Regalloc.Intervals.{Interval, find_iv}
use mini_asm.Regalloc.Scan.{free, index_iv, first_free, Victim, worse, find_victim}

abbrev pub no_iv : Interval
no_iv = record {
  reg = free;
  start = pos 0;
  end = negsuc 0;
  crosses_call = false;
  force_spill = false;
}

abbrev pub iv_at : List Interval → ℕ → Interval
iv_at ivs i = get_or ivs i no_iv

pub ltb_ℤ-le_trans : (a b c : ℤ) → ltb_ℤ a b ≡ true → b ≤ℤ c → ltb_ℤ a c ≡ true
ltb_ℤ-le_trans a b c h k = ground arith

-- Both searches stop at one interval of the register.
pub index_iv-at :
    (ivs : List Interval) (i : ℕ)
    → i < length ivs
    → (j : ℕ) × (index_iv ivs (iv_at ivs i).reg ≡ some j)
      × (j < length ivs)
      × (find_iv ivs (iv_at ivs i).reg ≡ some (iv_at ivs j))
      × ((iv_at ivs j).reg ≡ (iv_at ivs i).reg)
unfolding index_iv find_iv
index_iv-at [] i h = absurd (omega arith)
index_iv-at (x ∷ xs) zero h =
    let e = (eq_ℤ_iff x.reg x.reg).1 refl in (0, rw e refl, omega arith, rw e refl, refl)
index_iv-at (x ∷ xs) (suc i) h = elim (Bool-cases (eq_ℤ x.reg (iv_at xs i).reg)) [
  | inl e ↦ (0, rw e refl, omega arith, rw e refl, (eq_ℤ_iff x.reg (iv_at xs i).reg).0 e)
  | inr e ↦
      let (j, a, b, c, d) = index_iv-at xs i (omega arith) in
      (suc j, rw (e, a) refl, omega arith, rw e c, d)
]

pub first_free-some :
    (lo r : ℕ) (vs : List ℤ) (n : ℕ)
    → first_free lo r vs ≡ some n
    → (lo ≤ n) × (m : ℕ) × (n ≡ r + m) × (m < length vs) × (get_or vs m free ≡ free)
unfolding first_free
first_free-some lo r [] n h = cc
first_free-some lo r (v ∷ vs) n h = elim (Bool-cases (leb lo r && eq_ℤ v free)) [
  | inl e ↦
      let (p, q) = and_parts _ _ e in
      let same : some r ≡ some n = rw e at h in
      let there : r ≡ n = cc in
      (omega (arith, leb→le lo r p), 0, omega arith, omega arith, (eq_ℤ_iff v free).0 q)
  | inr e ↦
      let (a, m, b, c, d) = first_free-some lo (suc r) vs n (rw e at h) in
      (a, suc m, omega (arith, b), omega (arith, c), d)
]

-- A choice of a victim lies in the pool.
abbrev pub IsFrom : ℕ → ℕ → Option ℕ → Type 0
IsFrom lo r none = Unit
IsFrom lo r (some n) = (lo ≤ n) × (n < r)

worse-IsFrom :
    (lo r : ℕ) (h : Option Interval) (best : Victim)
    → lo ≤ r
    → IsFrom lo (suc r) best.victim
    → IsFrom lo (suc r) (worse r h best).victim
worse-IsFrom lo r none best p k = k
worse-IsFrom lo r (some h) best p k = elim (Bool-cases (ltb_ℤ best.victim_end h.end)) [
  | inl e ↦ rw e (p, omega arith)
  | inr e ↦ rw e k
]

IsFrom-suc : (lo r : ℕ) (o : Option ℕ) → IsFrom lo r o → IsFrom lo (suc r) o
IsFrom-suc lo r none h = tt
IsFrom-suc lo r (some n) h = (h.0, omega (arith, h.1))

find_victim-go :
    (ivs : List Interval) (lo r : ℕ) (vs : List ℤ) (best : Victim) (n : ℕ)
    → r + length vs ≡ n
    → IsFrom lo r best.victim
    → IsFrom lo n (find_victim ivs lo r vs best).victim
unfolding find_victim
find_victim-go ivs lo r [] best n e h = let same : r ≡ n = omega arith in rw (← same) h
find_victim-go ivs lo r (v ∷ vs) best n e h =
    find_victim-go ivs lo (suc r) vs (if leb lo r then worse r (find_iv ivs v) best else best) n
      (omega arith)
      (elim (Bool-cases (leb lo r)) [
        | inl t ↦
            rw t (
              worse-IsFrom lo r (find_iv ivs v) best (leb→le lo r t)
                (IsFrom-suc lo r best.victim h))
        | inr t ↦ rw t (IsFrom-suc lo r best.victim h)
      ])

pub find_victim-IsFrom :
    (ivs : List Interval) (lo : ℕ) (vs : List ℤ) (best : Victim)
    → best.victim ≡ none
    → IsFrom lo (length vs) (find_victim ivs lo 0 vs best).victim
find_victim-IsFrom ivs lo vs best h =
    find_victim-go ivs lo 0 vs best (length vs) (omega arith) (rw h tt)

pub get_or-map_fixed :
    (f : ℤ → ℤ) (xs : List ℤ) (i : ℕ) (d : ℤ) → f d ≡ d → get_or (map f xs) i d ≡ f (get_or xs i d)
get_or-map_fixed f [] i d h = sym h
get_or-map_fixed f (x ∷ xs) zero d h = refl
get_or-map_fixed f (x ∷ xs) (suc i) d h = get_or-map_fixed f xs i d h

pub length-map : (f : ℤ → ℤ) (xs : List ℤ) → length (map f xs) ≡ length xs
length-map f [] = refl
length-map f (x ∷ xs) = ap suc (length-map f xs)
