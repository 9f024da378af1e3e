-- ===== src/Builder/Alias/Leads.antt =====
-- src/ir/ir_builder.c, `resolve_vreg`: what a register stands for, by the links between placeholders.
use mini_asm.Base.{
  ℕ, zero, suc, ◌<◌, ◌≡◌, sym, ◌∙◌, true, false, List, arith, Bool-cases, ◌↔◌, ◌+◌, inl, inr,
}
use mathlib.Core.Path.{subst}
use mini_asm.Base.Int.{ℤ, pos, ltb_ℤ}
use mini_asm.Builder.State.{Cell}
use mini_asm.Builder.Alias.{
  Resolved, to_vreg, to_imm, to_fp, cell_of, constant_of, resolve_from, resolve_vreg,
}

-- A register leads to a result in a number of hops: to itself if it is no defined placeholder, to the constant
-- that it was defined as, or where the register leads that it was defined as.
pub data Leads (cs : List Cell) : ℤ → Resolved → ℕ → Type 0 where
  stays : {v : ℤ} → (cell_of cs v).known ≡ false → Leads cs v (to_vreg v) 0
  ends :
      {v : ℤ}
      → (cell_of cs v).known ≡ true
      → ltb_ℤ ((cell_of cs v).to) (pos 0) ≡ true
      → Leads cs v (constant_of (cell_of cs v)) 0
  hops :
      {v : ℤ} {r : Resolved} {n : ℕ}
      → (cell_of cs v).known ≡ true
      → ltb_ℤ ((cell_of cs v).to) (pos 0) ≡ false
      → Leads cs ((cell_of cs v).to) r n
      → Leads cs v r (suc n)

pub resolve_from-Leads :
    (cs : List Cell) (k : ℕ) (v : ℤ) (r : Resolved) (n : ℕ)
    → n < k
    → Leads cs v r n
    → resolve_from k cs v ≡ r
unfolding resolve_from
resolve_from-Leads cs zero v r n h l = absurd (omega arith)
resolve_from-Leads cs (suc k) v _ _ h (stays e) = rw (resolve_from, e)
resolve_from-Leads cs (suc k) v _ _ h (ends e c) = rw (resolve_from, e, c)
resolve_from-Leads cs (suc k) v r (suc n) h (hops e c l) =
    rw (resolve_from, e, c) (resolve_from-Leads cs k ((cell_of cs v).to) r n (omega arith) l)

-- A register leads to one result.
pub Leads-unique :
    (cs : List Cell) (v : ℤ) (r s : Resolved) (n k : ℕ) → Leads cs v r n → Leads cs v s k → r ≡ s
Leads-unique cs v r s n k a b =
    sym (resolve_from-Leads cs (n + k + 1) v r n (omega arith) a)
    ∙ resolve_from-Leads cs (n + k + 1) v s k (omega arith) b

-- It leads somewhere in fewer than 32 hops.
abbrev pub IsSettled : List Cell → ℤ → Type 0
IsSettled cs v = (r : Resolved) × (n : ℕ) × (n < 32) × Leads cs v r n

-- A register that leads to a result by fewer than 32 links between placeholders is resolved to that
-- result and to nothing else.
pub resolve_vreg_iff :
    (cs : List Cell) (v : ℤ) (r : Resolved)
    → IsSettled cs v
    → (resolve_vreg cs v ≡ r) ↔ ((n : ℕ) × Leads cs v r n)
unfolding resolve_vreg
resolve_vreg_iff cs v r (s, n, h, l) =
    let found : resolve_vreg cs v ≡ s = resolve_from-Leads cs 32 v s n h l in
    (
      (λ e. (n, subst (λ x. Leads cs v x n) (sym found ∙ e) l)),
      (λ (k, m). found ∙ Leads-unique cs v s r n k l m),
    )

-- A register at the end is no defined placeholder.
abbrev pub IsPlain : List Cell → Resolved → Type 0
IsPlain cs (to_vreg w) = (cell_of cs w).known ≡ false
IsPlain cs (to_imm c) = Unit
IsPlain cs (to_fp c) = Unit

constant_of-IsPlain : (cs : List Cell) (c : Cell) → IsPlain cs (constant_of c)
constant_of-IsPlain cs c = elim (Bool-cases c.is_fp) [ inl t ↦ rw t tt | inr f ↦ rw f tt ]

pub Leads-IsPlain : (cs : List Cell) (v : ℤ) (r : Resolved) (n : ℕ) → Leads cs v r n → IsPlain cs r
Leads-IsPlain cs v _ _ (stays e) = e
Leads-IsPlain cs v _ _ (ends e c) = constant_of-IsPlain cs (cell_of cs v)
Leads-IsPlain cs v r _ (hops {n = n} e c l) = Leads-IsPlain cs ((cell_of cs v).to) r n l

pub resolve_vreg-IsPlain :
    (cs : List Cell) (v : ℤ) → IsSettled cs v → IsPlain cs (resolve_vreg cs v)
resolve_vreg-IsPlain cs v (s, n, h, l) =
    subst (IsPlain cs) (sym ((resolve_vreg_iff cs v s (s, n, h, l)).1 (n, l)))
      (Leads-IsPlain cs v s n l)

-- A register that is no defined placeholder is resolved to itself.
pub resolve_vreg-plain :
    (cs : List Cell) (v : ℤ) → (cell_of cs v).known ≡ false → resolve_vreg cs v ≡ to_vreg v
resolve_vreg-plain cs v e =
    (resolve_vreg_iff cs v (to_vreg v) (to_vreg v, 0, omega arith, stays e)).1 (0, stays e)
