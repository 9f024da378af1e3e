-- ===== src/Builder/Alias/Define.antt =====
-- src/ir/ir_builder.c: `ir_value_define` against `resolve_vreg`.
use mini_asm.Base.{
  ℕ, zero, suc, ◌+◌, ◌*◌, ◌-◌, ◌<◌, ◌≡◌, ◌≢◌, refl, ap, ◌∙◌, some, true, false, List, [], ◌∷◌, ◌++◌,
  length, get_or, update_at, replicate, leb, ltb, length-append, length-replicate, get_or-replicate,
  Bool-cases, inl, inr, arith,
}
use mini_asm.Base.Int.{ℤ, pos, to_i64, ltb_ℤ}
use mini_asm.Builder.State.{
  IrValue, reg_val, int_val, fp_val, value_vreg, Cell, unknown_cell, IrBuilder,
}
use mini_asm.Builder.Alias.{
  Resolved, to_vreg, constant_of, to_imm, to_fp, cell_of, grow_cap, alias_grow, defined_cell,
  define_reg, resolve_from, resolve_vreg, ir_value_define,
}

grow_cap-lt : (fuel size v : ℕ) → size ≢ 0 → v < size + fuel → v < grow_cap fuel size v
unfolding grow_cap
grow_cap-lt zero size v h k = omega arith
grow_cap-lt (suc fuel) size v h k = elim (Bool-cases (leb size v)) [
  | inl t ↦ rw (grow_cap, t) (grow_cap-lt fuel (size * 2) v (λ e. h (omega arith)) (omega arith))
  | inr f ↦ rw (grow_cap, f) (ground arith)
]

-- The arrays are long enough for the register.
alias_grow-lt : (v : ℕ) (cs : List Cell) → length cs ≢ 0 → v < length (alias_grow v cs)
unfolding alias_grow
alias_grow-lt v cs h = omega (
  arith,
  grow_cap-lt (suc v) (length cs) v h (omega arith),
  length-append cs (replicate (grow_cap (suc v) (length cs) v - length cs) unknown_cell),
  length-replicate (grow_cap (suc v) (length cs) v - length cs) unknown_cell,
)

get_or-pad :
    {A : Type 0} (xs : List A) (n i : ℕ) (d : A) → get_or (xs ++ replicate n d) i d ≡ get_or xs i d
get_or-pad [] n i d = get_or-replicate n i d
get_or-pad (x ∷ xs) n zero d = refl
get_or-pad (x ∷ xs) n (suc i) d = get_or-pad xs n i d

get_or-update_self :
    {A : Type 0} (xs : List A) (i : ℕ) (g : A → A) (d : A)
    → i < length xs
    → get_or (update_at xs i g) i d ≡ g (get_or xs i d)
get_or-update_self [] i g d h = absurd (omega arith)
get_or-update_self (x ∷ xs) zero g d h = refl
get_or-update_self (x ∷ xs) (suc i) g d h = get_or-update_self xs i g d (omega arith)

get_or-update_ne :
    {A : Type 0} (xs : List A) (i j : ℕ) (g : A → A) (d : A)
    → j ≢ i
    → get_or (update_at xs i g) j d ≡ get_or xs j d
get_or-update_ne [] i j g d h = refl
get_or-update_ne (x ∷ xs) zero zero g d h = absurd (h refl)
get_or-update_ne (x ∷ xs) zero (suc j) g d h = refl
get_or-update_ne (x ∷ xs) (suc i) zero g d h = refl
get_or-update_ne (x ∷ xs) (suc i) (suc j) g d h = get_or-update_ne xs i j g d (λ e. h (ap suc e))

define_reg_self :
    (v : ℕ) (a : IrValue) (cs : List Cell)
    → length cs ≢ 0
    → cell_of (define_reg v a cs) (pos v) ≡ defined_cell (cell_of cs (pos v)) a
unfolding define_reg alias_grow
define_reg_self v a cs h =
    get_or-update_self (alias_grow v cs) v (λ c. defined_cell c a) unknown_cell
      (alias_grow-lt v cs h)
    ∙ ap (λ c. defined_cell c a) (get_or-pad cs _ v unknown_cell)

define_reg_other :
    (v w : ℕ) (a : IrValue) (cs : List Cell)
    → w ≢ v
    → cell_of (define_reg v a cs) (pos w) ≡ cell_of cs (pos w)
unfolding define_reg alias_grow
define_reg_other v w a cs h =
    get_or-update_ne (alias_grow v cs) v w (λ c. defined_cell c a) unknown_cell h
    ∙ get_or-pad cs _ w unknown_cell

-- What a value stands for, with one hop less.
abbrev pub value_of : List Cell → IrValue → Resolved
value_of cs (reg_val w t) = resolve_from 31 cs (pos w)
value_of cs (int_val i t) = to_imm i
value_of cs (fp_val d t) = to_fp (to_i64 d)

-- One round of the loop, at a given cell.
resolve_from-step :
    (k : ℕ) (cs : List Cell) (v : ℤ) (c : Cell)
    → cell_of cs v ≡ c
    → resolve_from (suc k) cs v ≡ elim c.known [
      | false ↦ to_vreg v
      | true ↦ elim (ltb_ℤ c.to (pos 0)) [ true ↦ constant_of c | false ↦ resolve_from k cs (c.to) ]
    ]
unfolding resolve_from
resolve_from-step k cs v c e =
    ap
      (λ (x : Cell). elim x.known [
        | false ↦ to_vreg v
        | true ↦ elim (ltb_ℤ (x.to) (pos 0)) [
          | true ↦ constant_of x
          | false ↦ resolve_from k cs (x.to)
        ]
      ])
      e

none_below : (w : ℕ) → ltb w 0 ≡ false
none_below w = ground arith

define_reg-resolves :
    (v : ℕ) (a : IrValue) (cs : List Cell)
    → length cs ≢ 0
    → resolve_vreg (define_reg v a cs) (pos v) ≡ value_of (define_reg v a cs) a
unfolding resolve_vreg defined_cell
define_reg-resolves v (reg_val w t) cs h =
    resolve_from-step 31 _ (pos v) _ (define_reg_self v (reg_val w t) cs h) ∙ rw (none_below w)
define_reg-resolves v (int_val i t) cs h =
    resolve_from-step 31 _ (pos v) _ (define_reg_self v (int_val i t) cs h)
define_reg-resolves v (fp_val d t) cs h =
    resolve_from-step 31 _ (pos v) _ (define_reg_self v (fp_val d t) cs h)

-- With arrays that are not empty, a placeholder that was just defined resolves to the constant that it
-- was defined as, or to what the register it was defined as leads to in 31 hops; the entries of other
-- registers stay, whatever the arrays' length is.
pub ir_value_define_lem :
    (p a : IrValue) (b : IrBuilder)
    → length b.aliases ≢ 0
    → (b' : IrBuilder) × (ir_value_define (some p) (some a) b ≡ some (tt, b'))
      × (resolve_vreg b'.aliases (pos (value_vreg p)) ≡ value_of b'.aliases a)
      × ((w : ℕ) → w ≢ value_vreg p → cell_of b'.aliases (pos w) ≡ cell_of b.aliases (pos w))
unfolding ir_value_define
ir_value_define_lem p a b h = (
  record b { aliases = define_reg (value_vreg p) a b.aliases },
  refl,
  define_reg-resolves (value_vreg p) a b.aliases h,
  (λ w n. define_reg_other (value_vreg p) w a b.aliases n),
)
