-- ===== src/Opt/Fold/Pass.antt =====
-- On one pass of `ir_constfold_func`, src/backend/opt.c: the table of constants and the substitution.
use mini_asm.Base.{
  ℕ, suc, ◌-◌, ◌<◌, ◌≡◌, refl, Bool, true, false, not, ◌&&◌, ◌||◌, Option, none, some, arith, ap,
  ◌∙◌, sym, ◌↔◌, List, [], ◌∷◌, map, Bool-cases, inl, inr, ltb, ◌==◌, if◌then◌else◌, All, length,
  get_or, set, get_or-set_cases,
}
use mini_asm.Base.Int.{
  ℤ, pos, negsuc, u64_mod, to_u64, to_i64, to_int, IsInt, IsInt64, to_int_iff, to_int-IsInt64,
  to_i64-to_u64,
}
use mini_asm.Ir.{Opcode, op_add, op_neg, op_not, Operand, vreg, imm, Instr}
use mini_asm.Ir.Meaning.{
  Regs, operand_value, value, value_known, int_value, unary, Holds, DstHolds, computed, role,
}
use mini_asm.Ir.Rewrite.{args-Holds}
use mini_asm.Opt.Alias.{is_reg}
use mini_asm.Opt.Strength.Sound.{IntImm}
use mini_asm.Opt.Fold.{
  not_ℤ, cons_value, ConstTab, consttab_set, to_imm, subst_operand, imm_values, fold_values,
  fold_known, fold_op, fold_binary, learn, subst_instr, learn_instr, foldable,
}
use mini_asm.Opt.Fold.Words.{neg_word}
use mini_asm.Opt.Fold.Sound.{FoldsTo, is_ext, fold_binary-FoldsTo}

-- Every register holds the 64-bit pattern of an `int`.
abbrev pub IsNarrow : Regs → Type 0
IsNarrow ρ = (v : ℤ) → IsInt (to_i64 (ρ v))

-- The operands that an integer opcode takes.
unfoldable pub arity : Opcode → ℕ
arity op_neg = 1
arity op_not = 1
arity _ = 2

-- Folding looks at the instruction only with the right number of operands, and not at a conversion.
abbrev pub is_regular : Opcode → ℕ → Bool
is_regular op n = not (foldable op) || (not (is_ext op) && n == arity op)

abbrev pub Foldable : Instr → Type 0
Foldable i = (is_regular i.op (length i.args) ≡ true) × All IntImm i.args

-- A known constant is the register's value.
abbrev pub KnownHolds : Regs → ℕ → Option ℤ → Type 0
KnownHolds ρ v none = Unit
KnownHolds ρ v (some z) = (ρ (pos v) ≡ to_u64 z) × IsInt64 z

abbrev pub TabHolds : Regs → ConstTab → Type 0
TabHolds ρ t = (v : ℕ) → KnownHolds ρ v (get_or t v none)

pub to_int-IsInt : (z : ℤ) → IsInt (to_int z)
to_int-IsInt z = ground arith

regular_parts :
    (op : Opcode) (n : ℕ)
    → foldable op ≡ true
    → is_regular op n ≡ true
    → (is_ext op ≡ false) × (n ≡ arity op)
regular_parts op n f r = ground arith

-- A binary opcode on two operands.
fold_two :
    (op : Opcode) (a b : ℤ) (p : ℕ) → 2 ≡ arity op → fold_op op a b p true ≡ fold_binary op a b p
unfolding fold_op arity
fold_two op_neg a b p h = absurd (omega arith)
fold_two op_not a b p h = absurd (omega arith)
fold_two _ a b p h = refl

not_word : (a : ℤ) → IsInt a → (to_u64 (not_ℤ a) ≡ u64_mod - 1 - to_u64 a) × IsInt64 (not_ℤ a)
not_word (pos n) h = ground arith
not_word (negsuc n) h = ground arith

-- A unary opcode on one operand.
fold_one :
    (op : Opcode) (a : ℤ) (p : ℕ)
    → 1 ≡ arity op
    → IsInt a
    → FoldsTo (fold_op op a (pos 0) p true) (unary op (to_u64 a))
unfolding fold_op arity unary
fold_one op_neg a p h k = ground (arith, neg_word a k)
fold_one op_not a p h k = ground (arith, not_word a k)
fold_one _ a p h k = absurd (omega arith)

arity_bounds : (op : Opcode) → (0 < arity op) × (arity op < 3)
unfolding arity
arity_bounds op_neg = omega arith
arity_bounds op_not = omega arith
arity_bounds _ = omega arith

-- What `fold_values` returns is the value of the opcode.
fold_values-FoldsTo :
    (op : Opcode) (p : ℕ) (vs : List ℤ)
    → foldable op ≡ true
    → is_regular op (length vs) ≡ true
    → All IsInt vs
    → FoldsTo (fold_values op p vs) (int_value op p (map to_u64 vs))
unfolding fold_values int_value
fold_values-FoldsTo op p [] f r h =
    absurd (omega (arith, arity_bounds op, (regular_parts op 0 f r).1))
fold_values-FoldsTo op p (a ∷ []) f r h = fold_one op a p (regular_parts op 1 f r).1 h.0
fold_values-FoldsTo op p (a ∷ b ∷ []) f r h =
    let (e, n) = regular_parts op 2 f r in
    rw (fold_two op a b p n) (fold_binary-FoldsTo op a b p e h.0 h.1.0)
fold_values-FoldsTo op p (a ∷ b ∷ c ∷ vs) f r h =
    absurd (omega (arith, arity_bounds op, (regular_parts op (suc (suc (suc (length vs)))) f r).1))

foldable_computed : (op : Opcode) → foldable op ≡ true → role op ≡ computed
unfolding foldable role
foldable_computed op_add h = refl
foldable_computed _ h = cc

module _ (rest : Opcode → ℕ → ℕ → List ℕ → ℕ) (slot : Operand → ℕ) (ρ : Regs) where
  abbrev val : Operand → ℕ
  val = operand_value rest slot ρ

  -- The operands are immediates with these values.
  abbrev ImmOf : List Operand → Option (List ℤ) → Type 0
  ImmOf args none = Unit
  ImmOf args (some vs) = (map val args ≡ map to_u64 vs) × (length vs ≡ length args) × All IsInt vs

  cons_value-ImmOf :
      (c : ℤ) (args : List Operand) (o : Option (List ℤ))
      → IsInt c
      → ImmOf args o
      → ImmOf (imm c ∷ args) (cons_value c o)
  unfolding operand_value
  cons_value-ImmOf c args none k h = tt
  cons_value-ImmOf c args (some vs) k h = (ap (λ ws. to_u64 c ∷ ws) h.0, ap suc h.1, (k, h.2))

  imm_values-ImmOf : (args : List Operand) → All IntImm args → ImmOf args (imm_values args)
  unfolding imm_values
  imm_values-ImmOf [] h = (refl, refl, tt)
  imm_values-ImmOf (imm c ∷ args) h =
      cons_value-ImmOf c args (imm_values args) h.0 (imm_values-ImmOf args h.1)
  imm_values-ImmOf (_ ∷ args) h = tt

  set-TabHolds :
      (t : ConstTab) (d : ℕ) (z : ℤ)
      → TabHolds ρ t
      → KnownHolds ρ d (some z)
      → TabHolds ρ (set t d (some z))
  set-TabHolds t d z s k v = elim (get_or-set_cases t d v (some z) none) [
    | inl e ↦ rw (e.1, ← e.0) k
    | inr e ↦ rw e (s v)
  ]

  learn-TabHolds :
      (t : ConstTab) (d : ℕ) (o : Option ℤ)
      → TabHolds ρ t
      → KnownHolds ρ d o
      → TabHolds ρ (learn t (pos d) o)
  unfolding consttab_set
  learn-TabHolds t d none s k = s
  learn-TabHolds t d (some z) s k = elim (Bool-cases (ltb d (length t))) [
    | inl lt ↦ rw lt (set-TabHolds t d z s k)
    | inr ge ↦ rw ge s
  ]

  -- The folded constant of an instruction on immediates is its register's value.
  folded-KnownHolds :
      (op : Opcode) (type p d : ℕ) (args : List Operand) (o : Option (List ℤ))
      → foldable op ≡ true
      → is_regular op (length args) ≡ true
      → ImmOf args o
      → ρ (pos d) ≡ value rest slot op type p (map val args)
      → KnownHolds ρ d (fold_known op p o)
  folded-KnownHolds op type p d args none f r h e = tt
  folded-KnownHolds op type p d args (some vs) f r h e =
      go (fold_values op p vs) (fold_values-FoldsTo op p vs f (rw h.1 r) h.2)
    where
      go : (z : Option ℤ) → FoldsTo z (int_value op p (map to_u64 vs)) → KnownHolds ρ d z
      go none k = tt
      go (some z) k = (
        e
            ∙ value_known rest slot op type p (map val args) (to_u64 z)
                (ap (int_value op p) h.0 ∙ k.0),
        k.1,
      )

  pub learn_instr-TabHolds :
      (t : ConstTab) (i : Instr)
      → Foldable i
      → Holds rest slot ρ i
      → TabHolds ρ t
      → TabHolds ρ (learn_instr t i)
  unfolding learn_instr
  learn_instr-TabHolds t i p h s = elim (Bool-cases (foldable i.op)) [
    | inl f ↦ rw f (go i.dst f h)
    | inr f ↦ rw f s
  ]
    where
      go :
          (d : ℤ)
          → foldable i.op ≡ true
          → DstHolds rest slot ρ (record i { dst = d }) d
          → TabHolds ρ
              (if is_reg d then learn t d (fold_known i.op i.pred (imm_values i.args)) else t)
      go (negsuc d) f k = s
      go (pos d) f k = learn-TabHolds t d (fold_known i.op i.pred (imm_values i.args)) s (
          folded-KnownHolds i.op i.type i.pred d i.args (imm_values i.args) f p.0
            (imm_values-ImmOf i.args p.1) (rw (foldable_computed i.op f) at k))

  -- The immediate that replaces a register with a known `int64_t` constant has the register's value
  -- exactly if the constant fits an `int`.
  pub to_imm-value_iff :
      (v : ℕ) (z : ℤ)
      → KnownHolds ρ v (some z)
      → (val (to_imm (pos v) (some z)) ≡ ρ (pos v)) ↔ IsInt z
  unfolding operand_value
  to_imm-value_iff v z k = (
    λ e. (to_int_iff z k.1).0 (
        sym (to_i64-to_u64 (to_int z) (to_int-IsInt64 z))
        ∙ ap to_i64 (e ∙ k.0)
        ∙ to_i64-to_u64 z k.1),
    λ fits. ap to_u64 ((to_int_iff z k.1).1 fits) ∙ sym k.0,
  )

  module _ (narrow : IsNarrow ρ) where
    -- A known constant that is an `int` survives the narrowing.
    to_imm-value : (v : ℕ) (o : Option ℤ) → KnownHolds ρ v o → val (to_imm (pos v) o) ≡ ρ (pos v)
    unfolding operand_value
    to_imm-value v none k = refl
    to_imm-value v (some z) k =
        let same : to_i64 (ρ (pos v)) ≡ z = ap to_i64 k.0 ∙ to_i64-to_u64 z k.1 in
        let fits : IsInt z = rw same at (narrow (pos v)) in
        ap to_u64 ((to_int_iff z k.1).1 fits) ∙ sym k.0

    subst_operand-value :
        (t : ConstTab) → TabHolds ρ t → (o : Operand) → val (subst_operand t o) ≡ val o
    unfolding subst_operand operand_value
    subst_operand-value t s (vreg (pos v)) = to_imm-value v (get_or t v none) (s v)
    subst_operand-value t s (vreg (negsuc v)) = refl
    subst_operand-value t s _ = refl

    pub subst_instr-Holds :
        (t : ConstTab) (i : Instr)
        → TabHolds ρ t
        → Holds rest slot ρ i
        → Holds rest slot ρ (subst_instr t i)
    unfolding subst_instr
    subst_instr-Holds t i s h =
        rw (args-Holds rest slot ρ (subst_operand t) (subst_operand-value t s) i) h
