-- ===== src/Opt/Dce/Marks.antt =====
-- On `mark_uses`, src/backend/opt.c.
use mathlib.Core.List.{foldl}
use mini_asm.Base.{
  ℕ, zero, suc, ◌<◌, ◌≡◌, refl, Bool, true, false, ◌||◌, List, [], ◌∷◌, arith, length, get_or,
  length-set, get_or-set_self, get_or-set_ne, any_in, replicate, length-replicate, get_or-replicate,
  sym, ap, ◌∙◌,
}
use mini_asm.Base.Int.{pos, negsuc}
use mini_asm.Ir.{Operand, vreg, Block}
use mini_asm.Ir.Regs.{is_arg, instr_uses, block_uses, uses}
use mini_asm.Opt.Dce.{Flags, mark_arg, mark_instr, mark_uses, used_flags}

-- A step that adds the flags of `hit`.
record Adds {A : Type 0} (step : Flags → A → Flags) (hit : ℕ → A → Bool) : Type 0 where
  size : (u : Flags) (a : A) → length (step u a) ≡ length u
  flag :
      (u : Flags) (a : A) (v : ℕ)
      → v < length u
      → get_or (step u a) v false ≡ (get_or u v false || hit v a)

or_assoc : (a b c : Bool) → ((a || b) || c) ≡ (a || (b || c))
or_assoc true b c = refl
or_assoc false b c = refl

or_false : (a : Bool) → (a || false) ≡ a
or_false true = refl
or_false false = refl

module _ {A : Type 0} (step : Flags → A → Flags) (hit : ℕ → A → Bool) (adds : Adds step hit) where
  open adds use {size, flag}

  foldl-size : (xs : List A) (u : Flags) → length (foldl step u xs) ≡ length u
  foldl-size [] u = refl
  foldl-size (x ∷ xs) u = foldl-size xs (step u x) ∙ size u x

  foldl-flag :
      (xs : List A) (u : Flags) (v : ℕ)
      → v < length u
      → get_or (foldl step u xs) v false ≡ (get_or u v false || any_in (hit v) xs)
  foldl-flag [] u v h = sym (or_false _)
  foldl-flag (x ∷ xs) u v h =
      foldl-flag xs (step u x) v (omega (arith, size u x))
      ∙ ap (λ b. b || any_in (hit v) xs) (flag u x v h)
      ∙ or_assoc (get_or u v false) (hit v x) (any_in (hit v) xs)

  foldl-Adds : Adds (foldl step) (λ v xs. any_in (hit v) xs)
  foldl-Adds = record { size = λ u xs. foldl-size xs u; flag = λ u xs v h. foldl-flag xs u v h }

mark_arg-size : (u : Flags) (o : Operand) → length (mark_arg u o) ≡ length u
unfolding mark_arg
mark_arg-size u (vreg (pos w)) = ground (arith, length-set u w true)
mark_arg-size u (vreg (negsuc w)) = refl
mark_arg-size u _ = refl

mark_arg-flag :
    (u : Flags) (o : Operand) (v : ℕ)
    → v < length u
    → get_or (mark_arg u o) v false ≡ (get_or u v false || is_arg v o)
unfolding mark_arg
mark_arg-flag u (vreg (pos w)) v h =
    ground (arith, get_or-set_self u w true false, get_or-set_ne u w v true false)
mark_arg-flag u (vreg (negsuc w)) v h = sym (or_false _)
mark_arg-flag u _ v h = sym (or_false _)

mark_instr-Adds : Adds mark_instr instr_uses
unfolding mark_instr
mark_instr-Adds =
    let args = foldl-Adds mark_arg is_arg (record { size = mark_arg-size; flag = mark_arg-flag }) in
    record { size = λ u i. args.size u i.args; flag = λ u i v h. args.flag u i.args v h }

mark_block-Adds : Adds (λ u (b : Block). foldl mark_instr u b.instrs) block_uses
mark_block-Adds =
    let instrs = foldl-Adds mark_instr instr_uses mark_instr-Adds in
    record { size = λ u b. instrs.size u b.instrs; flag = λ u b v h. instrs.flag u b.instrs v h }

-- The flag of a register in range is set exactly if some instruction reads the register.
pub get_or-used_flags :
    (n : ℕ) (bs : List Block) (v : ℕ) → v < n → get_or (used_flags n bs) v false ≡ uses v bs
unfolding used_flags mark_uses
get_or-used_flags n bs v h =
    let blocks =
      foldl-Adds (λ u (b : Block). foldl mark_instr u b.instrs) block_uses mark_block-Adds in
    blocks.flag (replicate n false) bs v (omega (arith, length-replicate n false))
    ∙ ap (λ b. b || uses v bs) (get_or-replicate n v false)

length-used_flags : (n : ℕ) (bs : List Block) → length (used_flags n bs) ≡ n
unfolding used_flags mark_uses
length-used_flags n bs =
    let blocks =
      foldl-Adds (λ u (b : Block). foldl mark_instr u b.instrs) block_uses mark_block-Adds in
    blocks.size (replicate n false) bs ∙ length-replicate n false

lt-length_of_get_or : (u : Flags) (v : ℕ) → get_or u v false ≡ true → v < length u
lt-length_of_get_or [] v h = cc
lt-length_of_get_or (b ∷ u) zero h = omega arith
lt-length_of_get_or (b ∷ u) (suc v) h = omega (arith, lt-length_of_get_or u v h)

-- A flag is set only for a register that is read.
pub used_flags-uses :
    (n : ℕ) (bs : List Block) (v : ℕ) → get_or (used_flags n bs) v false ≡ true → uses v bs ≡ true
used_flags-uses n bs v h =
    let lt = lt-length_of_get_or (used_flags n bs) v h in
    sym (get_or-used_flags n bs v (omega (arith, length-used_flags n bs))) ∙ h
