-- ===== src/Builder/Ssa.antt =====
-- src/ir/ir_builder.c: how often the instructions of the current function define a register.
pub mod Steps
pub mod Calls
pub mod Nulls
pub mod Quiet
pub mod Runs
use mini_asm.Base.{
  ℕ, zero, suc, ◌+◌, ◌≤◌, ◌<◌, ◌≡◌, refl, sym, ap, ◌∙◌, List, [], ◌∷◌, ◌++◌, Option, none, some,
  Bool, true, false, ◌==◌, length, get_elem?, set, update_at, ltb, if◌then◌else◌, arith, ◌≢◌, ◌⊎◌,
  inl, inr, eq_cases, some_inj, Option-cases,
}
use mini_asm.Base.Int.{ℤ, pos, negsuc, eq_ℤ}
use mini_asm.Ir.{Instr, Block, Func, Module}
use mini_asm.Builder.State.{IrBuilder, block_at, put_block, current}
use mini_asm.Builder.Alias.{blocks_at}

abbrev pub defines : ℕ → Instr → ℕ
defines v i = if eq_ℤ i.dst (pos v) then 1 else 0

abbrev pub defs_instrs : ℕ → List Instr → ℕ
defs_instrs v [] = 0
defs_instrs v (i ∷ is) = defines v i + defs_instrs v is

-- The number of instructions of the blocks that define a register.
abbrev pub defs : ℕ → List Block → ℕ
defs v [] = 0
defs v (b ∷ bs) = defs_instrs v b.instrs + defs v bs

-- One definition for a register that was handed out, none for another.
abbrev pub allowed : ℕ → ℕ → ℕ
allowed v n = if ltb v n then 1 else 0

-- Where `n` registers were handed out.
abbrev pub IsSsaBelow : ℕ → IrBuilder → Type 0
IsSsaBelow n b =
    (f : ℕ) → b.cur_func ≡ some f → (v : ℕ) → defs v (blocks_at b.m.funcs f) ≤ allowed v n

abbrev pub IsSsa : IrBuilder → Type 0
IsSsa b = IsSsaBelow b.next_vreg b

pub allowed_mono : (v n k : ℕ) → n ≤ k → allowed v n ≤ allowed v k
allowed_mono v n k h = ground arith

pub defs_instrs-append :
    (v : ℕ) (xs ys : List Instr) → defs_instrs v (xs ++ ys) ≡ defs_instrs v xs + defs_instrs v ys
defs_instrs-append v [] ys = omega arith
defs_instrs-append v (x ∷ xs) ys = omega (arith, defs_instrs-append v xs ys)

pub defs-set :
    (v : ℕ) (bs : List Block) (j : ℕ) (blk blk' : Block)
    → get_elem? bs j ≡ some blk
    → defs v (set bs j blk') + defs_instrs v blk.instrs ≡ defs v bs + defs_instrs v blk'.instrs
defs-set v [] j blk blk' e = cc
defs-set v (b ∷ bs) zero blk blk' e =
    omega (arith, ap (λ (x : Block). defs_instrs v x.instrs) (some_inj.0 e))
defs-set v (b ∷ bs) (suc j) blk blk' e = omega (arith, defs-set v bs j blk blk' e)

-- The blocks of a function after one block was replaced: those of the same function with the block
-- replaced, or those of another function.
pub blocks_at-put :
    (fs : List Func) (i j : ℕ) (blk : Block) (f : ℕ)
    → ((i ≡ f)
        × (blocks_at (update_at fs i (λ fn. record fn { blocks = set (fn.blocks) j blk })) f
            ≡ set (blocks_at fs f) j blk))
      ⊎ ((i ≢ f)
          × (blocks_at (update_at fs i (λ fn. record fn { blocks = set (fn.blocks) j blk })) f
              ≡ blocks_at fs f))
blocks_at-put [] i j blk f = elim (eq_cases i f) [ inl e ↦ inl (e, refl) | inr n ↦ inr (n, refl) ]
blocks_at-put (x ∷ fs) zero j blk zero = inl (refl, refl)
blocks_at-put (x ∷ fs) zero j blk (suc f) = inr ((λ e. omega arith), refl)
blocks_at-put (x ∷ fs) (suc i) j blk zero = inr ((λ e. omega arith), refl)
blocks_at-put (x ∷ fs) (suc i) j blk (suc f) = elim (blocks_at-put fs i j blk f) [
  | inl h ↦ inl (ap suc h.0, h.1)
  | inr h ↦ inr ((λ e. h.0 (omega (arith, e))), h.1)
]

-- The parts of `current`.
pub current_parts :
    (b : IrBuilder) (p : ℕ × ℕ) (blk : Block)
    → current b ≡ some (p, blk)
    → (b.cur_block ≡ some p) × (block_at b.m p ≡ some blk)
current_parts b p blk e = elim (Option-cases b.cur_block) [
  | inl n ↦ absurd (cc (rw (n, current) at e))
  | inr (q, h) ↦ elim (Option-cases (block_at b.m q)) [
    | inl n ↦ absurd (cc (rw (h, current, n) at e))
    | inr (c, k) ↦
        let same : (q, c) ≡ (p, blk) = some_inj.0 (rw (h, current, k) at e) in
        (
          h ∙ ap some (ap (λ x. x.0) same),
          ap (block_at b.m) (ap (λ x. x.0) (sym same)) ∙ k ∙ ap some (ap (λ x. x.1) same),
        )
  ]
]

pub block_at-blocks_at :
    (m : Module) (p : ℕ × ℕ) (blk : Block)
    → block_at m p ≡ some blk
    → get_elem? (blocks_at m.funcs p.0) p.1 ≡ some blk
block_at-blocks_at m p blk e = elim (Option-cases (get_elem? m.funcs p.0)) [
  | inl n ↦ absurd (cc (rw (block_at, n) at e))
  | inr (f, h) ↦ rw (blocks_at, h) (rw (block_at, h) at e)
]

pub replace_block :
    (b : IrBuilder) (p : ℕ × ℕ) (blk blk' : Block) (n k : ℕ)
    → current b ≡ some (p, blk)
    → n ≤ k
    → ((v : ℕ) → defs_instrs v blk'.instrs + allowed v n ≤ defs_instrs v blk.instrs + allowed v k)
    → IsSsaBelow n b
    → IsSsaBelow k (record b { m = put_block b.m p blk' })
replace_block b p blk blk' n k c h d s f e v = elim (blocks_at-put b.m.funcs p.0 p.1 blk' f) [
  | inl q ↦ rw q.1 (
      omega (
        arith,
        s f e v,
        d v,
        defs-set v (blocks_at b.m.funcs f) p.1 blk blk' (
            ap (λ x. get_elem? (blocks_at b.m.funcs x) p.1) (sym q.0)
            ∙ block_at-blocks_at b.m p blk (current_parts b p blk c).1),
      ))
  | inr q ↦ rw q.1 (omega (arith, s f e v, allowed_mono v n k h))
]
