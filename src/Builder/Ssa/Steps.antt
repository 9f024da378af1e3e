-- ===== src/Builder/Ssa/Steps.antt =====
-- src/ir/ir_builder.c: the steps of the builder keep the definitions single, succeed with a block to write to,
-- and an emission without one crashes.
use mini_asm.Base.{
  ℕ, zero, suc, ◌+◌, ◌≤◌, ◌≡◌, refl, ap, List, [], ◌∷◌, ◌++◌, Option, none, some, length, get_elem?,
  set, update_at, if◌then◌else◌, arith, some_inj, Option-cases, inl, inr,
}
use mini_asm.Base.Int.{ℤ, pos, eq_ℤ}
use mini_asm.Ir.{Opcode, fp_imm, Instr, Block, Module}
use mini_asm.Ir.Build.{ir_emit}
use mini_asm.Ir.FpTable.{ir_fpimm_add}
use mini_asm.Builder.State.{
  IrValue, reg_val, int_val, fp_val, IrBuilder, Build, ◌>>=◌, ret, block_at, put_block, current,
  emit, edit, new_vreg_val, emit_def, put_operand, add_imm, set_arg,
}
use mini_asm.Builder.Ssa.{
  defines, defs_instrs, allowed, IsSsa, defs_instrs-append, current_parts, replace_block,
}

-- There is a block to write to.
abbrev pub HasBlock : IrBuilder → Type 0
HasBlock b = (p : ℕ × ℕ) × (blk : Block) × (current b ≡ some (p, blk))

-- A step that succeeds, keeps the definitions single and leaves a block to write to.
abbrev pub Done : {A : Type 0} → Build A → IrBuilder → Type 0
Done {A} m b =
    (a : A) × (b' : IrBuilder) × (m b ≡ some (a, b')) × (IsSsa b → IsSsa b') × HasBlock b'

abbrev pub Goes : {A : Type 0} → Build A → Type 0
Goes m = (b : IrBuilder) → HasBlock b → Done m b

-- An emission: it goes with a block and crashes without.
abbrev pub Emits : {A : Type 0} → Build A → Type 0
Emits m = Goes m × ((b : IrBuilder) → current b ≡ none → m b ≡ none)

pub ret-Goes : {A : Type 0} (a : A) → Goes (ret a)
ret-Goes a b h = (a, b, refl, (λ s. s), h)

pub bind-Goes :
    {A B : Type 0} (m : Build A) (f : A → Build B)
    → Goes m
    → ((a : A) → Goes (f a))
    → Goes (m >>= f)
bind-Goes m f g k b h =
    let (a, b1, e, s, h1) = g b h in
    let (c, b2, e2, s2, h2) = k a b1 h1 in (c, b2, rw (◌>>=◌, e) e2, (λ x. s2 (s x)), h2)

pub bind-Emits :
    {A B : Type 0} (m : Build A) (f : A → Build B)
    → Emits m
    → ((a : A) → Goes (f a))
    → Emits (m >>= f)
bind-Emits m f g k = (bind-Goes m f g.0 k, (λ b e. rw (◌>>=◌, g.1 b e)))

get_elem?-update :
    {A : Type 0} (xs : List A) (i : ℕ) (x : A) (g : A → A)
    → get_elem? xs i ≡ some x
    → get_elem? (update_at xs i g) i ≡ some (g x)
get_elem?-update [] i x g e = cc
get_elem?-update (y ∷ ys) zero x g e = ap (λ z. some (g z)) (some_inj.0 e)
get_elem?-update (y ∷ ys) (suc i) x g e = get_elem?-update ys i x g e

get_elem?-set :
    {A : Type 0} (xs : List A) (i : ℕ) (x y : A)
    → get_elem? xs i ≡ some x
    → get_elem? (set xs i y) i ≡ some y
get_elem?-set [] i x y e = cc
get_elem?-set (z ∷ zs) zero x y e = refl
get_elem?-set (z ∷ zs) (suc i) x y e = get_elem?-set zs i x y e

block_at-put :
    (m : Module) (p : ℕ × ℕ) (blk blk' : Block)
    → block_at m p ≡ some blk
    → block_at (put_block m p blk') p ≡ some blk'
block_at-put m p blk blk' e = elim (Option-cases (get_elem? m.funcs p.0)) [
  | inl n ↦ absurd (cc (rw (block_at, n) at e))
  | inr (f, h) ↦
      rw
        (
          block_at,
          get_elem?-update m.funcs p.0 f (λ fn. record fn { blocks = set (fn.blocks) p.1 blk' }) h,
        )
        (get_elem?-set f.blocks p.1 blk blk' (rw (block_at, h) at e))
]

-- The block after it was replaced.
pub current-put :
    (b : IrBuilder) (p : ℕ × ℕ) (blk blk' : Block)
    → current b ≡ some (p, blk)
    → current (record b { m = put_block b.m p blk' }) ≡ some (p, blk')
current-put b p blk blk' e =
    let (c, k) = current_parts b p blk e in rw (current, c, block_at-put b.m p blk blk' k)

-- A step that replaces the block by one with as many definitions.
replace_Done :
    {A : Type 0} (m : Build A) (a : A) (b : IrBuilder) (p : ℕ × ℕ) (blk blk' : Block)
    → current b ≡ some (p, blk)
    → m b ≡ some (a, record b { m = put_block b.m p blk' })
    → ((v : ℕ) → defs_instrs v blk'.instrs ≡ defs_instrs v blk.instrs)
    → Done m b
replace_Done m a b p blk blk' c e same = (
  a,
  record b { m = put_block b.m p blk' },
  e,
  replace_block b p blk blk' b.next_vreg b.next_vreg c (omega arith) (λ v. omega (arith, same v)),
  (p, blk', current-put b p blk blk' c),
)

defs_instrs-update :
    (v : ℕ) (is : List Instr) (ix : ℕ) (g : Instr → Instr)
    → ((i : Instr) → (g i).dst ≡ i.dst)
    → defs_instrs v (update_at is ix g) ≡ defs_instrs v is
defs_instrs-update v [] ix g h = refl
defs_instrs-update v (i ∷ is) zero g h =
    ap (λ d. (if eq_ℤ d (pos v) then 1 else 0) + defs_instrs v is) (h i)
defs_instrs-update v (i ∷ is) (suc ix) g h =
    ap (λ n. defines v i + n) (defs_instrs-update v is ix g h)

-- A write that leaves `dst`.
pub edit-Goes : (ix : ℕ) (g : Instr → Instr) → ((i : Instr) → (g i).dst ≡ i.dst) → Goes (edit ix g)
unfolding edit
edit-Goes ix g h b (p, blk, c) =
    replace_Done (edit ix g) tt b p blk (record blk { instrs = update_at blk.instrs ix g }) c
      (rw (edit, c)) (λ v. defs_instrs-update v blk.instrs ix g h)

pub emit-Emits : (o : Opcode) (t : ℕ) (a0 a1 a2 a3 : ℤ) (n : ℕ) → Emits (emit o t a0 a1 a2 a3 n)
unfolding emit ir_emit
emit-Emits o t a0 a1 a2 a3 n = (
  (λ b (p, blk, c).
      replace_Done (emit o t a0 a1 a2 a3 n) (length blk.instrs) b p blk
        (ir_emit blk o t a0 a1 a2 a3 n).0 c (rw (emit, c))
        (λ v. omega (arith, defs_instrs-append v blk.instrs _))),
  (λ b e. rw (emit, e)),
)

update_at-last :
    {A : Type 0} (xs : List A) (y : A) (g : A → A)
    → update_at (xs ++ y ∷ []) (length xs) g ≡ xs ++ g y ∷ []
update_at-last [] y g = refl
update_at-last (x ∷ xs) y g = ap (λ ys. x ∷ ys) (update_at-last xs y g)

one_more :
    (v k d : ℕ)
    → d + ((if eq_ℤ (pos k) (pos v) then 1 else 0) + 0) + allowed v k ≤ d + allowed v (k + 1)
one_more v k d = ground arith

-- The block that an emission leaves, and the block with the result's register in it.
module _ (o : Opcode) (t : ℕ) (a0 a1 a2 a3 : ℤ) (n : ℕ) where
  abbrev emitted : Block → Block
  unfolding ir_emit
  emitted blk = (ir_emit blk o t a0 a1 a2 a3 n).0

  abbrev with_result : ℕ → Block → Block
  with_result v blk = record (emitted blk) {
    instrs =
        update_at (emitted blk).instrs (length blk.instrs)
          (λ (e : Instr). record e { dst = pos v });
  }

  emitted-defs :
      (v : ℕ) (blk : Block) → defs_instrs v (emitted blk).instrs ≡ defs_instrs v blk.instrs
  unfolding ir_emit
  emitted-defs v blk = omega (arith, defs_instrs-append v blk.instrs _)

  with_result-defs :
      (v k : ℕ) (blk : Block)
      → defs_instrs v (with_result k blk).instrs + allowed v k
        ≤ defs_instrs v (emitted blk).instrs + allowed v (k + 1)
  unfolding ir_emit
  with_result-defs v k blk =
      rw
        (
          emitted-defs v blk,
          update_at-last blk.instrs _ (λ (e : Instr). record e { dst = pos k }),
          defs_instrs-append v blk.instrs _,
        )
        (one_more v k (defs_instrs v blk.instrs))

  pub emit_def-Emits : Emits (emit_def o t a0 a1 a2 a3 n)
  unfolding emit_def emit ir_emit new_vreg_val edit
  emit_def-Emits = (
    (λ b (p, blk, c).
        let k = b.next_vreg in
        let b2 : IrBuilder = record b { m = put_block b.m p (emitted blk); next_vreg = k + 1 } in
        let c2 : current b2 ≡ some (p, emitted blk) = current-put b p blk (emitted blk) c in
        (
          (length blk.instrs, reg_val k 0),
          record b2 { m = put_block b2.m p (with_result k blk) },
          rw (◌>>=◌, emit, c, new_vreg_val, edit, c2),
          (λ s.
              replace_block b2 p (emitted blk) (with_result k blk) k (k + 1) c2 (omega arith)
                (λ v. with_result-defs v k blk)
                (replace_block b p blk (emitted blk) k k c (omega arith)
                  (λ v. omega (arith, emitted-defs v blk)) s)),
          (p, with_result k blk, current-put b2 p (emitted blk) (with_result k blk) c2),
        )),
    (λ b e. rw (◌>>=◌, emit, e)),
  )

pub set_arg-Goes : (ix i : ℕ) (o : Option IrValue) → Goes (set_arg ix i o)
unfolding set_arg add_imm ir_fpimm_add
set_arg-Goes ix i none = edit-Goes ix _ (λ e. refl)
set_arg-Goes ix i (some (reg_val v t)) = edit-Goes ix _ (λ e. refl)
set_arg-Goes ix i (some (int_val z t)) = edit-Goes ix _ (λ e. refl)
set_arg-Goes ix i (some (fp_val d t)) =
    bind-Goes (add_imm d) _ (λ b h. (_, _, refl, (λ s. s), h))
      (λ k. edit-Goes ix (put_operand i (fp_imm (pos k))) (λ e. refl))
