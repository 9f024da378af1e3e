-- ===== src/Opt/Dce/Sound.antt =====
-- On what `ir_dce_func`, src/backend/opt.c, leaves of a function.
use mini_asm.Base.{
  ℕ, suc, ◌+◌, ◌<◌, ◌≡◌, refl, Bool, true, false, not, ◌&&◌, ◌≢◌, List, [], ◌∷◌, map, Option, none,
  some, arith, ◌⊎◌, Bool-cases, inl, inr, get_or, keep_if, keep_if-keep_if, any_in, any_in-keep_if,
  any_in-kept, sym, ap, ◌∙◌, All, if◌then◌else◌,
}
use mini_asm.Base.Int.{ℤ, pos, negsuc, eq_ℤ_iff, pos_part}
use mini_asm.Ir.{Instr, Block, Func}
use mini_asm.Ir.Regs.{instr_uses, uses, instr_defines, defines, instr_mentions, mentions}
use mini_asm.Opt.Common.{func_maxv, has_side_effect}
use mini_asm.Opt.Common.Bound.{func_maxv-cell}
use mini_asm.Opt.Dce.{
  Flags, is_used, has_dst, is_kept, drops_any, sweep_block, any_dropped, used_flags, dce_loop,
  count_instrs, ir_dce_func,
}
use mini_asm.Opt.Dce.Marks.{get_or-used_flags, used_flags-uses}
use mini_asm.Opt.Dce.Rounds.{dce_loop_total, dce_loop_rule}

-- Dead code elimination returns on every function, since each round but the last removes an
-- instruction.
pub ir_dce_func_total : (f : Func) → (g : Func) × (ir_dce_func f ≡ some g)
unfolding ir_dce_func
ir_dce_func_total f =
    let (bs, e) =
      dce_loop_total (suc (count_instrs f.blocks)) (pos_part (func_maxv f) + 1) f.blocks
        (omega arith) in
    (record f { blocks = bs }, rw e)

-- The instructions with a side effect, block by block.
abbrev pub effects : List Block → List (List Instr)
effects = map (λ (b : Block). keep_if (λ (i : Instr). has_side_effect i.op) b.instrs)

effect-is_kept : (used : Flags) (i : Instr) → has_side_effect i.op ≡ true → is_kept used i ≡ true
unfolding is_kept
effect-is_kept used i h = rw h

effects-sweep : (used : Flags) (bs : List Block) → effects (map (sweep_block used) bs) ≡ effects bs
unfolding sweep_block
effects-sweep used [] = refl
effects-sweep used (b ∷ bs) = rw (
  keep_if-keep_if (is_kept used) (λ (i : Instr). has_side_effect i.op) b.instrs
      (effect-is_kept used),
  effects-sweep used bs,
)

uses-sweep :
    (used : Flags) (v : ℕ) (bs : List Block)
    → uses v (map (sweep_block used) bs) ≡ true
    → uses v bs ≡ true
unfolding sweep_block
uses-sweep used v [] h = h
uses-sweep used v (b ∷ bs) h =
    ground (arith, any_in-keep_if (is_kept used) (instr_uses v) b.instrs, uses-sweep used v bs)

both_true : (b : Bool) → (if b then true else true) ≡ true
both_true true = refl
both_true false = refl

definer-is_kept :
    (used : Flags) (v : ℕ)
    → get_or used v false ≡ true
    → (i : Instr) → instr_defines v i ≡ true
    → is_kept used i ≡ true
unfolding is_kept
definer-is_kept used v u i h =
    let e = (eq_ℤ_iff i.dst (pos v)).0 h in rw (e, u) (both_true (has_side_effect i.op))

defines-sweep :
    (used : Flags) (v : ℕ) (bs : List Block)
    → get_or used v false ≡ true
    → defines v bs ≡ true
    → defines v (map (sweep_block used) bs) ≡ true
unfolding sweep_block
defines-sweep used v [] u h = h
defines-sweep used v (b ∷ bs) u h = ground (
  arith,
  any_in-kept (is_kept used) (instr_defines v) b.instrs (definer-is_kept used v u),
  defines-sweep used v bs u,
)

-- What a round keeps: the effects, the range of the registers, and their definitions.
record Keeps (n : ℕ) (start bs : List Block) : Type 0 where
  same_effects : effects bs ≡ effects start
  in_range : (v : ℕ) → uses v bs ≡ true → v < n
  defined : (v : ℕ) → defines v start ≡ true → uses v bs ≡ true → defines v bs ≡ true

sweep-Keeps :
    (n : ℕ) (start bs : List Block)
    → Keeps n start bs
    → Keeps n start (map (sweep_block (used_flags n bs)) bs)
sweep-Keeps n start bs k = record {
  same_effects = effects-sweep (used_flags n bs) bs ∙ k.same_effects;
  in_range = λ v u. k.in_range v (uses-sweep (used_flags n bs) v bs u);
  defined = λ v d u.
      let u' = uses-sweep (used_flags n bs) v bs u in
      defines-sweep (used_flags n bs) v bs (get_or-used_flags n bs v (k.in_range v u') ∙ u')
        (k.defined v d u');
}

-- A register that is read is mentioned.
uses-mentions : (v : ℕ) (bs : List Block) → uses v bs ≡ true → mentions v bs ≡ true
uses-mentions v [] h = h
uses-mentions v (b ∷ bs) h = ground (arith, any_uses b.instrs, uses-mentions v bs)
  where
    any_uses :
        (is : List Instr) → any_in (instr_uses v) is ≡ true → any_in (instr_mentions v) is ≡ true
    any_uses [] k = k
    any_uses (i ∷ is) k = ground (arith, any_uses is)

true≢false : true ≢ false
true≢false h = cc

-- The register is read, or there is none.
abbrev pub DstLive : List Block → ℤ → Type 0
DstLive bs (pos v) = uses v bs ≡ true
DstLive bs (negsuc v) = Unit

-- An instruction with a side effect, without a result, or with a result that is read.
abbrev pub IsLive : List Block → Instr → Type 0
IsLive bs i = (has_side_effect i.op ≡ true) ⊎ DstLive bs i.dst

kept_live :
    (n : ℕ) (bs : List Block) (side : Bool) (d : ℤ)
    → (if side
        then true
        else if has_dst d && not (is_used (used_flags n bs) d)
        then false
        else true)
      ≡ true
    → (side ≡ true) ⊎ DstLive bs d
kept_live n bs true d h = inl refl
kept_live n bs false (negsuc v) h = inr tt
kept_live n bs false (pos v) h = inr (used_flags-uses n bs v (ground arith))

kept-IsLive :
    (n : ℕ) (bs : List Block) (i : Instr) → is_kept (used_flags n bs) i ≡ true → IsLive bs i
unfolding is_kept
kept-IsLive n bs i h = kept_live n bs (has_side_effect i.op) i.dst h

instrs-IsLive :
    (n : ℕ) (bs : List Block) (is : List Instr)
    → drops_any (used_flags n bs) is ≡ false
    → All (IsLive bs) is
unfolding drops_any
instrs-IsLive n bs [] h = tt
instrs-IsLive n bs (i ∷ is) h = elim (Bool-cases (is_kept (used_flags n bs) i)) [
  | inl t ↦ (kept-IsLive n bs i t, instrs-IsLive n bs is (rw t at h))
  | inr t ↦ absurd (true≢false (rw t at h))
]

blocks-IsLive :
    (n : ℕ) (bs cs : List Block)
    → any_dropped (used_flags n bs) cs ≡ false
    → All (λ (b : Block). All (IsLive bs) b.instrs) cs
unfolding any_dropped
blocks-IsLive n bs [] h = tt
blocks-IsLive n bs (c ∷ cs) h = elim (Bool-cases (drops_any (used_flags n bs) c.instrs)) [
  | inl t ↦ absurd (true≢false (rw t at h))
  | inr t ↦ (instrs-IsLive n bs c.instrs t, blocks-IsLive n bs cs (rw t at h))
]

module _ (f g : Func) (result : ir_dce_func f ≡ some g) where
  cells : ℕ
  cells = pos_part (func_maxv f) + 1

  some_blocks :
      (bs : List Block) × (dce_loop (suc (count_instrs f.blocks)) cells f.blocks ≡ some bs)
      × (g.blocks ≡ bs)
  unfolding ir_dce_func cells
  some_blocks =
      let (bs, e) = dce_loop_total (suc (count_instrs f.blocks)) cells f.blocks (omega arith) in
      let put : ir_dce_func f ≡ some (record f { blocks = bs }) = rw e in
      (bs, e, blocks_of (sym result ∙ put))
    where
      blocks_of : {x y : Func} → some x ≡ some y → x.blocks ≡ y.blocks
      blocks_of e = ap (λ (o : Option Func). elim o [ none ↦ [] | some z ↦ z.blocks ]) e

  start : Keeps cells f.blocks f.blocks
  unfolding cells
  start = record {
    same_effects = refl;
    in_range = λ v u. func_maxv-cell f v (uses-mentions v f.blocks u);
    defined = λ v d u. d;
  }

  outcome :
      Keeps cells f.blocks g.blocks × (any_dropped (used_flags cells g.blocks) g.blocks ≡ false)
  outcome =
      let (bs, e, same) = some_blocks in
      rw same (
        dce_loop_rule cells (Keeps cells f.blocks) (λ cs k. sweep-Keeps cells f.blocks cs k)
          (suc (count_instrs f.blocks)) f.blocks bs e start)

  -- Every instruction that dead code elimination leaves has a side effect, has no result, or has a
  -- result that some instruction of the result reads.
  pub ir_dce_func-IsLive : All (λ (b : Block). All (IsLive g.blocks) b.instrs) g.blocks
  ir_dce_func-IsLive = blocks-IsLive cells g.blocks g.blocks outcome.1

  -- Dead code elimination keeps the instructions that `has_side_effect` names, block by block and in
  -- order.
  pub ir_dce_func-effects : effects g.blocks ≡ effects f.blocks
  ir_dce_func-effects = outcome.0.same_effects

  -- After dead code elimination a register that the original function defines and the result reads is
  -- still defined.
  pub ir_dce_func-defines :
      (v : ℕ) → defines v f.blocks ≡ true → uses v g.blocks ≡ true → defines v g.blocks ≡ true
  ir_dce_func-defines = outcome.0.defined
