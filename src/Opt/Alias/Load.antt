-- ===== src/Opt/Alias/Load.antt =====
-- On `local_load_elim` and `collaps_ext_chains`, src/backend/opt.c.
use mathlib.Core.List.{foldl}
use mini_asm.Base.{
  ℕ, ◌≡◌, refl, true, false, ◌&&◌, ◌||◌, List, [], ◌∷◌, All, Bool-cases, inl, inr, ◌==◌, ==_iff,
  and_parts, ◌∙◌,
}
use mini_asm.Base.Int.{ℤ, pos, negsuc, eq_ℤ, eq_ℤ_iff}
use mini_asm.Ir.{
  Opcode, op_eq, op_add, op_store, op_load, op_zext, op_sext, op_trunc, Operand, vreg, imm, Instr,
  Block, Func,
}
use mini_asm.Ir.Meaning.{Regs, operand_value}
use mini_asm.Opt.Alias.{
  AliasTab, stored_alias, forward_args, forward_alias, load_block, local_load_elim, ext_instr,
  collaps_ext_chains,
}
use mini_asm.Opt.Alias.Means.{
  EachInstr, MeansSome, DstMeans, IsSound, write_alias-IsSound, each_instr-IsSound,
}
use mini_asm.Opt.Alias.Merge.{IsNumbered}
use mini_asm.Opt.Fold.Sound.{is_ext}

module _ (rest : Opcode → ℕ → ℕ → List ℕ → ℕ) (slot : Operand → ℕ) (ρ : Regs) where
  -- The load's register holds the stored value if the pointers are one register.
  abbrev pub PairHolds : ℤ → List Operand → List Operand → Type 0
  PairHolds d (x ∷ vreg p ∷ _) (vreg q ∷ _) = p ≡ q → ρ d ≡ operand_value rest slot ρ x
  PairHolds d _ _ = Unit

  -- A load that follows a store of the same type through the same register reads the value back.
  abbrev pub ReadsBack : List Instr → Type 0
  ReadsBack (st ∷ ld ∷ is) =
      (op_eq st.op op_store ≡ true
        → op_eq ld.op op_load ≡ true
        → st.type ≡ ld.type
        → PairHolds ld.dst st.args ld.args)
      × ReadsBack (ld ∷ is)
  ReadsBack _ = Unit

  stored_alias-MeansSome :
      (d : ℤ) (x : Operand)
      → IsNumbered x
      → ρ d ≡ operand_value rest slot ρ x
      → MeansSome ρ d (stored_alias x)
  unfolding stored_alias operand_value
  stored_alias-MeansSome d (vreg (pos v)) n h = h
  stored_alias-MeansSome d (vreg (negsuc v)) n h = absurd n
  stored_alias-MeansSome d (imm c) n h = elim (Bool-cases (eq_ℤ c (pos 0))) [
    | inl t ↦ rw t (h ∙ rw ((eq_ℤ_iff c (pos 0)).0 t))
    | inr t ↦ elim (Bool-cases (eq_ℤ c (pos 1))) [
      | inl u ↦ rw (t, u) (h ∙ rw ((eq_ℤ_iff c (pos 1)).0 u))
      | inr u ↦ rw (t, u) tt
    ]
  ]
  stored_alias-MeansSome d _ n h = tt

  forward_args-MeansSome :
      (d : ℤ) (as' bs : List Operand)
      → All IsNumbered as'
      → PairHolds d as' bs
      → MeansSome ρ d (forward_args as' bs)
  unfolding forward_args
  forward_args-MeansSome d (x ∷ vreg p ∷ as') (vreg q ∷ bs) n h = elim (Bool-cases (eq_ℤ p q)) [
    | inl t ↦ rw t (stored_alias-MeansSome d x n.0 (h ((eq_ℤ_iff p q).0 t)))
    | inr t ↦ rw t tt
  ]
  forward_args-MeansSome d _ bs n h = tt

  forward_alias-MeansSome :
      (d : ℤ) (st ld : Instr)
      → All IsNumbered st.args
      → (op_eq st.op op_store ≡ true
          → op_eq ld.op op_load ≡ true
          → st.type ≡ ld.type
          → PairHolds d st.args ld.args)
      → MeansSome ρ d (forward_alias st ld)
  unfolding forward_alias
  forward_alias-MeansSome d st ld n h =
      elim (Bool-cases (op_eq st.op op_store && op_eq ld.op op_load && st.type == ld.type)) [
        | inl t ↦
            let (both, c) =
              and_parts (op_eq st.op op_store && op_eq ld.op op_load) (st.type == ld.type) t in
            let (a, b) = and_parts (op_eq st.op op_store) (op_eq ld.op op_load) both in
            rw t (forward_args-MeansSome d st.args ld.args n (h a b ((==_iff _ _).0 c)))
        | inr t ↦ rw t tt
      ]

  load_block-IsSound :
      (is : List Instr) (alias : AliasTab)
      → All (λ (i : Instr). All IsNumbered i.args) is
      → ReadsBack is
      → IsSound ρ alias
      → IsSound ρ (load_block is alias)
  unfolding load_block
  load_block-IsSound [] alias n h s = s
  load_block-IsSound (i ∷ []) alias n h s = s
  load_block-IsSound (st ∷ ld ∷ is) alias n h s =
      load_block-IsSound (ld ∷ is) _ n.1 h.1 (
        write_alias-IsSound ρ alias ld.dst (forward_alias st ld) s (go ld.dst (λ a b c. h.0 a b c)))
    where
      go :
          (d : ℤ)
          → (op_eq st.op op_store ≡ true
              → op_eq ld.op op_load ≡ true
              → st.type ≡ ld.type
              → PairHolds d st.args ld.args)
          → DstMeans ρ d (forward_alias st ld)
      go (pos d) k = forward_alias-MeansSome (pos d) st ld n.0 k
      go (negsuc d) k = tt

  load_blocks-IsSound :
      (bs : List Block) (alias : AliasTab)
      → All (λ (b : Block). All (λ (i : Instr). All IsNumbered i.args) b.instrs) bs
      → All (λ (b : Block). ReadsBack b.instrs) bs
      → IsSound ρ alias
      → IsSound ρ (foldl (λ a (b : Block). load_block b.instrs a) alias bs)
  load_blocks-IsSound [] alias n h s = s
  load_blocks-IsSound (b ∷ bs) alias n h s =
      load_blocks-IsSound bs (load_block b.instrs alias) n.1 h.1
        (load_block-IsSound b.instrs alias n.0 h.0 s)

  -- In a function whose operands are numbered registers, if a load right after a store of the same type
  -- through the same register reads the stored value back, the registers keep every promise of the
  -- table after local load elimination, given that they kept them before.
  pub local_load_elim-IsSound :
      (f : Func) (alias : AliasTab)
      → EachInstr (λ i. All IsNumbered i.args) f
      → All (λ (b : Block). ReadsBack b.instrs) f.blocks
      → IsSound ρ alias
      → IsSound ρ (local_load_elim f alias)
  unfolding local_load_elim
  local_load_elim-IsSound f alias n h s = load_blocks-IsSound f.blocks alias n h s

not_ext :
    (op : Opcode)
    → is_ext op ≡ false
    → (op_eq op op_zext || op_eq op op_sext || op_eq op op_trunc) ≡ false
unfolding is_ext
not_ext op_add h = refl
not_ext _ h = cc

ext_instr-same :
    (bs : List Block) (alias : AliasTab) (i : Instr)
    → is_ext i.op ≡ false
    → ext_instr bs alias i ≡ alias
unfolding ext_instr
ext_instr-same bs alias i h = rw (not_ext i.op h)

-- Without conversions the pass over their chains keeps a sound table sound.
pub collaps_ext_chains-IsSound :
    (ρ : Regs) (f : Func) (alias : AliasTab)
    → EachInstr (λ i. is_ext i.op ≡ false) f
    → IsSound ρ alias
    → IsSound ρ (collaps_ext_chains f alias)
unfolding collaps_ext_chains
collaps_ext_chains-IsSound ρ f alias h s =
    each_instr-IsSound ρ (λ i. is_ext i.op ≡ false) (ext_instr f.blocks)
      (λ a i e t. rw (ext_instr-same f.blocks a i e) t) f alias h s
