-- ===== src/Backend/Moves/Edge.antt =====
-- src/targets/x86_64/isel.c: the copies on an edge, run one after the other on the places.
use Prim.Native.String.{String}
use text.Mathlib.Text.{◌==◌ as str_eq}
use mini_asm.Base.{
  ◌==◌, ◌≡◌, refl, sym, ◌∙◌, List, [], ◌∷◌, ◌++◌, Option, none, some, Bool, true, false, Bool-cases,
  inl, inr, All, AllPairs, All-map, arith, map, ==_iff, ap, not, ◌&&◌, if◌then◌else◌,
}
use mathlib.Core.Path.{subst}
use mini_asm.Base.Int.{ℤ, pos, eq_ℤ, eq_ℤ_iff, ltb_ℤ}
use mini_asm.Ir.{op_phi, op_eq, Operand, absent, vreg, imm, label_arg, fp_imm, arg_at, Instr, Block}
use mini_asm.Regalloc.Run.{RegAlloc}
use mini_asm.Backend.Moves.{
  Place, machine, slot, Source, at_place, number, Move, vop_str, op_str, copy_moves, side_moves,
  phi_moves, block_moves, emit_phi_copies_for_edge,
}

abbrev pub place_eq : Place → Place → Bool
place_eq (machine a) (machine b) = a == b
place_eq (slot a) (slot b) = eq_ℤ a b
place_eq _ _ = false

place_eq_refl : (p : Place) → place_eq p p ≡ true
place_eq_refl (machine a) = ground arith
place_eq_refl (slot a) = (eq_ℤ_iff a a).1 refl

-- The contents of the places.
abbrev pub Store : Type 0
Store = Place → ℤ

abbrev pub fetch : Source → Store → ℤ
fetch (at_place p) s = s p
fetch (number c) s = c

unfoldable pub put : Place → ℤ → Store → Store
put p x s q = if place_eq q p then x else s q

abbrev pub run : List Move → Store → Store
run [] s = s
run (m ∷ ms) s = run ms (put m.dst (fetch m.src s) s)

abbrev reads : Source → Place → Bool
reads (at_place p) q = place_eq p q
reads (number c) q = false

-- A later copy neither writes nor reads what an earlier one wrote.
abbrev pub IsClear : Move → Move → Type 0
IsClear m n = (place_eq m.dst n.dst ≡ false) × (reads n.src m.dst ≡ false)

place_eq-same : (p q : Place) → place_eq p q ≡ true → p ≡ q
place_eq-same (machine a) (machine b) h = ap machine ((==_iff a b).0 h)
place_eq-same (slot a) (slot b) h = ap slot ((eq_ℤ_iff a b).0 h)
place_eq-same (machine a) (slot b) h = cc
place_eq-same (slot a) (machine b) h = cc

-- All copies made at once, from what the places held before.
abbrev pub parallel : List Move → Store → Store
parallel [] s p = s p
parallel (m ∷ ms) s p = if place_eq p m.dst then fetch m.src s else parallel ms s p

parallel-other :
    (ms : List Move) (s : Store) (p : Place)
    → All (λ (m : Move). place_eq p m.dst ≡ false) ms
    → parallel ms s p ≡ s p
parallel-other [] s p h = refl
parallel-other (m ∷ ms) s p h = rw h.0 (parallel-other ms s p h.1)

put-unread :
    (a : Source) (p : Place) (x : ℤ) (s : Store)
    → reads a p ≡ false
    → fetch a (put p x s) ≡ fetch a s
unfolding put
put-unread (at_place q) p x s h = rw (put, h) refl
put-unread (number c) p x s h = refl

-- A write that no copy reads shows only at its own place.
parallel-put :
    (m : Move) (ms : List Move) (x : ℤ) (s : Store) (p : Place)
    → place_eq p m.dst ≡ false
    → All (IsClear m) ms
    → parallel ms (put m.dst x s) p ≡ parallel ms s p
unfolding put
parallel-put m [] x s p e h = rw (put, e) refl
parallel-put m (n ∷ ms) x s p e h =
    rw (put-unread n.src m.dst x s h.0.1, parallel-put m ms x s p e h.1) refl

run-parallel :
    (ms : List Move) (s : Store) → AllPairs IsClear ms → (p : Place) → run ms s p ≡ parallel ms s p
unfolding put
run-parallel [] s h p = refl
run-parallel (m ∷ ms) s h p = elim (Bool-cases (place_eq p m.dst)) [
  | inl e ↦
      let same = place_eq-same p m.dst e in
      run-parallel ms (put m.dst (fetch m.src s) s) h.1 p
      ∙ parallel-other ms (put m.dst (fetch m.src s) s) p (
          subst (λ q. All (λ (n : Move). place_eq q n.dst ≡ false) ms) (sym same)
            (All-map (IsClear m) (λ (n : Move). place_eq m.dst n.dst ≡ false) ms (λ n k. k.0) h.0))
      ∙ rw (put, e) refl
  | inr e ↦
      run-parallel ms (put m.dst (fetch m.src s) s) h.1 p
      ∙ parallel-put m ms (fetch m.src s) s p e h.0
      ∙ rw e refl
]

-- The operands that the edge hands to a phi, of which only registers and immediates are copied.
abbrev copied : Operand → List Operand
copied (vreg v) = vreg v ∷ []
copied (imm c) = imm c ∷ []
copied _ = []

unfoldable pub incoming_on : String → Option String → Operand → List Operand
incoming_on from_name none a = []
incoming_on from_name (some from) a = if str_eq from from_name then copied a else []

abbrev pub incoming : String → Instr → List Operand
incoming from_name i =
    incoming_on from_name i.label (arg_at i.args 0)
    ++ incoming_on from_name i.label2 (arg_at i.args 1)

abbrev hand_to : ℤ → Operand → ℤ × Operand
hand_to d a = (d, a)

-- What the edge hands over: each phi of a block at its end, with each operand for it.
abbrev pub phi_transfers : String → Instr → List (ℤ × Operand)
phi_transfers from_name i =
    if op_eq i.op op_phi && not (ltb_ℤ i.dst (pos 0))
    then map (hand_to i.dst) (incoming from_name i)
    else []

abbrev block_transfers : String → List Instr → List (ℤ × Operand)
block_transfers from_name [] = []
block_transfers from_name (i ∷ is) = phi_transfers from_name i ++ block_transfers from_name is

abbrev pub transfers : String → String → List Block → List (ℤ × Operand)
transfers from_name to_name [] = []
transfers from_name to_name (b ∷ bs) =
    (if str_eq b.name to_name then block_transfers from_name b.instrs else [])
    ++ transfers from_name to_name bs

abbrev as_move : RegAlloc → ℤ × Operand → Move
as_move ra t = record { src = op_str t.1 ra; dst = vop_str t.0 ra }

abbrev pub as_moves : RegAlloc → List (ℤ × Operand) → List Move
as_moves ra = map (as_move ra)

map-append : {A B : Type 0} (g : A → B) (xs ys : List A) → map g (xs ++ ys) ≡ map g xs ++ map g ys
map-append g [] ys = refl
map-append g (x ∷ xs) ys = ap (λ zs. g x ∷ zs) (map-append g xs ys)

module _ (ra : RegAlloc) (from_name : String) where
  copy-moves : (d : ℤ) (a : Operand) → copy_moves ra d a ≡ as_moves ra (map (hand_to d) (copied a))
  unfolding copy_moves op_str
  copy-moves d (absent v) = refl
  copy-moves d (vreg v) = refl
  copy-moves d (imm v) = refl
  copy-moves d (label_arg v) = refl
  copy-moves d (fp_imm v) = refl

  side-moves :
      (d : ℤ) (l : Option String) (a : Operand)
      → side_moves ra from_name d l a ≡ as_moves ra (map (hand_to d) (incoming_on from_name l a))
  unfolding side_moves incoming_on
  side-moves d none a = refl
  side-moves d (some from) a = elim (Bool-cases (str_eq from from_name)) [
    | inl e ↦ rw e (copy-moves d a)
    | inr e ↦ rw e refl
  ]

  sides-moves :
      (i : Instr)
      → side_moves ra from_name i.dst i.label (arg_at i.args 0)
          ++ side_moves ra from_name i.dst i.label2 (arg_at i.args 1)
        ≡ as_moves ra (map (hand_to i.dst) (incoming from_name i))
  sides-moves i =
      let first = incoming_on from_name i.label (arg_at i.args 0) in
      let second = incoming_on from_name i.label2 (arg_at i.args 1) in
      rw
        (
          map-append (hand_to i.dst) first second,
          map-append (as_move ra) (map (hand_to i.dst) first) (map (hand_to i.dst) second),
          side-moves i.dst i.label (arg_at i.args 0),
          side-moves i.dst i.label2 (arg_at i.args 1),
        )
        refl

  phi-moves : (i : Instr) → phi_moves ra from_name i ≡ as_moves ra (phi_transfers from_name i)
  unfolding phi_moves
  phi-moves i = by_test (op_eq i.op op_phi && not (ltb_ℤ i.dst (pos 0)))
    where
      by_test :
          (c : Bool)
          → (if c
              then side_moves ra from_name i.dst i.label (arg_at i.args 0)
                ++ side_moves ra from_name i.dst i.label2 (arg_at i.args 1)
              else [])
            ≡ as_moves ra (if c then map (hand_to i.dst) (incoming from_name i) else [])
      by_test true = sides-moves i
      by_test false = refl

  block-moves :
      (is : List Instr) → block_moves ra from_name is ≡ as_moves ra (block_transfers from_name is)
  unfolding block_moves
  block-moves [] = refl
  block-moves (i ∷ is) =
      rw (phi-moves i, block-moves is)
        (sym (map-append (as_move ra) (phi_transfers from_name i) (block_transfers from_name is)))

  edge-moves :
      (to_name : String) (bs : List Block)
      → emit_phi_copies_for_edge bs from_name to_name ra
        ≡ as_moves ra (transfers from_name to_name bs)
  unfolding emit_phi_copies_for_edge
  edge-moves to_name [] = refl
  edge-moves to_name (b ∷ bs) = elim (Bool-cases (str_eq b.name to_name)) [
    | inl e ↦
        rw (e, block-moves b.instrs, edge-moves to_name bs)
          (sym (
            map-append (as_move ra) (block_transfers from_name b.instrs)
              (transfers from_name to_name bs)))
    | inr e ↦ rw (e, edge-moves to_name bs) refl
  ]

-- Let an edge hand over, to each phi with a result in a block named as its end, the register or
-- immediate that stands beside each label of the phi that is the edge's start. If in that list no
-- transfer writes or reads a place that an earlier one writes, then the copies of the edge, run one
-- after the other, leave in every place what all the transfers at once, each from what the places held
-- before, would leave.
pub emit_phi_copies_for_edge_lem :
    (ra : RegAlloc) (bs : List Block) (from_name to_name : String) (s : Store)
    → AllPairs IsClear (as_moves ra (transfers from_name to_name bs))
    → (p : Place)
    → run (emit_phi_copies_for_edge bs from_name to_name ra) s p
      ≡ parallel (as_moves ra (transfers from_name to_name bs)) s p
emit_phi_copies_for_edge_lem ra bs from_name to_name s h p =
    ap (λ ms. run ms s p) (edge-moves ra from_name to_name bs)
    ∙ run-parallel (as_moves ra (transfers from_name to_name bs)) s h p
