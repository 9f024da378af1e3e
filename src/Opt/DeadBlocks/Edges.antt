-- ===== src/Opt/DeadBlocks/Edges.antt =====
-- The branches between blocks, include/ir.h, and the labels that `succs` of src/backend/opt.c lists.
use Prim.Native.String.{String}
use text.Mathlib.Text.{◌==◌ as str_eq}
use mini_asm.Base.{
  ℕ, zero, suc, ◌+◌, ◌≡◌, refl, sym, ap, ◌∙◌, Bool, true, false, ◌||◌, ◌&&◌, List, [], ◌∷◌, ◌++◌,
  Option, none, some, some_inj, ◌⊎◌, inl, inr, ◌==◌, ==_iff, arith, Bool-cases, get_elem?, any_in,
}
use mathlib.Core.Path.{subst}
use mini_asm.Ir.{op_eq, op_br, op_cbr, Instr, Block}
use mini_asm.Opt.DeadBlocks.{label_list, succs, block_succs, labels_at}
use mini_asm.Opt.DeadBlocks.Visit.{hits}
use mini_asm.Opt.DeadBlocks.Reach.{Hits, Found, entry, branch}

-- A jump names its label, and a conditional branch both of its labels.
abbrev pub BranchesTo : Instr → String → Type 0
BranchesTo i l =
    ((op_eq i.op op_br ≡ true) × (i.label ≡ some l))
    ⊎ ((op_eq i.op op_cbr ≡ true) × ((i.label ≡ some l) ⊎ (i.label2 ≡ some l)))

-- An instruction of the block `u` branches to the name of the block `v`.
pub record Edge (bs : List Block) (u v : ℕ) : Type 0 where
  pub source : Block
  pub target : Block
  pub index : ℕ
  pub instr : Instr
  pub name : String
  pub at_source : get_elem? bs u ≡ some source
  pub at_target : get_elem? bs v ≡ some target
  pub at_index : get_elem? source.instrs index ≡ some instr
  pub branches : BranchesTo instr name
  pub named : str_eq target.name name ≡ true

-- The paths of branches from the first block.
pub data Reach (bs : List Block) : ℕ → Type 0 where
  first : Reach bs 0
  next : {u v : ℕ} → Reach bs u → Edge bs u v → Reach bs v

or_cases : (a b : Bool) → (a || b) ≡ true → (a ≡ true) ⊎ (b ≡ true)
or_cases true b h = inl refl
or_cases false b h = inr h

or_right : (a b : Bool) → b ≡ true → (a || b) ≡ true
or_right true b h = refl
or_right false b h = h

or_left : (a b : Bool) → a ≡ true → (a || b) ≡ true
or_left true b h = refl
or_left false b h = cc

and_parts : (a b : Bool) → (a && b) ≡ true → (a ≡ true) × (b ≡ true)
and_parts true b h = (refl, h)
and_parts false b h = cc

any_in-append :
    (p : String → Bool) (xs ys : List String) → any_in p (xs ++ ys) ≡ (any_in p xs || any_in p ys)
any_in-append p [] ys = refl
any_in-append p (x ∷ xs) ys = ap (λ b. p x || b) (any_in-append p xs ys) ∙ sym (assoc (p x) _ _)
  where
    assoc : (a b c : Bool) → ((a || b) || c) ≡ (a || (b || c))
    assoc true b c = refl
    assoc false b c = refl

hits-block :
    (l : String) (t : ℕ) (bs : List Block) (v : ℕ)
    → hits l t bs v ≡ true
    → (k : ℕ) × (c : Block) × (v ≡ t + k) × (get_elem? bs k ≡ some c) × (str_eq c.name l ≡ true)
hits-block l t [] v h = cc
hits-block l t (b ∷ bs) v h = elim (or_cases (v == t && str_eq b.name l) (hits l (suc t) bs v) h) [
  | inl q ↦
      let (e, n) = and_parts (v == t) (str_eq b.name l) q in
      (0, b, omega (arith, (==_iff v t).0 e), refl, n)
  | inr q ↦ let (k, c, e, g, n) = hits-block l (suc t) bs v q in (suc k, c, omega (arith, e), g, n)
]

block-hits :
    (l : String) (t : ℕ) (bs : List Block) (k : ℕ) (c : Block)
    → get_elem? bs k ≡ some c
    → str_eq c.name l ≡ true
    → hits l t bs (t + k) ≡ true
block-hits l t [] k c e n = cc
block-hits l t (b ∷ bs) zero c e n =
    or_left (t + 0 == t && str_eq b.name l) (hits l (suc t) bs (t + 0))
      (rw ((==_iff (t + 0) t).1 (omega arith), some_inj.0 e, n) refl)
block-hits l t (b ∷ bs) (suc k) c e n =
    or_right (t + suc k == t && str_eq b.name l) (hits l (suc t) bs (t + suc k))
      (subst (λ w. hits l (suc t) bs w ≡ true) (omega arith) (block-hits l (suc t) bs k c e n))

list-hit :
    (o : Option String) (p : String → Bool)
    → any_in p (label_list o) ≡ true
    → (l : String) × (o ≡ some l) × (p l ≡ true)
list-hit none p h = cc
list-hit (some l) p h = elim (or_cases (p l) false h) [ inl q ↦ (l, refl, q) | inr q ↦ cc ]

hit-list :
    (o : Option String) (p : String → Bool) (l : String)
    → o ≡ some l
    → p l ≡ true
    → any_in p (label_list o) ≡ true
hit-list none p l e h = cc
hit-list (some k) p l e h = or_left (p k) false (subst (λ x. p x ≡ true) (sym (some_inj.0 e)) h)

succs-branch :
    (i : Instr) (p : String → Bool)
    → any_in p (succs i) ≡ true
    → (l : String) × BranchesTo i l × (p l ≡ true)
unfolding succs
succs-branch i p h = elim (Bool-cases (op_eq i.op op_br)) [
  | inl e ↦ let (l, q, r) = list-hit i.label p (rw e at h) in (l, inl (e, q), r)
  | inr e ↦ elim (Bool-cases (op_eq i.op op_cbr)) [
    | inl f ↦
        let both =
          sym (any_in-append p (label_list i.label) (label_list i.label2)) ∙ (rw (e, f) at h) in
        elim (or_cases (any_in p (label_list i.label)) (any_in p (label_list i.label2)) both) [
          | inl k ↦ let (l, q, r) = list-hit i.label p k in (l, inr (f, inl q), r)
          | inr k ↦ let (l, q, r) = list-hit i.label2 p k in (l, inr (f, inr q), r)
        ]
    | inr f ↦ absurd (cc (rw (e, f) at h))
  ]
]

branch-succs :
    (i : Instr) (p : String → Bool) (l : String)
    → BranchesTo i l
    → p l ≡ true
    → any_in p (succs i) ≡ true
unfolding succs
branch-succs i p l (inl (e, q)) h = rw e (hit-list i.label p l q h)
branch-succs i p l (inr (f, q)) h =
    let no_jump : op_eq i.op op_br ≡ false = ground (arith, f) in
    rw (no_jump, f, any_in-append)
      (elim q [
        | inl k ↦ or_left (any_in p (label_list i.label)) _ (hit-list i.label p l k h)
        | inr k ↦ or_right (any_in p (label_list i.label)) _ (hit-list i.label2 p l k h)
      ])

block-branch :
    (is : List Instr) (p : String → Bool)
    → any_in p (block_succs is) ≡ true
    → (k : ℕ) × (i : Instr) × (l : String) × (get_elem? is k ≡ some i)
      × BranchesTo i l
      × (p l ≡ true)
unfolding block_succs
block-branch [] p h = cc
block-branch (i ∷ is) p h =
    elim (or_cases (any_in p (succs i)) (any_in p (block_succs is))
      (sym (any_in-append p (succs i) (block_succs is)) ∙ h)) [
        | inl q ↦ let (l, e, r) = succs-branch i p q in (0, i, l, refl, e, r)
        | inr q ↦ let (k, j, l, g, e, r) = block-branch is p q in (suc k, j, l, g, e, r)
      ]

branch-block :
    (is : List Instr) (p : String → Bool) (k : ℕ) (i : Instr) (l : String)
    → get_elem? is k ≡ some i
    → BranchesTo i l
    → p l ≡ true
    → any_in p (block_succs is) ≡ true
unfolding block_succs
branch-block [] p k i l g e h = cc
branch-block (j ∷ is) p zero i l g e h =
    any_in-append p (succs j) (block_succs is)
    ∙ or_left (any_in p (succs j)) _
        (branch-succs j p l (subst (λ x. BranchesTo x l) (sym (some_inj.0 g)) e) h)
branch-block (j ∷ is) p (suc k) i l g e h =
    any_in-append p (succs j) (block_succs is)
    ∙ or_right (any_in p (succs j)) _ (branch-block is p k i l g e h)

labels-source :
    (bs : List Block) (u : ℕ) (p : String → Bool)
    → any_in p (labels_at bs u) ≡ true
    → (b : Block) × (get_elem? bs u ≡ some b) × (any_in p (block_succs b.instrs) ≡ true)
unfolding labels_at
labels-source [] u p h = cc
labels-source (b ∷ bs) zero p h = (b, refl, h)
labels-source (b ∷ bs) (suc u) p h = labels-source bs u p h

source-labels :
    (bs : List Block) (u : ℕ) (p : String → Bool) (b : Block)
    → get_elem? bs u ≡ some b
    → any_in p (block_succs b.instrs) ≡ true
    → any_in p (labels_at bs u) ≡ true
unfolding labels_at
source-labels [] u p b e h = cc
source-labels (c ∷ bs) zero p b e h =
    subst (λ x. any_in p (block_succs x.instrs) ≡ true) (sym (some_inj.0 e)) h
source-labels (c ∷ bs) (suc u) p b e h = source-labels bs u p b e h

module _ (bs : List Block) where
  hit-Edge : (u v : ℕ) → Hits bs u v → Edge bs u v
  hit-Edge u v h =
      let (b, e, s) = labels-source bs u (λ l. hits l 0 bs v) h in
      let (k, i, l, g, f, q) = block-branch b.instrs (λ l. hits l 0 bs v) s in
      let (j, c, w, r, n) = hits-block l 0 bs v q in
      let at : j ≡ v = omega (arith, w) in
      record {
        source = b;
        target = c;
        index = k;
        instr = i;
        name = l;
        at_source = e;
        at_target = subst (λ x. get_elem? bs x ≡ some c) at r;
        at_index = g;
        branches = f;
        named = n;
      }

  Edge-hit : (u v : ℕ) → Edge bs u v → Hits bs u v
  Edge-hit u v d =
      source-labels bs u (λ l. hits l 0 bs v) d.source d.at_source
        (branch-block d.source.instrs (λ l. hits l 0 bs v) d.index d.instr d.name d.at_index
          d.branches
          (subst (λ w. hits d.name 0 bs w ≡ true) (omega arith)
            (block-hits d.name 0 bs v d.target d.at_target d.named)))

  pub Found-Reach : {v : ℕ} → Found bs v → Reach bs v
  Found-Reach entry = first
  Found-Reach (branch {u} {v} r h) = next (Found-Reach r) (hit-Edge u v h)

  pub Reach-Found : {v : ℕ} → Reach bs v → Found bs v
  Reach-Found first = entry
  Reach-Found (next {u} {v} r d) = branch (Reach-Found r) (Edge-hit u v d)
