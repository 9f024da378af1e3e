-- ===== src/Regalloc/Intervals/Loops.antt =====
-- On the branches backwards, over which the last pass of `compute_intervals`, src/backend/regalloc.c, extends.
use Prim.Native.String.{String}
use mini_asm.Base.{
  ℕ, ◌+◌, ◌≤◌, ◌≡◌, Bool, true, false, not, ◌&&◌, List, [], ◌∷◌, ◌++◌, map, Option, none, some,
  length, All, All-map, All-parts, Bool-cases, inl, inr, ◌⊎◌, leb, arith, if◌then◌else◌,
}
use mathlib.Core.Path.{subst}
use mini_asm.Base.Int.{ℤ, pos, ltb_ℤ}
use mini_asm.Ir.{op_eq, op_br, op_cbr, Instr, Block}
use mini_asm.Opt.DeadBlocks.{label_list, succs, block_succs}
use mini_asm.Regalloc.Intervals.{
  Interval, Span, extend, extend_to, extend_labels, extend_blocks, block_spans, find_span,
}
use mini_asm.Regalloc.Intervals.Inputs.{start_of, first_of, start_of-span}

-- The interval starts after the positions from `lo` to `hi`, ends before them, or lasts to the last of them.
abbrev pub Lasts : ℕ → ℕ → Interval → Type 0
Lasts lo hi i =
    (ltb_ℤ (pos hi) i.start ≡ true)
    ⊎ ((ltb_ℤ i.end (pos lo) ≡ true) ⊎ (ltb_ℤ i.end (pos hi) ≡ false))

abbrev When : Bool → Type 0 → Type 0 → Type 0
When true P Q = P
When false P Q = Q

-- For a branch to the start of a block that is not behind `first`, the loop ends at `last`.
abbrev LoopLasts : List Interval → ℕ → ℕ → Option ℕ → Type 0
LoopLasts ivs first last none = Unit
LoopLasts ivs first last (some s) = When (leb s first) (All (Lasts s last) ivs) Unit

module _ (whole : List Block) where
  abbrev LabelLasts : List Interval → ℕ → ℕ → Option String → Type 0
  LabelLasts ivs first last none = Unit
  LabelLasts ivs first last (some l) = LoopLasts ivs first last (start_of whole 0 l)

  -- A jump has one target, a conditional branch two.
  abbrev BranchLasts : List Interval → ℕ → ℕ → Instr → Type 0
  BranchLasts ivs first last i = When (op_eq i.op op_br) (LabelLasts ivs first last i.label) (
      When (op_eq i.op op_cbr)
        (LabelLasts ivs first last i.label × LabelLasts ivs first last i.label2) Unit)

  -- The branches of blocks that start at a position.
  abbrev pub LoopsLast : List Interval → ℕ → List Block → Type 0
  LoopsLast ivs p [] = Unit
  LoopsLast ivs p (b ∷ bs) =
      All (BranchLasts ivs p (p + length b.instrs)) b.instrs
      × LoopsLast ivs (p + length b.instrs) bs

late_end : (e : ℤ) (h k : ℕ) → h ≤ k → ltb_ℤ (if ltb_ℤ e (pos k) then pos k else e) (pos h) ≡ false
late_end e h k q = ground arith

later_end :
    (e : ℤ) (h k : ℕ)
    → ltb_ℤ e (pos h) ≡ false
    → ltb_ℤ (if ltb_ℤ e (pos k) then pos k else e) (pos h) ≡ false
later_end e h k q = ground arith

extend-Lasts : (lo hi : ℕ) (i : Interval) → Lasts lo hi (extend lo hi i)
extend-Lasts lo hi i = elim (Bool-cases (ltb_ℤ (pos hi) i.start)) [
  | inl s ↦ rw s (inl s)
  | inr s ↦ elim (Bool-cases (ltb_ℤ i.end (pos lo))) [
    | inl e ↦ rw (s, e) (inr (inl e))
    | inr e ↦ rw (s, e) (inr (inr (late_end i.end hi hi (omega arith))))
  ]
]

-- An extension to a later end keeps what lasts.
extend-keeps :
    (lo hi lo' hi' : ℕ) (i : Interval) → hi ≤ hi' → Lasts lo hi i → Lasts lo hi (extend lo' hi' i)
extend-keeps lo hi lo' hi' i q h =
    by_test (not (ltb_ℤ (pos hi') i.start) && not (ltb_ℤ i.end (pos lo'))) h
  where
    by_test :
        (b : Bool)
        → Lasts lo hi i
        → Lasts lo hi
            (if b then record i { end = if ltb_ℤ i.end (pos hi') then pos hi' else i.end } else i)
    by_test false k = k
    by_test true (inl s) = inl s
    by_test true (inr (inl e)) = inr (inr (late_end i.end hi hi' q))
    by_test true (inr (inr e)) = inr (inr (later_end i.end hi hi' e))

map-Lasts :
    (lo hi : ℕ) (g : Interval → Interval) (ivs : List Interval)
    → ((i : Interval) → Lasts lo hi (g i))
    → All (Lasts lo hi) (map g ivs)
map-Lasts lo hi g [] h = tt
map-Lasts lo hi g (i ∷ is) h = (h i, map-Lasts lo hi g is h)

map-keeps :
    (lo hi : ℕ) (g : Interval → Interval) (ivs : List Interval)
    → ((i : Interval) → Lasts lo hi i → Lasts lo hi (g i))
    → All (Lasts lo hi) ivs
    → All (Lasts lo hi) (map g ivs)
map-keeps lo hi g [] f h = tt
map-keeps lo hi g (i ∷ is) f h = (f i h.0, map-keeps lo hi g is f h.1)

extend_to-keeps :
    (lo hi : ℕ) (from : Span) (o : Option Span) (ivs : List Interval)
    → hi ≤ from.last
    → All (Lasts lo hi) ivs
    → All (Lasts lo hi) (extend_to from o ivs)
extend_to-keeps lo hi from none ivs q h = h
extend_to-keeps lo hi from (some s) ivs q h = elim (Bool-cases (leb s.first from.first)) [
  | inl e ↦ rw e (
      map-keeps lo hi (extend s.first from.last) ivs
        (λ i k. extend-keeps lo hi s.first from.last i q k) h)
  | inr e ↦ rw e h
]

extend_labels-keeps :
    (ss : List Span) (lo hi : ℕ) (from : Span) (ls : List String) (ivs : List Interval)
    → hi ≤ from.last
    → All (Lasts lo hi) ivs
    → All (Lasts lo hi) (extend_labels ss from ls ivs)
unfolding extend_labels
extend_labels-keeps ss lo hi from [] ivs q h = h
extend_labels-keeps ss lo hi from (l ∷ ls) ivs q h =
    extend_labels-keeps ss lo hi from ls (extend_to from (find_span ss l) ivs) q
      (extend_to-keeps lo hi from (find_span ss l) ivs q h)

extend_blocks-keeps :
    (ss : List Span) (lo hi p : ℕ) (bs : List Block) (ivs : List Interval)
    → hi ≤ p
    → All (Lasts lo hi) ivs
    → All (Lasts lo hi) (extend_blocks ss (block_spans p bs) bs ivs)
unfolding extend_blocks block_spans
extend_blocks-keeps ss lo hi p [] ivs q h = h
extend_blocks-keeps ss lo hi p (b ∷ bs) ivs q h =
    let from : Span = record { name = b.name; first = p; last = p + length b.instrs } in
    extend_blocks-keeps ss lo hi (p + length b.instrs) bs
      (extend_labels ss from (block_succs b.instrs) ivs) (omega (arith, q))
      (extend_labels-keeps ss lo hi from (block_succs b.instrs) ivs (omega (arith, q)) h)

-- The same for a loop that may not be one.
loop_map :
    (xs ys : List Interval) (first last : ℕ) (o : Option ℕ)
    → ((lo : ℕ) → All (Lasts lo last) xs → All (Lasts lo last) ys)
    → LoopLasts xs first last o
    → LoopLasts ys first last o
loop_map xs ys first last none f h = tt
loop_map xs ys first last (some s) f h = by_test (leb s first) h
  where
    by_test : (b : Bool) → When b (All (Lasts s last) xs) Unit → When b (All (Lasts s last) ys) Unit
    by_test true k = f s k
    by_test false k = tt

extend_to-Lasts :
    (from : Span) (o : Option Span) (ivs : List Interval)
    → LoopLasts (extend_to from o ivs) from.first from.last (first_of o)
unfolding first_of
extend_to-Lasts from none ivs = tt
extend_to-Lasts from (some s) ivs = elim (Bool-cases (leb s.first from.first)) [
  | inl e ↦ rw e (
      map-Lasts s.first from.last (extend s.first from.last) ivs
        (λ i. extend-Lasts s.first from.last i))
  | inr e ↦ rw e tt
]

module _ (whole : List Block) where
  abbrev spans : List Span
  spans = block_spans 0 whole

  -- What the labels of a block name.
  abbrev NameLasts : List Interval → ℕ → ℕ → String → Type 0
  NameLasts ivs first last l = LoopLasts ivs first last (start_of whole 0 l)

  labels-Lasts :
      (from : Span) (ls : List String) (ivs : List Interval)
      → All (NameLasts (extend_labels spans from ls ivs) from.first from.last) ls
  unfolding extend_labels
  labels-Lasts from [] ivs = tt
  labels-Lasts from (l ∷ ls) ivs =
      let next = extend_to from (find_span spans l) ivs in
      (
        loop_map next (extend_labels spans from ls next) from.first from.last (start_of whole 0 l)
            (λ lo h. extend_labels-keeps spans lo from.last from ls next (omega arith) h)
            (subst (LoopLasts next from.first from.last) (start_of-span whole 0 l)
              (extend_to-Lasts from (find_span spans l) ivs)),
        labels-Lasts from ls next,
      )

  list-Lasts :
      (ivs : List Interval) (first last : ℕ) (o : Option String)
      → All (NameLasts ivs first last) (label_list o)
      → LabelLasts whole ivs first last o
  list-Lasts ivs first last none h = tt
  list-Lasts ivs first last (some l) h = h.0

  succs-Lasts :
      (ivs : List Interval) (first last : ℕ) (i : Instr)
      → All (NameLasts ivs first last) (succs i)
      → BranchLasts whole ivs first last i
  unfolding succs
  succs-Lasts ivs first last i h = by_jump (op_eq i.op op_br) h
    where
      by_branch :
          (c : Bool)
          → All
              (NameLasts ivs first last)
              (if c then label_list i.label ++ label_list i.label2 else [])
          → When c
              (LabelLasts whole ivs first last i.label × LabelLasts whole ivs first last i.label2)
              Unit
      by_branch true k =
          let parts =
            All-parts (NameLasts ivs first last) (label_list i.label) (label_list i.label2) k in
          (list-Lasts ivs first last i.label parts.0, list-Lasts ivs first last i.label2 parts.1)
      by_branch false k = tt

      by_jump :
          (b : Bool)
          → All (NameLasts ivs first last) (
              if b
              then label_list i.label
              else if op_eq i.op op_cbr
              then label_list i.label ++ label_list i.label2
              else [])
          → When b (LabelLasts whole ivs first last i.label) (
              When
                (op_eq i.op op_cbr)
                (LabelLasts whole ivs first last i.label × LabelLasts whole ivs first last i.label2)
                Unit)
      by_jump true k = list-Lasts ivs first last i.label k
      by_jump false k = by_branch (op_eq i.op op_cbr) k

  instrs-Lasts :
      (ivs : List Interval) (first last : ℕ) (is : List Instr)
      → All (NameLasts ivs first last) (block_succs is)
      → All (BranchLasts whole ivs first last) is
  unfolding block_succs
  instrs-Lasts ivs first last [] h = tt
  instrs-Lasts ivs first last (i ∷ is) h =
      let parts = All-parts (NameLasts ivs first last) (succs i) (block_succs is) h in
      (succs-Lasts ivs first last i parts.0, instrs-Lasts ivs first last is parts.1)

  pub extend_blocks-Last :
      (p : ℕ) (bs : List Block) (ivs : List Interval)
      → LoopsLast whole (extend_blocks spans (block_spans p bs) bs ivs) p bs
  unfolding extend_blocks block_spans
  extend_blocks-Last p [] ivs = tt
  extend_blocks-Last p (b ∷ bs) ivs =
      let last = p + length b.instrs in
      let from : Span = record { name = b.name; first = p; last = last } in
      let next = extend_labels spans from (block_succs b.instrs) ivs in
      let all = extend_blocks spans (block_spans last bs) bs next in
      (
        instrs-Lasts all p last b.instrs (
            All-map (NameLasts next p last) (NameLasts all p last) (block_succs b.instrs)
              (λ l h.
                loop_map next all p last (start_of whole 0 l)
                  (λ lo k. extend_blocks-keeps spans lo last last bs next (omega arith) k) h)
              (labels-Lasts from (block_succs b.instrs) ivs)),
        extend_blocks-Last last bs next,
      )
