-- ===== src/Opt/DeadBlocks/Reach.antt =====
-- On the search of `dead_block_elim`, src/backend/opt.c: what it marks.
use mini_asm.Base.{
  ℕ, zero, suc, ◌+◌, ◌≤◌, ◌≡◌, ◌↔◌, refl, Bool, true, false, ◌||◌, List, [], ◌∷◌, some, arith, ◌==◌,
  ==_iff, ◌⊎◌, Bool-cases, inl, inr, length, get_or, any_in, sym, ap, ◌∙◌, replicate,
  length-replicate, get_or-replicate,
}
use mini_asm.Ir.{Block}
use mini_asm.Opt.DeadBlocks.{
  Search, is_marked, push, visit_all, labels_at, search_loop, search_start, keep_marked, prune,
}
use mini_asm.Opt.DeadBlocks.Visit.{unmarked, on_stack, any_hits, visit_all-Marks}

-- The test of the search.
abbrev pub Hits : List Block → ℕ → ℕ → Type 0
Hits bs u v = any_hits (labels_at bs u) bs v ≡ true

-- The blocks that chains of tests lead to.
pub data Found (bs : List Block) : ℕ → Type 0 where
  entry : Found bs 0
  branch : {u v : ℕ} → Found bs u → Hits bs u v → Found bs v

or_true : (a b : Bool) → b ≡ true → (a || b) ≡ true
or_true true b h = refl
or_true false b h = h

List-cases {ℓ} :
    {A : Type ℓ} (xs : List A) → (xs ≡ []) ⊎ ((x : A) × (rest : List A) × (xs ≡ x ∷ rest))
List-cases [] = inl refl
List-cases (x ∷ xs) = inr (x, xs, refl)

empty_stack : (t : Search) (u : ℕ) → t.stack ≡ [] → on_stack t u ≡ true → ⊥
empty_stack t u e h = cc (sym (ap (any_in (λ w. w == u)) e) ∙ h)

unmarked-replicate : (n : ℕ) → unmarked (replicate n false) ≡ n
unmarked-replicate zero = refl
unmarked-replicate (suc n) = ap suc (unmarked-replicate n)

module _ (bs : List Block) where
  pub record Inv (s : Search) : Type 0 where
    pub size : length s.reachable ≡ length bs
    pub first : is_marked s 0 ≡ true
    pub stacked : (v : ℕ) → on_stack s v ≡ true → is_marked s v ≡ true
    pub sound : (v : ℕ) → is_marked s v ≡ true → Found bs v
    pub closed :
        (u v : ℕ)
        → is_marked s u ≡ true
        → Hits bs u v
        → (on_stack s u ≡ true) ⊎ (is_marked s v ≡ true)

  abbrev expand : Search → ℕ → List ℕ → Search
  expand s i rest = visit_all bs (labels_at bs i) (record s { stack = rest })

  expand-Inv :
      (s : Search) (i : ℕ) (rest : List ℕ) → s.stack ≡ i ∷ rest → Inv s → Inv (expand s i rest)
  expand-Inv s i rest e h =
      let m =
        visit_all-Marks bs (labels_at bs i) (record s { stack = rest }) (omega (arith, h.size)) in
      let top : is_marked s i ≡ true = h.stacked i (rw e (ground arith)) in
      let on_s = λ (v : ℕ). ap (any_in (λ w. w == v)) e in
      record {
        size = m.size ∙ h.size;
        first = m.flag 0 ∙ ground (arith, h.first);
        stacked = λ v o. ground (arith, m.flag v, m.pushed v, on_s v, h.stacked v);
        sound = λ v k. elim (Bool-cases (is_marked s v)) [
          | inl t ↦ h.sound v t
          | inr t ↦ branch (h.sound i top) (ground (arith, m.flag v))
        ];
        closed = λ u v k edge. elim (Bool-cases (u == i)) [
          | inl t ↦
              let same = (==_iff u i).0 t in
              inr (m.flag v ∙ or_true (is_marked s v) _ (rw same at edge))
          | inr t ↦ ground (
            arith,
            m.flag u,
            m.flag v,
            m.pushed u,
            on_s u,
            λ (q : is_marked s u ≡ true). h.closed u v q edge,
          )
        ];
      }

  -- The blocks that are still to be marked or expanded.
  abbrev work_left : Search → ℕ
  work_left s = unmarked s.reachable + length s.stack

  -- The loop ends within `work_left` rounds, with an empty stack and the invariant.
  search_loop_total :
      (fuel : ℕ) (s : Search)
      → Inv s
      → work_left s ≤ fuel
      → (t : Search) × (search_loop fuel bs s ≡ some t) × Inv t × (t.stack ≡ [])
  unfolding search_loop
  search_loop_total zero s h w = elim (List-cases s.stack) [
    | inl empty ↦ (s, simp (empty, search_loop), h, empty)
    | inr (i, rest, e) ↦ absurd (omega (arith, ap length e))
  ]
  search_loop_total (suc fuel) s h w = elim (List-cases s.stack) [
    | inl empty ↦ (s, simp (empty, search_loop), h, empty)
    | inr (i, rest, e) ↦
        let m =
          visit_all-Marks bs (labels_at bs i) (record s { stack = rest }) (omega (arith, h.size)) in
        let ih =
          search_loop_total fuel (expand s i rest) (expand-Inv s i rest e h)
            (omega (arith, m.work, ap length e)) in
        rw (e, search_loop) ih
  ]

  -- With an empty stack the marked blocks are closed under branches.
  complete : (t : Search) → Inv t → t.stack ≡ [] → {v : ℕ} → Found bs v → is_marked t v ≡ true
  complete t h e entry = h.first
  complete t h e (branch {u} {v} r edge) = elim (h.closed u v (complete t h e r) edge) [
    | inl waiting ↦ absurd (empty_stack t u e waiting)
    | inr k ↦ k
  ]

module _ (b : Block) (bs : List Block) where
  abbrev all : List Block
  all = b ∷ bs

  start-marked : (v : ℕ) → is_marked (search_start (length all)) v ≡ true → v ≡ 0
  unfolding search_start push
  start-marked zero h = refl
  start-marked (suc v) h = absurd (cc (sym (get_or-replicate (length bs) v false) ∙ h))

  start-stacked :
      (v : ℕ)
      → on_stack (search_start (length all)) v ≡ true
      → is_marked (search_start (length all)) v ≡ true
  unfolding search_start push
  start-stacked zero o = refl
  start-stacked (suc v) o = ground arith

  start-work : work_left all (search_start (length all)) ≤ length all
  unfolding search_start push
  start-work = omega (arith, unmarked-replicate (length bs))

  start-Inv : Inv all (search_start (length all))
  unfolding search_start push
  start-Inv = record {
    size = ap suc (length-replicate (length bs) false);
    first = refl;
    stacked = λ v o. start-stacked v o;
    sound = λ v k. rw (start-marked v k) entry;
    closed = λ u v k edge. inl (rw (start-marked u k) refl);
  }

  search_result :
      (t : Search) × (search_loop (length all) all (search_start (length all)) ≡ some t)
      × Inv all t
      × (t.stack ≡ [])
  search_result =
      search_loop_total all (length all) (search_start (length all)) start-Inv start-work

  -- The flags of the search.
  pub prune_marks :
      (ms : List Bool) × (prune all ≡ some (keep_marked ms all))
      × (length ms ≡ length all)
      × ((v : ℕ) → (get_or ms v false ≡ true) ↔ Found all v)
  unfolding prune
  prune_marks =
      let (t, e, inv, empty) = search_result in
      (t.reachable, rw e, inv.size, λ v. (inv.sound v, λ r. complete all t inv empty r))
