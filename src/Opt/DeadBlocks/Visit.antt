-- ===== src/Opt/DeadBlocks/Visit.antt =====
-- One expansion of the search: which blocks a label marks and pushes.
use Prim.Native.String.{String}
use text.Mathlib.Text.{◌==◌ as str_eq}
use mini_asm.Base.{
  ℕ, zero, suc, ◌+◌, ◌<◌, ◌≤◌, ◌≡◌, refl, Bool, true, false, not, ◌&&◌, ◌||◌, List, [], ◌∷◌, arith,
  ◌==◌, length, get_or, set, length-set, get_or-set_self, get_or-set_ne, any_in, sym, ap, ◌∙◌,
  if◌then◌else◌,
}
use mini_asm.Ir.{Block}
use mini_asm.Opt.DeadBlocks.{Search, is_marked, push, visit, visit_all}

-- The flags that are still false.
abbrev pub unmarked : List Bool → ℕ
unmarked [] = 0
unmarked (false ∷ ms) = suc (unmarked ms)
unmarked (true ∷ ms) = unmarked ms

abbrev pub on_stack : Search → ℕ → Bool
on_stack s v = any_in (λ w. w == v) s.stack

-- The block `v` of the list, whose first block has the index `t`, is named `l`.
abbrev pub hits : String → ℕ → List Block → ℕ → Bool
hits l t [] v = false
hits l t (b ∷ bs) v = (v == t && str_eq b.name l) || hits l (suc t) bs v

unmarked-set :
    (ms : List Bool) (i : ℕ)
    → i < length ms
    → get_or ms i false ≡ false
    → suc (unmarked (set ms i true)) ≡ unmarked ms
unmarked-set [] i h e = absurd (omega arith)
unmarked-set (m ∷ ms) zero h e = rw e
unmarked-set (false ∷ ms) (suc i) h e = ap suc (unmarked-set ms i (omega arith) e)
unmarked-set (true ∷ ms) (suc i) h e = unmarked-set ms i (omega arith) e

-- What a step does to the flags, the stack and the work that is left.
pub record Marks (s s' : Search) (hit : ℕ → Bool) : Type 0 where
  pub size : length s'.reachable ≡ length s.reachable
  pub work : unmarked s'.reachable + length s'.stack ≡ unmarked s.reachable + length s.stack
  pub flag : (v : ℕ) → is_marked s' v ≡ (is_marked s v || hit v)
  pub pushed : (v : ℕ) → on_stack s' v ≡ (on_stack s v || (not (is_marked s v) && hit v))

-- The test of one block.
abbrev offer : Search → ℕ → Bool → Search
offer s t named = if named && not (is_marked s t) then push s t else s

offer-Marks :
    (s : Search) (t : ℕ) (named : Bool)
    → t < length s.reachable
    → Marks s (offer s t named) (λ v. v == t && named)
unfolding push
offer-Marks s t named h = record {
  size = ground (arith, length-set s.reachable t true);
  work = ground (arith, unmarked-set s.reachable t);
  flag = λ v.
      ground
        (arith, get_or-set_self s.reachable t true false, get_or-set_ne s.reachable t v true false);
  pushed = λ v. ground arith;
}

push_twice :
    (o m h k : Bool) → ((o || (not m && h)) || (not (m || h) && k)) ≡ (o || (not m && (h || k)))
push_twice true m h k = refl
push_twice false true h k = refl
push_twice false false true k = refl
push_twice false false false k = refl

or_assoc : (a b c : Bool) → ((a || b) || c) ≡ (a || (b || c))
or_assoc true b c = refl
or_assoc false b c = refl

or_false : (a : Bool) → (a || false) ≡ a
or_false true = refl
or_false false = refl

nothing_pushed : (o m : Bool) → (o || (not m && false)) ≡ o
nothing_pushed true m = refl
nothing_pushed false true = refl
nothing_pushed false false = refl

Marks-refl : (s : Search) → Marks s s (λ v. false)
Marks-refl s = record {
  size = refl;
  work = refl;
  flag = λ v. sym (or_false _);
  pushed = λ v. sym (nothing_pushed _ (is_marked s v));
}

Marks-trans :
    (s s' s'' : Search) (h k : ℕ → Bool)
    → Marks s s' h
    → Marks s' s'' k
    → Marks s s'' (λ v. h v || k v)
Marks-trans s s' s'' h k a b = record {
  size = b.size ∙ a.size;
  work = b.work ∙ a.work;
  flag = λ v. b.flag v ∙ ap (λ m. m || k v) (a.flag v) ∙ or_assoc (is_marked s v) (h v) (k v);
  pushed = λ v.
      b.pushed v
      ∙ ap (λ o. o || (not (is_marked s' v) && k v)) (a.pushed v)
      ∙ ap (λ m. (on_stack s v || (not (is_marked s v) && h v)) || (not m && k v)) (a.flag v)
      ∙ push_twice (on_stack s v) (is_marked s v) (h v) (k v);
}

-- A label marks and pushes the blocks of that name.
visit-Marks :
    (l : String) (t : ℕ) (bs : List Block) (s : Search)
    → t + length bs ≤ length s.reachable
    → Marks s (visit l t bs s) (hits l t bs)
unfolding visit
visit-Marks l t [] s h = Marks-refl s
visit-Marks l t (b ∷ bs) s h =
    let first = offer-Marks s t (str_eq b.name l) (omega arith) in
    Marks-trans s (offer s t (str_eq b.name l)) _ (λ v. v == t && str_eq b.name l)
      (hits l (suc t) bs) first
      (visit-Marks l (suc t) bs (offer s t (str_eq b.name l)) (omega (arith, first.size)))

-- Some label of the list names the block `v`.
abbrev pub any_hits : List String → List Block → ℕ → Bool
any_hits ls bs v = any_in (λ l. hits l 0 bs v) ls

pub visit_all-Marks :
    (bs : List Block) (ls : List String) (s : Search)
    → length bs ≤ length s.reachable
    → Marks s (visit_all bs ls s) (any_hits ls bs)
unfolding visit_all
visit_all-Marks bs [] s h = Marks-refl s
visit_all-Marks bs (l ∷ ls) s h =
    let first = visit-Marks l 0 bs s (omega arith) in
    Marks-trans s (visit l 0 bs s) _ (hits l 0 bs) (any_hits ls bs) first
      (visit_all-Marks bs ls (visit l 0 bs s) (omega (arith, first.size)))
