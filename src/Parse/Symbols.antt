-- ===== src/Parse/Symbols.antt =====
-- src/ir/ir_parse.c, `sym_intern`: the registers of the names of a function.
use Prim.Native.String.{String}
use text.Mathlib.Text.{◌==◌ as str_eq}
use text.Mathlib.TextEquality.{eq_iff}
use mini_asm.Base.{
  ℕ, zero, suc, ◌+◌, ◌≤◌, ◌<◌, ◌≡◌, ◌≢◌, refl, ap, List, [], ◌∷◌, ◌++◌, none, some, Option-cases,
  false, Bool-cases, inl, inr, length, leb, arith, All, All-map, All-append, AllPairs,
  AllPairs-concat,
}
use mini_asm.Base.Text.{text_length, text_take}
use mini_asm.Parse.State.{Parser, ok}
use mini_asm.Parse.Names.{find_name, sym_add, sym_lookup, sym_intern}

-- Names are different, and so are their registers, which were all handed out.
abbrev pub IsNamed : List (String × ℕ) → ℕ → Type 0
IsNamed tab next =
    AllPairs (λ (a b : String × ℕ). (a.0 ≢ b.0) × (a.1 ≢ b.1)) tab
    × All (λ (a : String × ℕ). a.1 < next) tab

find_name-none :
    (n : String) (tab : List (String × ℕ))
    → find_name n tab ≡ none
    → All (λ (a : String × ℕ). a.0 ≢ n) tab
unfolding find_name
find_name-none n [] e = tt
find_name-none n ((k, v) ∷ tab) e = elim (Bool-cases (str_eq k n)) [
  | inl t ↦ absurd (cc (rw (find_name, t) at e))
  | inr f ↦ (
    (λ same. absurd (cc (f, (eq_iff k n).1 same))),
    find_name-none n tab (rw (find_name, f) at e),
  )
]

find_name-new :
    (n : String) (v : ℕ) (tab : List (String × ℕ))
    → find_name n tab ≡ none
    → find_name n (tab ++ (n, v) ∷ []) ≡ some v
unfolding find_name
find_name-new n v [] e = rw (find_name, (eq_iff n n).1 refl)
find_name-new n v ((k, w) ∷ tab) e = elim (Bool-cases (str_eq k n)) [
  | inl t ↦ absurd (cc (rw (find_name, t) at e))
  | inr f ↦ rw (find_name, f) (find_name-new n v tab (rw (find_name, f) at e))
]

find_name-old :
    (k : String) (w : ℕ) (tab more : List (String × ℕ))
    → find_name k tab ≡ some w
    → find_name k (tab ++ more) ≡ some w
unfolding find_name
find_name-old k w [] more e = cc
find_name-old k w ((j, x) ∷ tab) more e = elim (Bool-cases (str_eq j k)) [
  | inl t ↦ rw (find_name, t) (rw (find_name, t) at e)
  | inr f ↦ rw (find_name, f) (find_name-old k w tab more (rw (find_name, f) at e))
]

text_take-all : (n : ℕ) (s : String) → text_length s ≤ n → text_take n s ≡ s
text_take-all zero String.[] h = refl
text_take-all zero (String.◌∷◌ c s) h = absurd (omega arith)
text_take-all (suc n) String.[] h = refl
text_take-all (suc n) (String.◌∷◌ c s) h =
    ap (λ r. String.◌∷◌ c r) (text_take-all n s (omega arith))

IsNamed-add :
    (n : String) (next : ℕ) (tab : List (String × ℕ))
    → find_name n tab ≡ none
    → IsNamed tab next
    → IsNamed (tab ++ (n, next) ∷ []) (next + 1)
IsNamed-add n next tab e h = (
  AllPairs-concat (λ (a b : String × ℕ). (a.0 ≢ b.0) × (a.1 ≢ b.1)) tab (n, next) h.0
      (both tab (find_name-none n tab e) h.1),
  All-append (λ (a : String × ℕ). a.1 < next + 1) tab ((n, next) ∷ [])
      (All-map (λ (a : String × ℕ). a.1 < next) (λ (a : String × ℕ). a.1 < next + 1) tab
        (λ a l. omega (arith, l)) h.1)
      (omega arith, tt),
)
  where
    both :
        (xs : List (String × ℕ))
        → All (λ (a : String × ℕ). a.0 ≢ n) xs
        → All (λ (a : String × ℕ). a.1 < next) xs
        → All (λ (a : String × ℕ). (a.0 ≢ n) × (a.1 ≢ next)) xs
    both [] g k = tt
    both (x ∷ xs) g k = ((g.0, (λ same. omega (arith, k.0, same))), both xs g.1 k.1)

-- While the table of a function has room, a name of at most 63 bytes gets a register and finds it
-- again, the names before it keep theirs, and different names stay on different registers that were all
-- handed out, if they were before.
pub sym_intern_lem :
    (n : String) (p : Parser)
    → IsNamed p.symtab p.next_user_vreg
    → text_length n ≤ 63
    → length p.symtab < 1024
    → (v : ℕ) × (q : Parser) × (sym_intern n p ≡ ok (v, q))
      × (sym_lookup n q ≡ some v)
      × ((k : String) (w : ℕ) → sym_lookup k p ≡ some w → sym_lookup k q ≡ some w)
      × IsNamed q.symtab q.next_user_vreg
unfolding sym_intern sym_add sym_lookup
sym_intern_lem n p h l room = elim (Option-cases (sym_lookup n p)) [
  | inr (v, e) ↦ (v, p, rw (sym_intern, e), e, (λ k w g. g), h)
  | inl e ↦ (
    p.next_user_vreg,
    record p {
      symtab = p.symtab ++ (n, p.next_user_vreg) ∷ [];
      next_user_vreg = p.next_user_vreg + 1;
    },
    rw (sym_intern, e, sym_add, not_full (length p.symtab) room, text_take-all 63 n l),
    find_name-new n p.next_user_vreg p.symtab e,
    (λ k w g. find_name-old k w p.symtab ((n, p.next_user_vreg) ∷ []) g),
    IsNamed-add n p.next_user_vreg p.symtab e h,
  )
]
  where
    not_full : (i : ℕ) → i < 1024 → leb 1024 i ≡ false
    not_full i h = ground arith
