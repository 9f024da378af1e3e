-- ===== src/Parse/Halts.antt =====
-- src/ir/ir_parse.c: a part of the parser that halts, that is, leaves no more of the file than it found and does not
-- stop for want of fuel; a part that reads something; and the rules that put parts together.
pub mod Words
pub mod Loops
pub mod Operands
pub mod Instrs
pub mod Run
use mini_asm.Base.{
  ℕ, zero, suc, ◌≤◌, ◌<◌, ◌≡◌, ◌≢◌, refl, ◌∙◌, sym, ap, Bool, true, false, Option, none, some,
  arith, if◌then◌else◌, ◌⊎◌, inl, inr,
}
use mini_asm.Base.Text.{text_length}
use mini_asm.Parse.State.{
  Fault, out_of_fuel, Result, ok, err, Parser, Parse, ◌>>=◌, ret, skip_blanks,
}

abbrev pub left : Parser → ℕ
left p = text_length p.input

-- At most `n` bytes are left, or a fault of the source was met.
abbrev pub Ends : {A : Type 0} → ℕ → Result (A × Parser) → Type 0
Ends n (ok (a, p)) = left p ≤ n
Ends n (err e) = e ≢ out_of_fuel

abbrev pub Halts : {A : Type 0} → Parse A → Type 0
Halts m = (p : Parser) → Ends (left p) (m p)

-- The same from at most `n` bytes.
abbrev pub Within : {A : Type 0} → ℕ → Parse A → Type 0
Within n m = (p : Parser) → left p ≤ n → Ends n (m p)

-- The file is at a byte that is no blank.
abbrev pub IsAtWord : Parser → Type 0
IsAtWord p = (skip_blanks false p.input ≡ p.input) × (left p ≢ 0)

abbrev pub WithinAt : {A : Type 0} → ℕ → Parse A → Type 0
WithinAt n m = (p : Parser) → left p ≤ n → IsAtWord p → Ends n (m p)

-- Fewer bytes are left, or a fault of the source was met.
abbrev pub Shrinks : {A : Type 0} → ℕ → Result (A × Parser) → Type 0
Shrinks n (ok (a, p)) = left p < n
Shrinks n (err e) = e ≢ out_of_fuel

abbrev pub EatsAt : {A : Type 0} → Parse A → Type 0
EatsAt m = (p : Parser) → IsAtWord p → Shrinks (left p) (m p)

Result-cases :
    {A : Type 0} (r : Result (A × Parser))
    → ((a : A) × (p : Parser) × (r ≡ ok (a, p))) ⊎ ((e : Fault) × (r ≡ err e))
Result-cases (ok (a, p)) = inl (a, p, refl)
Result-cases (err e) = inr (e, refl)

pub loosen : {A : Type 0} (n k : ℕ) (r : Result (A × Parser)) → n ≤ k → Ends n r → Ends k r
loosen n k (ok (a, p)) h e = omega (arith, h, e)
loosen n k (err _) h e = e

pub Halts-Within : {A : Type 0} (n : ℕ) (m : Parse A) → Halts m → Within n m
Halts-Within n m h p l = loosen (left p) n (m p) l (h p)

pub Halts-WithinAt : {A : Type 0} (n : ℕ) (m : Parse A) → Halts m → WithinAt n m
Halts-WithinAt n m h p l w = loosen (left p) n (m p) l (h p)

pub ret-Halts : {A : Type 0} (a : A) → Halts (ret a)
ret-Halts a p = omega arith

bind_Ends :
    {A B : Type 0} (m : Parse A) (f : A → Parse B) (p : Parser) (n : ℕ)
    → Ends n (m p)
    → ((a : A) → Within n (f a))
    → Ends n ((m >>= f) p)
bind_Ends m f p n g k = elim (Result-cases (m p)) [
  | inl (a, q, e) ↦ rw (◌>>=◌, e) (k a q (rw e at g))
  | inr (x, e) ↦ rw (◌>>=◌, e) (rw e at g)
]

pub bind-Halts :
    {A B : Type 0} (m : Parse A) (f : A → Parse B)
    → Halts m
    → ((a : A) → Halts (f a))
    → Halts (m >>= f)
bind-Halts m f g k p = bind_Ends m f p (left p) (g p) (λ a. Halts-Within (left p) (f a) (k a))

pub bind-Within :
    {A B : Type 0} (n : ℕ) (m : Parse A) (f : A → Parse B)
    → Within n m
    → ((a : A) → Within n (f a))
    → Within n (m >>= f)
bind-Within n m f g k p l = bind_Ends m f p n (g p l) k

-- After something was read, the rest runs on fewer bytes.
pub eat_then :
    {A B : Type 0} (n : ℕ) (m : Parse A) (f : A → Parse B)
    → EatsAt m
    → ((a : A) (j : ℕ) → n ≡ suc j → Within j (f a))
    → WithinAt n (m >>= f)
eat_then zero m f g k p l w = absurd (w.1 (omega (arith, l)))
eat_then (suc j) m f g k p l w = elim (Result-cases (m p)) [
  | inl (a, q, e) ↦
      rw (◌>>=◌, e)
        (loosen j (suc j) (f a q) (omega arith) (
          k a j refl q
            (let small : Shrinks (left p) (m p) = g p w in omega (arith, l, rw e at small))))
  | inr (x, e) ↦ let small : Shrinks (left p) (m p) = g p w in rw (◌>>=◌, e) (rw e at small)
]

loosen_below : {A : Type 0} (n k : ℕ) (r : Result (A × Parser)) → n < k → Ends n r → Shrinks k r
loosen_below n k (ok (a, p)) h e = omega (arith, h, e)
loosen_below n k (err x) h e = e

pub bind-EatsAt :
    {A B : Type 0} (m : Parse A) (f : A → Parse B)
    → EatsAt m
    → ((a : A) → Halts (f a))
    → EatsAt (m >>= f)
bind-EatsAt m f g k p w =
    let small : Shrinks (left p) (m p) = g p w in
    elim (Result-cases (m p)) [
      | inl (a, q, e) ↦
          rw (◌>>=◌, e) (loosen_below (left q) (left p) (f a q) (rw e at small) (k a q))
      | inr (x, e) ↦ rw (◌>>=◌, e) (rw e at small)
    ]
