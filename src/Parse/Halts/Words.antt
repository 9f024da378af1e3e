-- ===== src/Parse/Halts/Words.antt =====
-- src/ir/ir_parse.c: `peekc` and `word` halt, and a word that is found is read.
use Prim.Native.Char.{code}
use Prim.Native.String.{String}
use mini_asm.Base.{
  ℕ, suc, ◌-◌, ◌≤◌, ◌<◌, ◌≡◌, ◌≢◌, refl, sym, ap, ◌∙◌, Bool, true, false, Option, none, some, ◌==◌,
  ◌||◌, Bool-cases, inl, inr, arith,
}
use mini_asm.Base.Text.{text_length, isspace, c_string}
use mini_asm.Parse.State.{
  out_of_fuel, Result, ok, err, Parser, Parse, ◌>>=◌, skip_blanks, first_byte, peekc, is_delim,
  read_token, take_word, word, filled, after_first, fgetc,
}
use mini_asm.Parse.Halts.{left, Ends, Halts, Within, WithinAt, Shrinks, EatsAt, loosen}

skip_blanks-le : (b : Bool) (s : String) → text_length (skip_blanks b s) ≤ text_length s
unfolding skip_blanks
skip_blanks-le false String.[] = omega arith
skip_blanks-le true String.[] = omega arith
skip_blanks-le true (String.◌∷◌ c s) = ground (arith, skip_blanks-le true s, skip_blanks-le false s)
skip_blanks-le false (String.◌∷◌ c s) =
    ground (arith, skip_blanks-le true s, skip_blanks-le false s)

-- The text is empty or starts with no blank.
abbrev StartsPlain : String → Type 0
StartsPlain String.[] = Unit
StartsPlain (String.◌∷◌ c s) =
    (((code c == b'#') || (code c == b';')) ≡ false) × (isspace (code c) ≡ false)

skip_blanks-StartsPlain : (b : Bool) (s : String) → StartsPlain (skip_blanks b s)
unfolding skip_blanks
skip_blanks-StartsPlain false String.[] = tt
skip_blanks-StartsPlain true String.[] = tt
skip_blanks-StartsPlain true (String.◌∷◌ c s) = elim (Bool-cases (code c == b'\n')) [
  | inl e ↦ rw (skip_blanks, e) (skip_blanks-StartsPlain false s)
  | inr e ↦ rw (skip_blanks, e) (skip_blanks-StartsPlain true s)
]
skip_blanks-StartsPlain false (String.◌∷◌ c s) =
    elim (Bool-cases ((code c == b'#') || (code c == b';'))) [
      | inl e ↦ rw (skip_blanks, e) (skip_blanks-StartsPlain true s)
      | inr e ↦ elim (Bool-cases (isspace (code c))) [
        | inl f ↦ rw (skip_blanks, e, f) (skip_blanks-StartsPlain false s)
        | inr f ↦ rw (skip_blanks, e, f) (e, f)
      ]
    ]

skip_blanks-plain : (s : String) → StartsPlain s → skip_blanks false s ≡ s
unfolding skip_blanks
skip_blanks-plain String.[] h = refl
skip_blanks-plain (String.◌∷◌ c s) h = rw (skip_blanks, h.0, h.1)

read_token-le : (n : ℕ) (s : String) → text_length (read_token n s).1 ≤ text_length s
unfolding read_token
read_token-le n String.[] = omega arith
read_token-le n (String.◌∷◌ c s) = ground (arith, read_token-le (n - 1) s)

-- A word at the front takes a byte at least.
abbrev Takes : ℕ → Option (String × String) → Type 0
Takes n none = Unit
Takes n (some (w, rest)) = text_length rest < n

take_word-Takes : (size : ℕ) (s : String) → StartsPlain s → Takes (text_length s) (take_word size s)
unfolding take_word read_token
take_word-Takes size String.[] h = tt
take_word-Takes size (String.◌∷◌ c s) h = elim (Bool-cases (is_delim (code c))) [
  | inl d ↦ rw (take_word, d) (omega arith)
  | inr d ↦ rw (take_word, d, read_token, h.1) (omega (arith, read_token-le (size - 1 - 1) s))
]

-- With a word ahead, one is found.
take_word-finds : (size : ℕ) (s : String) → text_length s ≢ 0 → take_word size s ≢ none
unfolding take_word
take_word-finds size String.[] h e = h (omega arith)
take_word-finds size (String.◌∷◌ c s) h e = cc

skipped-Takes :
    (size : ℕ) (s : String) → Takes (text_length s) (take_word size (skip_blanks false s))
skipped-Takes size s =
    weaken (take_word size (skip_blanks false s))
      (take_word-Takes size (skip_blanks false s) (skip_blanks-StartsPlain false s))
  where
    weaken :
        (o : Option (String × String))
        → Takes (text_length (skip_blanks false s)) o
        → Takes (text_length s) o
    weaken none h = tt
    weaken (some (w, rest)) h = omega (arith, h, skip_blanks-le false s)

-- A word that is found is read.
abbrev Reads : ℕ → Result (Option String × Parser) → Type 0
Reads n (ok (none, p)) = left p ≤ n
Reads n (ok (some w, p)) = left p < n
Reads n (err e) = e ≢ out_of_fuel

word-Reads : (size : ℕ) (p : Parser) → Reads (left p) (word size p)
unfolding word
word-Reads size p =
    by_word (take_word size (skip_blanks false p.input)) (skipped-Takes size p.input)
  where
    by_word :
        (o : Option (String × String))
        → Takes (left p) o
        → Reads (left p) (elim o [
          | none ↦ ok (none, record p { input = "" })
          | some (w, rest) ↦ ok (some (c_string w), record p { input = rest })
        ])
    by_word none h = omega arith
    by_word (some (w, rest)) h = h

pub word-Halts : (size : ℕ) → Halts (word size)
word-Halts size p = weaken (word size p) (word-Reads size p)
  where
    weaken : (r : Result (Option String × Parser)) → Reads (left p) r → Ends (left p) r
    weaken (ok (none, q)) h = h
    weaken (ok (some w, q)) h = omega (arith, h)
    weaken (err e) h = h

pub filled-Halts : (w : Option String) → Halts (filled w)
filled-Halts none = λ p e. cc
filled-Halts (some w) = λ p. omega arith

pub peekc-Halts : Halts peekc
unfolding peekc
peekc-Halts p = skip_blanks-le false p.input

pub fgetc-Halts : Halts fgetc
unfolding fgetc
fgetc-Halts p = after_first-le p.input
  where
    after_first-le : (s : String) → text_length (after_first s) ≤ text_length s
    after_first-le String.[] = omega arith
    after_first-le (String.◌∷◌ c s) = omega arith

pub fgetc-EatsAt : EatsAt fgetc
unfolding fgetc
fgetc-EatsAt p w = after_first-lt p.input w.1
  where
    after_first-lt : (s : String) → text_length s ≢ 0 → text_length (after_first s) < text_length s
    after_first-lt String.[] h = absurd (h (omega arith))
    after_first-lt (String.◌∷◌ c s) h = omega arith

pub word-EatsAt : (size : ℕ) → EatsAt (word size)
unfolding word
word-EatsAt size p (e, n) =
    by_word (take_word size (skip_blanks false p.input)) (skipped-Takes size p.input)
      (λ none_found. take_word-finds size p.input n (ap (take_word size) (sym e) ∙ none_found))
  where
    by_word :
        (o : Option (String × String))
        → Takes (left p) o
        → o ≢ none
        → Shrinks (left p) (elim o [
          | none ↦ ok (none, record p { input = "" })
          | some (w, rest) ↦ ok (some (c_string w), record p { input = rest })
        ])
    by_word none h k = absurd (k refl)
    by_word (some (w, rest)) h k = h

-- After a word the rest runs on fewer bytes.
pub word_then :
    {B : Type 0} (n size : ℕ) (f : Option String → Parse B)
    → Within n (f none)
    → ((w : String) (j : ℕ) → n ≡ suc j → Within j (f (some w)))
    → Within n (word size >>= f)
word_then n size f g k p l = by_result (word size p) (word-Reads size p)
  where
    some_then :
        (j : ℕ) → n ≡ suc j → (w : String) (q : Parser) → left q < left p → Ends n (f (some w) q)
    some_then j e w q h =
        loosen j n (f (some w) q) (omega (arith, e)) (k w j e q (omega (arith, h, l, e)))

    by_result :
        (r : Result (Option String × Parser))
        → Reads (left p) r
        → Ends n (elim r [ err e ↦ err e | ok (w, q) ↦ f w q ])
    by_result (ok (none, q)) h = g q (omega (arith, h, l))
    by_result (ok (some w, q)) h = some_then (n - 1) (omega (arith, h, l)) w q h
    by_result (err e) h = h

-- After a peek the rest runs at a byte that is no blank, unless the file ended.
pub peek_then :
    {B : Type 0} (n : ℕ) (f : Option ℕ → Parse B)
    → Within n (f none)
    → ((c : ℕ) → WithinAt n (f (some c)))
    → Within n (peekc >>= f)
unfolding peekc
peek_then n f g k p l =
    by_text (skip_blanks false p.input) (skip_blanks-StartsPlain false p.input)
      (omega (arith, l, skip_blanks-le false p.input))
  where
    by_text :
        (x : String)
        → StartsPlain x
        → text_length x ≤ n
        → Ends n (f (first_byte x) (record p { input = x }))
    by_text String.[] s h = g (record p { input = "" }) h
    by_text (String.◌∷◌ c x) s h =
        k (code c) (record p { input = String.◌∷◌ c x }) h
          (skip_blanks-plain (String.◌∷◌ c x) s, (λ e. omega (arith, e)))
