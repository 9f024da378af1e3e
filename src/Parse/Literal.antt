-- ===== src/Parse/Literal.antt =====
-- src/ir/ir_parse.c, `read_string_literal`: a text written as a literal is read back.
use Prim.Native.Char.{Char, code}
use Prim.Native.String.{String}
use mini_asm.Base.{
  ℕ, ◌≡◌, refl, sym, ap, ◌∙◌, List, Option, none, some, false, ◌==◌, ==_iff, Bool-cases, inl, inr,
  if◌then◌else◌,
}
use mini_asm.Base.Text.{codes}
use mini_asm.Parse.Operand.{escaped, keep_byte, read_chars, read_string_literal}

-- The letter after the backslash, for the bytes that are written with one.
abbrev pub escape_of : ℕ → Option Char
escape_of c =
    if c == 34
    then some "\""
    else if c == 92
    then some "\\"
    else if c == 10
    then some "n"
    else if c == 9
    then some "t"
    else if c == 13
    then some "r"
    else if c == 0
    then some "0"
    else none

abbrev escape_then : Char → Option Char → String → String
escape_then c none s = String.◌∷◌ c s
escape_then c (some e) s = String.◌∷◌ "\\" (String.◌∷◌ e s)

-- A text written between quotes, its opening quote left out, before the rest of a file.
abbrev pub quoted : String → String → String
quoted String.[] rest = String.◌∷◌ "\"" rest
quoted (String.◌∷◌ c s) rest = escape_then c (escape_of (code c)) (quoted s rest)

-- An escape is read as the byte.
read_escape :
    (c e : Char) (s : String)
    → escaped (code e) ≡ code c
    → read_chars false (String.◌∷◌ "\\" (String.◌∷◌ e s)) ≡ keep_byte (code c) (read_chars false s)
unfolding read_chars
read_escape c e s h = ap (λ n. keep_byte n (read_chars false s)) h

read_plain :
    (c : Char) (s : String)
    → (code c == 34) ≡ false
    → (code c == 92) ≡ false
    → read_chars false (String.◌∷◌ c s) ≡ keep_byte (code c) (read_chars false s)
unfolding read_chars
read_plain c s h k = rw (read_chars, h, k)

escape_cases :
    (c : Char) (s : String)
    → read_chars false (escape_then c (escape_of (code c)) s)
      ≡ keep_byte (code c) (read_chars false s)
escape_cases c s = elim (Bool-cases (code c == 34)) [
  | inl e ↦ rw e (read_escape c "\"" s (sym ((==_iff _ _).0 e)))
  | inr n1 ↦ elim (Bool-cases (code c == 92)) [
    | inl e ↦ rw (n1, e) (read_escape c "\\" s (sym ((==_iff _ _).0 e)))
    | inr n2 ↦ elim (Bool-cases (code c == 10)) [
      | inl e ↦ rw (n1, n2, e) (read_escape c "n" s (sym ((==_iff _ _).0 e)))
      | inr n3 ↦ elim (Bool-cases (code c == 9)) [
        | inl e ↦ rw (n1, n2, n3, e) (read_escape c "t" s (sym ((==_iff _ _).0 e)))
        | inr n4 ↦ elim (Bool-cases (code c == 13)) [
          | inl e ↦ rw (n1, n2, n3, n4, e) (read_escape c "r" s (sym ((==_iff _ _).0 e)))
          | inr n5 ↦ elim (Bool-cases (code c == 0)) [
            | inl e ↦ rw (n1, n2, n3, n4, n5, e) (read_escape c "0" s (sym ((==_iff _ _).0 e)))
            | inr n6 ↦ rw (n1, n2, n3, n4, n5, n6) (read_plain c s n1 n2)
          ]
        ]
      ]
    ]
  ]
]

read_chars-quoted : (s rest : String) → read_chars false (quoted s rest) ≡ (codes s, rest)
unfolding read_chars
read_chars-quoted String.[] rest = refl
read_chars-quoted (String.◌∷◌ c s) rest =
    escape_cases c (quoted s rest) ∙ ap (keep_byte (code c)) (read_chars-quoted s rest)

-- A text written between quotes, with a backslash before each quote and backslash and with n, t, r and
-- 0 for the four control bytes, is read back byte for byte, and the rest of the file is left.
pub read_string_literal-quoted :
    (s rest : String)
    → read_string_literal (String.◌∷◌ "\"" (quoted s rest)) ≡ (some (codes s), rest)
unfolding read_string_literal
read_string_literal-quoted s rest =
    ap (λ (r : List ℕ × String). (some r.0, r.1)) (read_chars-quoted s rest)
