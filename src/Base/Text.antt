-- ===== src/Base/Text.antt =====
-- C's strings as texts: a character stands for a byte, and the end of the text for the byte 0.
use Prim.Native.Char.{code}
use Prim.Native.String.{String}
use Prim.Native.Nat.{ℕ, zero, suc}
use mathlib.Core.Bool.{Bool, true, false, ◌||◌, ◌&&◌}
use mathlib.Core.List.{List, [], ◌∷◌}
use mini_asm.Base.Tests.{◌==◌, leb}

-- The number of characters.
abbrev pub text_length : String → ℕ
text_length String.[] = 0
text_length (String.◌∷◌ c s) = suc (text_length s)

-- The first characters.
abbrev pub text_take : ℕ → String → String
text_take zero s = ""
text_take (suc n) String.[] = ""
text_take (suc n) (String.◌∷◌ c s) = String.◌∷◌ c (text_take n s)

-- All but the first characters.
abbrev pub text_drop : ℕ → String → String
text_drop zero s = s
text_drop (suc n) String.[] = ""
text_drop (suc n) (String.◌∷◌ c s) = text_drop n s

-- `s[i]`, which is 0 at the end of the text.
abbrev pub byte_at : String → ℕ → ℕ
byte_at String.[] i = 0
byte_at (String.◌∷◌ c s) zero = code c
byte_at (String.◌∷◌ c s) (suc i) = byte_at s i

-- `strchr(s, b)` for a byte that is not 0.
abbrev pub has_byte : ℕ → String → Bool
has_byte b String.[] = false
has_byte b (String.◌∷◌ c s) = (code c == b) || has_byte b s

-- The bytes before the first 0, as a C function reads them.
abbrev pub c_string : String → String
c_string String.[] = ""
c_string (String.◌∷◌ c s) = elim (code c == 0) [ true ↦ "" | false ↦ String.◌∷◌ c (c_string s) ]

-- The bytes of a text.
abbrev pub codes : String → List ℕ
codes String.[] = []
codes (String.◌∷◌ c s) = code c ∷ codes s

-- `c >= lo && c <= hi`.
abbrev pub in_range : ℕ → ℕ → ℕ → Bool
in_range lo hi c = leb lo c && leb c hi

-- `isspace` in the "C" locale.
abbrev pub isspace : ℕ → Bool
isspace c = in_range 9 13 c || (c == 32)

abbrev pub is_digit : ℕ → Bool
is_digit c = in_range b'0' b'9' c
