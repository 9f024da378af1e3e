-- ===== src/Base/Numerals.antt =====
-- C's `strtoll`, `strtoull` and `atoi` on a text without spaces.
use Prim.Native.Char.{code}
use Prim.Native.String.{String}
use Prim.Native.Nat.{ℕ, ◌+◌, ◌-◌, ◌*◌, ◌%◌}
use mathlib.Core.Bool.{Bool, false, ◌||◌, ◌&&◌}
use mathlib.Core.Path.{◌≡◌, refl}
use mini_asm.Base.Tests.{◌==◌, ltb, leb, if◌then◌else◌}
use mini_asm.Base.Int.{ℤ, pos, negsuc, sub_ℕ, to_int, u64_mod, i64_min_abs}
use mini_asm.Base.Text.{byte_at, text_drop, in_range}

-- The value of a letter or a digit; 36 is no digit in any base.
digit_value : ℕ → ℕ
digit_value c =
    if in_range b'0' b'9' c
    then c - b'0'
    else if in_range b'a' b'z' c
    then c - b'a' + 10
    else if in_range b'A' b'Z' c
    then c - b'A' + 10
    else 36

-- The digits at the front, after those read before.
scan_digits : ℕ → ℕ → String → ℕ
unfolding digit_value
scan_digits base n String.[] = n
scan_digits base n (String.◌∷◌ c s) =
    let rest = scan_digits base (n * base + digit_value (code c)) s in
    if ltb (digit_value (code c)) base then rest else n

-- "0x" or "0X" before a digit.
has_hex : String → Bool
unfolding digit_value
has_hex s =
    (byte_at s 0 == b'0')
    && ((byte_at s 1 == b'x') || (byte_at s 1 == b'X'))
    && ltb (digit_value (byte_at s 2)) 16

-- The base that the prefix tells.
magnitude : String → ℕ
unfolding scan_digits has_hex
magnitude s =
    if has_hex s
    then scan_digits 16 0 (text_drop 2 s)
    else if byte_at s 0 == b'0'
    then scan_digits 8 0 s
    else scan_digits 10 0 s

has_sign : String → Bool
has_sign s = (byte_at s 0 == b'-') || (byte_at s 0 == b'+')

after_sign : String → String
unfolding has_sign
after_sign s = if has_sign s then text_drop 1 s else s

-- A number with a sign, held to the range of `long long`.
clamp : Bool → ℕ → ℤ
clamp minus n =
    if minus
    then (if leb i64_min_abs n then negsuc (i64_min_abs - 1) else sub_ℕ 0 n)
    else (if leb i64_min_abs n then pos (i64_min_abs - 1) else pos n)

-- `strtoll(s, NULL, 0)`.
unfoldable pub strtoll : String → ℤ
unfolding clamp magnitude after_sign
strtoll s = clamp (byte_at s 0 == b'-') (magnitude (after_sign s))

-- `strtoull(s, NULL, 0)`.
unfoldable pub strtoull : String → ℕ
unfolding magnitude after_sign
strtoull s =
    let n = magnitude (after_sign s) in
    if leb u64_mod n
    then u64_mod - 1
    else if byte_at s 0 == b'-'
    then (u64_mod - n) % u64_mod
    else n

-- `atoi(s)` where the text starts with a digit: `strtol` cut to an `int`.
unfoldable pub atoi : String → ℤ
unfolding clamp scan_digits
atoi s = to_int (clamp false (scan_digits 10 0 s))

strtoll_test : (strtoll "-0x1F" ≡ negsuc 30) × (strtoll "017" ≡ pos 15) × (strtoll "42," ≡ pos 42)
unfolding strtoll clamp magnitude after_sign has_sign has_hex scan_digits digit_value
strtoll_test = (refl, refl, refl)
