-- ===== src/Base/Text.antt =====
-- Strings are their UTF-8 bytes.
use Prim.Native.Nat.{ℕ, zero, suc, ◌+◌, ◌/◌, ◌%◌}
use Prim.Native.Char.{code}
use Prim.Native.String.{String}
use mathlib.Core.List.{[], ◌∷◌, ◌++◌}
use package.client_rust_test.Base.Order.{Bytes}
use package.client_rust_test.Base.Tests.{ltb, leb, if◌then◌else◌, ◌==◌}
use mathlib.Core.Bool.{Bool, true, false, ◌&&◌, ◌||◌, not}

-- The bytes of one code point.
utf8 : ℕ → Bytes
utf8 c =
    if ltb c 0x80
    then c ∷ []
    else if ltb c 0x800
    then (0xc0 + c / 64) ∷ (0x80 + c % 64) ∷ []
    else if ltb c 0x1_0000
    then (0xe0 + c / 4096) ∷ (0x80 + c / 64 % 64) ∷ (0x80 + c % 64) ∷ []
    else (0xf0 + c / 0x4_0000)
      ∷ (0x80 + c / 4096 % 64)
      ∷ (0x80 + c / 64 % 64)
      ∷ (0x80 + c % 64)
      ∷ []

unfoldable pub text : String → Bytes
unfolding utf8
text String.[] = []
text (String.◌∷◌ c s) = utf8 (code c) ++ text s

-- The well-formed sequences of `String::from_utf8`: of one byte to four, with the second byte kept
-- off overlong forms, surrogates and what lies above 0x10FFFF.
abbrev between : ℕ → ℕ → ℕ → Bool
between low high x = leb low x && leb x high

abbrev tail_byte : ℕ → Bool
tail_byte = between 0x80 0xbf

abbrev one_byte : ℕ → Bool
one_byte a = ltb a 0x80

abbrev two_bytes : ℕ → ℕ → Bool
two_bytes a b = between 0xc2 0xdf a && tail_byte b

abbrev three_bytes : ℕ → ℕ → ℕ → Bool
three_bytes a b c =
    tail_byte c
    && ((a == 0xe0 && between 0xa0 0xbf b)
        || (a == 0xed && between 0x80 0x9f b)
        || ((between 0xe1 0xec a || between 0xee 0xef a) && tail_byte b))

abbrev four_bytes : ℕ → ℕ → ℕ → ℕ → Bool
four_bytes a b c d =
    tail_byte c
    && tail_byte d
    && ((a == 0xf0 && between 0x90 0xbf b)
        || (a == 0xf4 && between 0x80 0x8f b)
        || (between 0xf1 0xf3 a && tail_byte b))

unfoldable pub is_utf8 : Bytes → Bool
is_utf8 [] = true
is_utf8 (a ∷ []) = one_byte a
is_utf8 (a ∷ b ∷ []) = (one_byte a && is_utf8 (b ∷ [])) || two_bytes a b
is_utf8 (a ∷ b ∷ c ∷ []) =
    (one_byte a && is_utf8 (b ∷ c ∷ [])) || (two_bytes a b && is_utf8 (c ∷ [])) || three_bytes a b c
is_utf8 (a ∷ b ∷ c ∷ d ∷ rest) =
    (one_byte a && is_utf8 (b ∷ c ∷ d ∷ rest))
    || (two_bytes a b && is_utf8 (c ∷ d ∷ rest))
    || (three_bytes a b c && is_utf8 (d ∷ rest))
    || (four_bytes a b c d && is_utf8 rest)

-- `!c.is_control()` of every character of a well-formed text.
unfoldable pub no_control : Bytes → Bool
no_control [] = true
no_control (a ∷ rest) =
    not (ltb a 0x20) && not (a == 0x7f) && not (a == 0xc2 && next_low rest) && no_control rest
  where
    next_low : Bytes → Bool
    next_low [] = false
    next_low (b ∷ bs) = ltb b 0xa0

-- The decimal digits of a number, which are at most its own count and one.
unfoldable pub digits_of : ℕ → ℕ → Bytes → Bytes
digits_of zero n out = out
digits_of (suc fuel) n out =
    let more = digits_of fuel (n / 10) ((48 + n % 10) ∷ out) in
    if ltb n 10 then (48 + n) ∷ out else more

unfoldable pub decimal : ℕ → Bytes
unfolding digits_of
decimal n = digits_of (suc n) n []

-- The bytes of the white space character that text begins with, or none.
abbrev space_two : ℕ → ℕ → Bool
space_two a b = (a == 0xc2) && ((b == 0x85) || (b == 0xa0))

abbrev space_three : ℕ → ℕ → ℕ → Bool
space_three a b c =
    ((a == 0xe1) && ((b == 0x9a) && (c == 0x80)))
    || (((a == 0xe2)
          && (((b == 0x80)
                && (between 0x80 0x8a c || ((c == 0xa8) || ((c == 0xa9) || (c == 0xaf)))))
              || ((b == 0x81) && (c == 0x9f))))
        || ((a == 0xe3) && ((b == 0x80) && (c == 0x80))))

abbrev white_space : Bytes → ℕ
white_space [] = 0
white_space (a ∷ []) = if between 9 13 a || (a == 32) then 1 else 0
white_space (a ∷ b ∷ []) = if between 9 13 a || (a == 32) then 1 else if space_two a b then 2 else 0
white_space (a ∷ b ∷ c ∷ cs) =
    if between 9 13 a || (a == 32)
    then 1
    else if space_two a b
    then 2
    else if space_three a b c
    then 3
    else 0

blank_from : ℕ → Bytes → Bool
blank_from skip [] = true
blank_from (suc skip) (c ∷ cs) = blank_from skip cs
blank_from zero (c ∷ cs) = elim (white_space (c ∷ cs)) [
  | zero ↦ false
  | suc more ↦ blank_from more cs
]

-- Whether `trim` leaves nothing.
unfoldable pub is_blank : Bytes → Bool
unfolding blank_from
is_blank s = blank_from 0 s
