-- ===== src/Contracts/Text.antt =====
-- What the code uses of JavaScript strings. A string is a sequence of scalar values; `length` counts
-- UTF-16 units, and `utf8_bytes` is `utf8Bytes` of packages/contracts/src/json.ts.
use Prim.Native.String.{len, ◌++◌ as append}
use managed_agents.Common.{
  ℕ, zero, suc, ◌+◌, ◌/◌, ◌%◌, Char, code, String, Bool, true, false, ◌&&◌, ◌||◌, List, [], ◌∷◌,
  leb, ltb, ◌==◌, if◌then◌else◌, str_eq,
}

unfoldable pub utf8_bytes : String → ℕ
utf8_bytes text = len text

unfoldable pub concat : List String → String
concat [] = ""
concat (s ∷ rest) = append s (concat rest)

abbrev units : ℕ → ℕ
units c = if ltb c 0x10000 then 1 else 2

-- `text.length`
unfoldable pub utf16_length : String → ℕ
utf16_length String.[] = 0
utf16_length (String.◌∷◌ c rest) = units (code c) + utf16_length rest

-- the characters that `trim` removes
unfoldable pub is_white_space : ℕ → Bool
is_white_space c =
    (leb 0x9 c && leb c 0xd)
    || c == 0x20
    || c == 0xa0
    || c == 0x1680
    || (leb 0x2000 c && leb c 0x200a)
    || c == 0x2028
    || c == 0x2029
    || c == 0x202f
    || c == 0x205f
    || c == 0x3000
    || c == 0xfeff

-- `text.trim().length === 0`
unfoldable pub is_blank : String → Bool
unfolding is_white_space
is_blank String.[] = true
is_blank (String.◌∷◌ c rest) = is_white_space (code c) && is_blank rest

unfoldable pub includes : List String → String → Bool
includes [] s = false
includes (x ∷ xs) s = str_eq x s || includes xs s

-- the lower-case hexadecimal digit of a number below 16
unfoldable pub hex_digit : ℕ → Char
hex_digit n =
    if n == 0
    then "0"
    else if n == 1
    then "1"
    else if n == 2
    then "2"
    else if n == 3
    then "3"
    else if n == 4
    then "4"
    else if n == 5
    then "5"
    else if n == 6
    then "6"
    else if n == 7
    then "7"
    else if n == 8
    then "8"
    else if n == 9
    then "9"
    else if n == 10
    then "a"
    else if n == 11
    then "b"
    else if n == 12
    then "c"
    else if n == 13
    then "d"
    else if n == 14
    then "e"
    else "f"

-- `byte.toString(16).padStart(2, "0")` of each byte, joined
unfoldable pub hex : List ℕ → String
hex [] = ""
hex (b ∷ bytes) = String.◌∷◌ (hex_digit (b / 16)) (String.◌∷◌ (hex_digit (b % 16)) (hex bytes))

-- The decimal digits of a number, in front of a text. The fuel is the number itself, which is more
-- than its digits.
unfoldable pub decimal_onto : ℕ → ℕ → String → String
decimal_onto zero n rest = String.◌∷◌ (hex_digit (n % 10)) rest
decimal_onto (suc fuel) n rest =
    let more = decimal_onto fuel (n / 10) (String.◌∷◌ (hex_digit (n % 10)) rest) in
    if ltb n 10 then String.◌∷◌ (hex_digit (n % 10)) rest else more

unfoldable pub decimal : ℕ → String
decimal n = decimal_onto n n ""
