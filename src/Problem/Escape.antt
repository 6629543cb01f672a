-- ===== src/Problem/Escape.antt =====
-- `append_json_escaped` of core/src/problem.cpp against the strings of JSON (RFC 8259).
use visage_dvachevsky_tempre.Base.{
  ℕ, ◌+◌, ◌*◌, ◌/◌, ◌%◌, ◌<◌, ◌≡◌, refl, Bool, true, false, ◌&&◌, Option, none, some, [], ◌∷◌, ◌++◌,
  Bytes, IsByte, All, if◌then◌else◌, arith, ◌==◌, ltb, get_or, table, table_entry,
}
use Prim.Native.Nat.{bit_and}
use native.Mathlib.Nat.{div-add-mod'}
use visage_dvachevsky_tempre.Digits.{digit_value}
use visage_dvachevsky_tempre.Problem.{hex_digits, hex_escape, escape_byte, json_escaped}

-- The character of four hexadecimal digits, and what follows them.
unfoldable pub read_hex4 : Bytes → Option (ℕ × Bytes)
read_hex4 (a ∷ b ∷ c ∷ d ∷ r) = elim (digit_value 16 a) [
  | none ↦ none
  | some i ↦ elim (digit_value 16 b) [
    | none ↦ none
    | some j ↦ elim (digit_value 16 c) [
      | none ↦ none
      | some k ↦ elim (digit_value 16 d) [
        | none ↦ none
        | some l ↦ some (i * 4096 + j * 256 + k * 16 + l, r)
      ]
    ]
  ]
]
read_hex4 _ = none

-- What follows a backslash.
unfoldable pub read_escape : Bytes → Option (ℕ × Bytes)
read_escape [] = none
read_escape (e ∷ r) =
    if e == b'"'
    then some (b'"', r)
    else if e == b'\\'
    then some (b'\\', r)
    else if e == b'/'
    then some (b'/', r)
    else if e == b'b'
    then some (0x08, r)
    else if e == b'f'
    then some (0x0c, r)
    else if e == b'n'
    then some (b'\n', r)
    else if e == b'r'
    then some (b'\r', r)
    else if e == b't'
    then some (b'\t', r)
    else if e == b'u'
    then read_hex4 r
    else none

-- The first character of the contents of a JSON string; a quote ends the string, and a control
-- character may not stand in it.
unfoldable pub read_char : Bytes → Option (ℕ × Bytes)
read_char [] = none
read_char (c ∷ r) =
    if c == b'\\'
    then read_escape r
    else if c == b'"'
    then none
    else if ltb c 0x20
    then none
    else some (c, r)

-- The contents of a JSON string and the characters that they stand for.
pub data Denotes : Bytes → Bytes → Type 0 where
  empty : Denotes [] []
  char :
      (text rest s : Bytes) (c : ℕ)
      → read_char text ≡ some (c, rest)
      → Denotes rest s
      → Denotes text (c ∷ s)

high_digit : ℕ → ℕ
high_digit c = get_or hex_digits (bit_and (c / 16) 0x0f) 0

low_digit : ℕ → ℕ
low_digit c = get_or hex_digits (bit_and c 0x0f) 0

is_some : ℕ → Option ℕ → Bool
is_some n none = false
is_some n (some m) = n == m

is_some→eq : (n : ℕ) (o : Option ℕ) → is_some n o ≡ true → o ≡ some n
unfolding is_some
is_some→eq n none h = ground arith
is_some→eq n (some m) h = ground arith

digits_right : ℕ → Bool
unfolding is_some high_digit low_digit
digits_right c =
    is_some (c / 16) (digit_value 16 (high_digit c))
    && is_some (c % 16) (digit_value 16 (low_digit c))

digits_right_below : table digits_right 0x20 ≡ true
unfolding table digits_right digit_value
digits_right_below = refl

digits_lem :
    (c : ℕ)
    → c < 0x20
    → (digit_value 16 (high_digit c) ≡ some (c / 16))
      × (digit_value 16 (low_digit c) ≡ some (c % 16))
unfolding digits_right
digits_lem c h =
    let y : digits_right c ≡ true = table_entry digits_right 0x20 c h digits_right_below in
    (is_some→eq (c / 16) _ (ground (arith, y)), is_some→eq (c % 16) _ (ground (arith, y)))

zero_digit : digit_value 16 b'0' ≡ some 0
unfolding digit_value
zero_digit = refl

read_hex4_lem :
    (c : ℕ) (r : Bytes)
    → c < 0x20
    → read_hex4 (b'0' ∷ b'0' ∷ high_digit c ∷ low_digit c ∷ r) ≡ some (c, r)
unfolding read_hex4
read_hex4_lem c r h = ground (arith, digits_lem c h, zero_digit, div-add-mod' c 16)

read_char-hex_escape : (c : ℕ) (r : Bytes) → c < 0x20 → read_char (hex_escape c ++ r) ≡ some (c, r)
unfolding read_char read_escape hex_escape high_digit low_digit
read_char-hex_escape c r h = read_hex4_lem c r h

read_char-escape_byte : (c : ℕ) (r : Bytes) → c < 256 → read_char (escape_byte c ++ r) ≡ some (c, r)
unfolding read_char read_escape escape_byte
read_char-escape_byte c r h = ground (arith, read_char-hex_escape c r)

-- The escaped form of a byte string is, between quotes, a JSON string that stands for exactly those
-- bytes: no raw quote and no raw control character is in it.
pub json_escaped-Denotes : (s : Bytes) → All IsByte s → Denotes (json_escaped s) s
unfolding json_escaped
json_escaped-Denotes [] h = empty
json_escaped-Denotes (c ∷ s) h =
    char (escape_byte c ++ json_escaped s) (json_escaped s) s c
      (read_char-escape_byte c (json_escaped s) h.0) (json_escaped-Denotes s h.1)
