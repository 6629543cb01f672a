-- ===== src/Serde/Parse.antt =====
-- `parse_size`, `parse_int64`, `parse_bool` and `parse_unquoted_string` of
-- core/include/katana/core/serde.hpp: the value that they return, and the cursor that they leave.
use visage_dvachevsky_tempre.Base.{
  ℕ, zero, suc, ◌+◌, ◌-◌, ◌*◌, ◌%◌, ◌^◌, Bool, true, false, ◌&&◌, ◌||◌, Option, none, some, [], ◌∷◌,
  Bytes, codes, bytes_eq, length, take, drop, ltb, leb, ◌==◌, if◌then◌else◌,
}
use visage_dvachevsky_tempre.Digits.{from_chars, read_digits}
use visage_dvachevsky_tempre.Serde.Cursor.{is_json_whitespace, skip_ws, string, skip_plain}

-- `int64_t`
pub data ℤ : Type 0 where
  pos : ℕ → ℤ
  negsuc : ℕ → ℤ

abbrev pub neg : ℕ → ℤ
neg zero = ℤ.pos 0
neg (suc n) = ℤ.negsuc n

-- `INT64_MAX`
abbrev pub int64_max : ℕ
int64_max = 2 ^ 63 - 1

unfoldable pub trim_front : Bytes → Bytes
trim_front [] = []
trim_front (c ∷ r) = let rest = trim_front r in if is_json_whitespace c then rest else c ∷ r

-- `remove_suffix` as long as the last character is whitespace.
unfoldable pub trim_back : Bytes → Bytes
trim_back [] = []
trim_back (c ∷ r) =
    let rest = trim_back r in if length rest == 0 && is_json_whitespace c then [] else c ∷ rest

unfoldable pub trim_view : Bytes → Bytes
trim_view s = trim_back (trim_front s)

unfoldable pub parse_size : Bytes → Option ℕ × Bytes
parse_size s = elim (skip_ws s) [
  | [] ↦ (none, [])
  | c ∷ r ↦
      let (text, after) = string (c ∷ r) in
      if c == b'"'
      then (
        elim text [
          | none ↦ none
          | some t ↦ elim (from_chars 10 t) [ none ↦ none | some (value, count) ↦ some value ]
        ],
        after,
      )
      else elim (from_chars 10 (c ∷ r)) [
        | none ↦ (none, c ∷ r)
        | some (value, count) ↦ (some value, drop count (c ∷ r))
      ]
]

-- `std::from_chars` into an `int64_t`.
unfoldable pub from_chars_int64 : Bytes → Option ℤ
from_chars_int64 [] = none
from_chars_int64 (c ∷ r) =
    let (value, count) = read_digits 10 0 0 (c ∷ r) in
    let (below, count') = read_digits 10 0 0 r in
    if c == b'-'
    then (if count' == 0 then none else if leb below (2 ^ 63) then some (neg below) else none)
    else (if count == 0 then none else if ltb value (2 ^ 63) then some (ℤ.pos value) else none)

abbrev pub is_digit : ℕ → Bool
is_digit c = leb b'0' c && leb c b'9'

-- The loop on the digits: `val`, and where `p` is left.
unfoldable pub accumulate : ℕ → Bytes → ℕ × Bytes
accumulate val [] = (val, [])
accumulate val (c ∷ r) =
    let more = accumulate ((val * 10 + (c - b'0')) % 2 ^ 64) r in
    if is_digit c then more else (val, c ∷ r)

-- The conversion of `val`.
abbrev pub signed : Bool → ℕ → Option ℤ
signed negative val =
    if negative
    then (if ltb (int64_max + 1) val then none else some (neg val))
    else (if ltb int64_max val then none else some (ℤ.pos val))

-- The text behind a sign; without a digit the cursor stays at `start`.
unfoldable pub parse_digits : Bool → Bytes → Bytes → Option ℤ × Bytes
parse_digits negative [] start = (none, start)
parse_digits negative (c ∷ r) start =
    let (val, after) = accumulate 0 (c ∷ r) in
    if is_digit c then (signed negative val, after) else (none, start)

-- `parse_int64` behind the whitespace.
abbrev pub int64_at : Bytes → Option ℤ × Bytes
int64_at [] = (none, [])
int64_at (c ∷ r) =
    let (text, after) = string (c ∷ r) in
    if c == b'"'
    then (elim text [ none ↦ none | some t ↦ from_chars_int64 t ], after)
    else if c == b'-'
    then parse_digits true r (c ∷ r)
    else if c == b'+'
    then parse_digits false r (c ∷ r)
    else parse_digits false (c ∷ r) (c ∷ r)

unfoldable pub parse_int64 : Bytes → Option ℤ × Bytes
parse_int64 s = int64_at (skip_ws s)

abbrev starts_with : Bytes → Bytes → Bool
starts_with s literal = bytes_eq (take (length literal) s) literal

abbrev bool_of : Bytes → Option Bool
bool_of v =
    if bytes_eq v (codes "true")
    then some true
    else if bytes_eq v (codes "false")
    then some false
    else none

unfoldable pub parse_bool : Bytes → Option Bool × Bytes
parse_bool s = elim (skip_ws s) [
  | [] ↦ (none, [])
  | c ∷ r ↦
      let (text, after) = string (c ∷ r) in
      if starts_with (c ∷ r) (codes "true")
      then (some true, drop 4 (c ∷ r))
      else if starts_with (c ∷ r) (codes "false")
      then (some false, drop 5 (c ∷ r))
      else if c == b'"'
      then (elim text [ none ↦ none | some t ↦ bool_of (trim_view t) ], after)
      else (none, c ∷ r)
]

-- The text in front of what is left.
unfoldable pub parse_unquoted_string : Bytes → Bytes × Bytes
parse_unquoted_string s =
    let t = skip_ws s in
    let after = skip_plain t in (trim_view (take (length t - length after) t), after)

unfoldable pub is_bool_literal : Bytes → Bool
is_bool_literal s = bytes_eq s (codes "true") || bytes_eq s (codes "false")

unfoldable pub is_null_literal : Bytes → Bool
is_null_literal s = bytes_eq s (codes "null")
