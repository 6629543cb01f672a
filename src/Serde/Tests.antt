-- ===== src/Serde/Tests.antt =====
-- The theorems on the JSON reader and writer at concrete inputs.
use visage_dvachevsky_tempre.Base.{
  All, none, ◌%◌, ◌^◌, ◌≡◌, refl, true, false, some, List, [], ◌∷◌, ◌++◌, Bytes, codes, drop,
  replicate, arith,
}
use visage_dvachevsky_tempre.Digits.{read_digits}
use visage_dvachevsky_tempre.Serde.Cursor.{skip_ws, skip_scalar, string}
use visage_dvachevsky_tempre.Serde.Whitespace.{skip_ws_lem}
use visage_dvachevsky_tempre.Serde.Escape.{
  escape_json_string, escape_json_string_into, escape_json_string_into_escaped,
}
use visage_dvachevsky_tempre.Serde.Escaped.{escaped, escape_json_string_lem}
use visage_dvachevsky_tempre.Serde.Strings.{string-escape_json_string}
use visage_dvachevsky_tempre.Serde.Parse.{ℤ, signed, parse_int64}
use visage_dvachevsky_tempre.Serde.Numbers.{parse_int64_lem}
use visage_dvachevsky_tempre.Serde.Format.{int_round, serialize_int_array_into}
use visage_dvachevsky_tempre.Serde.Arrays.{
  IsShort, small-IsShort, joined, serialize_int_array_into_lem, int_round-overflow,
}

skip_ws_lem_example :
    skip_ws (codes "                    x") ≡ skip_scalar (codes "                    x")
skip_ws_lem_example = skip_ws_lem (codes "                    x")

escape_json_string_lem_example :
    (escape_json_string (codes "a\"b") ≡ escaped (codes "a\"b"))
    × (escape_json_string_into (codes "a\"b") (codes "x") ≡ codes "x" ++ escaped (codes "a\"b"))
    × (escape_json_string_into_escaped (codes "a\"b") (codes "x")
        ≡ codes "x" ++ escaped (codes "a\"b"))
escape_json_string_lem_example = escape_json_string_lem (codes "a\"b") (codes "x")

string-escape_json_string_example :
    string (b'"' ∷ escape_json_string (codes "a\"b") ++ b'"' ∷ codes ", 1")
    ≡ (some (escape_json_string (codes "a\"b")), codes ", 1")
string-escape_json_string_example = string-escape_json_string (codes "a\"b") (codes ", 1")

-- 2^64 + 5, and then a bracket.
abbrev too_long : Bytes
too_long = codes "8446744073709551621]"

parse_int64_lem_example :
    (parse_int64 (b'1' ∷ too_long) ≡ (
      signed false ((read_digits 10 0 0 (b'1' ∷ too_long)).0 % 2 ^ 64),
      drop (read_digits 10 0 0 (b'1' ∷ too_long)).1 (b'1' ∷ too_long),
    ))
    × (parse_int64 (b'-' ∷ b'1' ∷ too_long) ≡ (
      signed true ((read_digits 10 0 0 (b'1' ∷ too_long)).0 % 2 ^ 64),
      drop (read_digits 10 0 0 (b'1' ∷ too_long)).1 (b'1' ∷ too_long),
    ))
parse_int64_lem_example = parse_int64_lem b'1' too_long refl

abbrev some_ints : List ℤ
some_ints = ℤ.pos 12345 ∷ ℤ.negsuc 6 ∷ []

some_ints-IsShort : All (IsShort true) some_ints
some_ints-IsShort =
    (small-IsShort (ℤ.pos 12345) (omega arith), (small-IsShort (ℤ.negsuc 6) (omega arith), tt))

serialize_int_array_into_lem_example :
    serialize_int_array_into true some_ints (codes "x")
    ≡ some (codes "x" ++ b'[' ∷ [] ++ joined true true some_ints ++ b']' ∷ [])
serialize_int_array_into_lem_example =
    serialize_int_array_into_lem true some_ints (codes "x") some_ints-IsShort

int_round-overflow_example : int_round false false (ℤ.pos (10 ^ 19)) ([], replicate 495 b'1') ≡ none
int_round-overflow_example =
    int_round-overflow (10 ^ 19) ([], replicate 495 b'1') (omega arith) refl
