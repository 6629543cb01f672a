-- ===== src/Serde/Cursor.antt =====
-- `struct json_cursor` of core/include/katana/core/serde.hpp. A cursor is the text from `ptr` to `end`;
-- `start`, from which only `pos` counts, is not kept. An operation returns the cursor that it leaves.
use visage_dvachevsky_tempre.Base.{
  ◌/◌, ℕ, zero, suc, ◌+◌, Bool, true, false, not, ◌&&◌, ◌||◌, Option, none, some, List, [], ◌∷◌,
  map, Bytes, length, take, drop, ltb, ◌==◌, if◌then◌else◌,
}

unfoldable pub is_json_whitespace : ℕ → Bool
is_json_whitespace c = c == 0x09 || c == 0x0a || c == 0x0d || c == 0x20

-- The loop at the end of `skip_ws`.
unfoldable pub skip_scalar : Bytes → Bytes
skip_scalar [] = []
skip_scalar (c ∷ r) = let rest = skip_scalar r in if is_json_whitespace c then rest else c ∷ r

-- The quick skip of a few characters: how many there were, and what is left.
unfoldable pub skip_few : ℕ → ℕ → Bytes → ℕ × Bytes
skip_few zero count s = (count, s)
skip_few (suc limit) count [] = (count, [])
skip_few (suc limit) count (c ∷ r) =
    let rest = skip_few limit (count + 1) r in if is_json_whitespace c then rest else (count, c ∷ r)

-- `_mm_movemask_epi8`, the lowest bit first, and what the code asks of the mask.
abbrev pub whitespace_mask : Bytes → List Bool
whitespace_mask chunk = map is_json_whitespace chunk

unfoldable pub none_set : List Bool → Bool
none_set [] = true
none_set (b ∷ bs) = not b && none_set bs

unfoldable pub all_set : List Bool → Bool
all_set [] = true
all_set (b ∷ bs) = b && all_set bs

-- `__builtin_ctz(~mask & 0xFFFF)`
unfoldable pub first_unset : List Bool → ℕ
first_unset [] = 0
first_unset (b ∷ bs) = let more = first_unset bs in if b then suc more else 0

-- The loop on 16 bytes; the first number is the fuel, one for each block.
unfoldable pub skip_blocks : ℕ → Bytes → Bytes
skip_blocks zero s = skip_scalar s
skip_blocks (suc fuel) s =
    let mask = whitespace_mask (take 16 s) in
    let rest = skip_blocks fuel (drop 16 s) in
    if ltb (length s) 16
    then skip_scalar s
    else if none_set mask
    then skip_scalar s
    else if all_set mask
    then rest
    else drop (first_unset mask) s

unfoldable pub skip_ws : Bytes → Bytes
skip_ws [] = []
skip_ws (c ∷ r) =
    let (count, rest) = skip_few 8 0 (c ∷ r) in
    let skipped = skip_blocks (length rest / 16) rest in
    if not (is_json_whitespace c) then c ∷ r else if ltb count 8 then rest else skipped

unfoldable pub consume : ℕ → Bytes → Bool × Bytes
consume c s = elim (skip_ws s) [
  | [] ↦ (false, [])
  | d ∷ r ↦ if d == c then (true, r) else (false, d ∷ r)
]

-- The contents of a string up to its closing quote, and what follows; behind a backslash a character
-- is passed over, whatever it is.
unfoldable pub scan_string : (escaped : Bool) → Bytes → Option (Bytes × Bytes)
scan_string escaped [] = none
scan_string escaped (c ∷ r) =
    let rest = scan_string (not escaped && c == b'\\') r in
    if not escaped && c == b'"'
    then some ([], r)
    else elim rest [ none ↦ none | some (text, after) ↦ some (c ∷ text, after) ]

-- `string`; an unterminated string leaves the cursor at the end.
unfoldable pub string : Bytes → Option Bytes × Bytes
string s = elim (skip_ws s) [
  | [] ↦ (none, [])
  | c ∷ r ↦
      if c == b'"'
      then elim (scan_string false r) [
        | none ↦ (none, [])
        | some (text, after) ↦ (some text, after)
      ]
      else (none, c ∷ r)
]

abbrev pub try_object_start : Bytes → Bool × Bytes
try_object_start s = consume b'{' s

abbrev pub try_object_end : Bytes → Bool × Bytes
try_object_end s = consume b'}' s

abbrev pub try_array_start : Bytes → Bool × Bytes
try_array_start s = consume b'[' s

abbrev pub try_array_end : Bytes → Bool × Bytes
try_array_end s = consume b']' s

abbrev pub try_comma : Bytes → Bool × Bytes
try_comma s = consume b',' s

-- Where the loop of `skip_value` on an object or an array stands: outside the strings, in one, or in
-- one behind a backslash.
pub data Place : Type 0 where
  outside : Place
  inside : Place
  behind : Place

-- That loop, at a depth that is not 0 at first.
unfoldable pub skip_nested : (opening closing : ℕ) → Place → ℕ → Bytes → Bytes
skip_nested opening closing place zero s = s
skip_nested opening closing place (suc depth) [] = []
skip_nested opening closing Place.behind (suc depth) (c ∷ r) =
    skip_nested opening closing Place.inside (suc depth) r
skip_nested opening closing Place.inside (suc depth) (c ∷ r) =
    skip_nested opening closing
      (if c == b'\\' then Place.behind else if c == b'"' then Place.outside else Place.inside)
      (suc depth) r
skip_nested opening closing Place.outside (suc depth) (c ∷ r) =
    skip_nested opening closing (if c == b'"' then Place.inside else Place.outside)
      (if c == b'"'
        then suc depth
        else if c == opening
        then suc (suc depth)
        else if c == closing
        then depth
        else suc depth)
      r

-- Up to a comma or a closing bracket.
unfoldable pub skip_plain : Bytes → Bytes
skip_plain [] = []
skip_plain (c ∷ r) =
    let rest = skip_plain r in if c == b',' || c == b'}' || c == b']' then c ∷ r else rest

unfoldable pub skip_value : Bytes → Bytes
skip_value s = elim (skip_ws s) [
  | [] ↦ []
  | c ∷ r ↦
      if c == b'{'
      then skip_nested b'{' b'}' Place.outside 1 r
      else if c == b'['
      then skip_nested b'[' b']' Place.outside 1 r
      else if c == b'"'
      then (string (c ∷ r)).1
      else skip_plain (c ∷ r)
]
