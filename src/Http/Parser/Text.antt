-- ===== src/Http/Parser/Text.antt =====
-- The text routines of core/src/http.cpp and what it uses of the standard library and of
-- core/include/katana/core/simd_utils.hpp, on byte strings.
pub mod Search
use visage_dvachevsky_tempre.Base.{
  ℕ, zero, suc, ◌+◌, ◌-◌, ◌*◌, ◌^◌, Bool, true, false, not, ◌&&◌, ◌||◌, Option, none, some, List,
  [], ◌∷◌, ◌++◌, Bytes, length, take, drop, leb, ltb, ◌==◌, if◌then◌else◌,
}
use mathlib.Core.Option
use mathlib.Core.List.{reverse}
use visage_dvachevsky_tempre.Http.Parser.Tables.{is_invalid_header_char}

-- `buffer + start`, `len` bytes.
abbrev pub slice : ℕ → ℕ → Bytes → Bytes
slice start len b = take len (drop start b)

-- `find_crlf_scalar`: the place of the first CR that LF follows.
unfoldable pub find_crlf : Bytes → Option ℕ
find_crlf [] = none
find_crlf (a ∷ []) = none
find_crlf (a ∷ b ∷ r) =
    if a == b'\r' && b == b'\n' then some 0 else Option.map suc (find_crlf (b ∷ r))

-- `std::string_view::find(char)`
unfoldable pub find_byte : ℕ → Bytes → Option ℕ
find_byte c [] = none
find_byte c (b ∷ r) = if b == c then some 0 else Option.map suc (find_byte c r)

-- The scan of `find_header_terminator` from position `i` on: the position behind the first
-- CR LF CR LF, or 0.
unfoldable pub terminator_from : ℕ → Bytes → ℕ
terminator_from i (a ∷ b ∷ c ∷ d ∷ r) =
    if a == b'\r' && b == b'\n' && c == b'\r' && d == b'\n'
    then i + 4
    else terminator_from (i + 1) (b ∷ c ∷ d ∷ r)
terminator_from i _ = 0

unfoldable pub find_header_terminator : Bytes → ℕ → ℕ → ℕ
unfolding terminator_from
find_header_terminator buffer scan_start buffer_size =
    if ltb buffer_size 4 || leb buffer_size (scan_start + 3)
    then 0
    else terminator_from scan_start (slice scan_start (buffer_size - scan_start) buffer)

abbrev pub is_ows : ℕ → Bool
is_ows c = c == b' ' || c == b'\t'

unfoldable pub trim_front : (ℕ → Bool) → Bytes → Bytes
trim_front p [] = []
trim_front p (c ∷ r) = if p c then trim_front p r else c ∷ r

unfoldable pub trim_back : (ℕ → Bool) → Bytes → Bytes
trim_back p s = reverse (trim_front p (reverse s))

unfoldable pub trim_ows : Bytes → Bytes
unfolding trim_front trim_back
trim_ows s = trim_back is_ows (trim_front is_ows s)

unfoldable pub contains_invalid_header_value : Bytes → Bool
unfolding is_invalid_header_char
contains_invalid_header_value [] = false
contains_invalid_header_value (c ∷ r) = is_invalid_header_char c || contains_invalid_header_value r

abbrev pub is_ctl : ℕ → Bool
is_ctl c = ltb c 0x20 || c == 0x7f

unfoldable pub contains_invalid_uri_char : Bytes → Bool
contains_invalid_uri_char [] = false
contains_invalid_uri_char (c ∷ r) =
    (c == b' ' || c == b'\r' || c == b'\n' || is_ctl c || leb 0x80 c) || contains_invalid_uri_char r

-- The two loops over the buffer that refuse a NUL, a byte from 0x80 on, and an LF that no CR
-- precedes. The option is the byte before the first one, if there is one.
unfoldable pub bytes_valid : Option ℕ → Bytes → Bool
bytes_valid previous [] = true
bytes_valid previous (c ∷ r) =
    not (c == 0 || leb 0x80 c)
    && not (c == b'\n' && elim previous [ none ↦ true | some p ↦ not (p == b'\r') ])
    && bytes_valid (some c) r
