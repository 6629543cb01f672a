-- ===== src/Serde/Escape.antt =====
-- The escaping of strings in core/include/katana/core/serde.hpp, in its SSE2 variant. What is appended
-- is a text; `sv` is the text that is left from `ptr` on.
use visage_dvachevsky_tempre.Base.{
  ℕ, zero, suc, ◌+◌, ◌-◌, ◌/◌, Bool, true, false, ◌||◌, List, [], ◌∷◌, ◌++◌, Bytes, codes, length,
  take, drop, get_or, ltb, leb, ◌==◌, if◌then◌else◌,
}
use Prim.Native.Nat.{bit_and}

-- `eq_bs | eq_qt | is_ctrl`, and the test of the scalar loops.
unfoldable pub needs_escape : ℕ → Bool
needs_escape c = c == b'\\' || c == b'"' || leb c 0x1f

unfoldable pub any_needs : Bytes → Bool
any_needs [] = false
any_needs (c ∷ r) = needs_escape c || any_needs r

-- The loop on 16 bytes; the first number is the fuel, one for each block.
unfoldable pub needs_in_blocks : ℕ → Bytes → Bool
needs_in_blocks zero s = any_needs s
needs_in_blocks (suc fuel) s =
    let rest = needs_in_blocks fuel (drop 16 s) in
    if ltb (length s) 16 then any_needs s else if any_needs (take 16 s) then true else rest

unfoldable pub needs_json_escaping : Bytes → Bool
needs_json_escaping s = needs_in_blocks (length s / 16) s

abbrev pub hex : Bytes
hex = codes "0123456789abcdef"

unfoldable pub escape_one_char : ℕ → Bytes
escape_one_char c =
    if c == b'\\'
    then b'\\' ∷ b'\\' ∷ []
    else if c == b'"'
    then b'\\' ∷ b'"' ∷ []
    else if c == b'\n'
    then b'\\' ∷ b'n' ∷ []
    else if c == b'\r'
    then b'\\' ∷ b'r' ∷ []
    else if c == b'\t'
    then b'\\' ∷ b't' ∷ []
    else b'\\'
      ∷ b'u'
      ∷ b'0'
      ∷ b'0'
      ∷ get_or hex (bit_and (c / 16) 0xf) 0
      ∷ get_or hex (bit_and c 0xf) 0
      ∷ []

-- The bits of the mask that are set, the lowest first: what `__builtin_ctz` and the clearing of the
-- lowest bit go through. The first number is the bit of the first byte.
unfoldable pub set_bits : ℕ → Bytes → List ℕ
set_bits i [] = []
set_bits i (c ∷ r) = let more = set_bits (suc i) r in if needs_escape c then i ∷ more else more

-- The loop on those bits, from `last` on, with the append behind it.
unfoldable pub append_bits : Bytes → ℕ → List ℕ → Bytes
append_bits chunk last [] = drop last chunk
append_bits chunk last (idx ∷ bits) =
    take (idx - last) (drop last chunk)
    ++ (escape_one_char (get_or chunk idx 0) ++ append_bits chunk (idx + 1) bits)

-- The clean characters in front, and what is left.
unfoldable pub clean_run : Bytes → Bytes × Bytes
clean_run [] = ([], [])
clean_run (c ∷ r) =
    let (run, rest) = clean_run r in if needs_escape c then ([], c ∷ r) else (c ∷ run, rest)

-- The scalar loop; a round takes a character at least.
unfoldable pub escape_tail : ℕ → Bytes → Bytes
escape_tail zero s = []
escape_tail (suc fuel) s =
    let (run, rest) = clean_run s in
    elim rest [ [] ↦ run | c ∷ r ↦ run ++ (escape_one_char c ++ escape_tail fuel r) ]

-- The blocks of 16 bytes, and the loop behind them.
unfoldable pub escape_blocks : ℕ → Bytes → Bytes
escape_blocks zero s = escape_tail (length s + 1) s
escape_blocks (suc fuel) s =
    let chunk = take 16 s in
    let rest = escape_blocks fuel (drop 16 s) in
    if ltb (length s) 16
    then escape_tail (length s + 1) s
    else if any_needs chunk
    then append_bits chunk 0 (set_bits 0 chunk) ++ rest
    else chunk ++ rest

unfoldable pub escape_json_string_into_escaped : Bytes → Bytes → Bytes
escape_json_string_into_escaped s out = out ++ escape_blocks (length s / 16) s

unfoldable pub escape_json_string_into : Bytes → Bytes → Bytes
escape_json_string_into s out =
    if needs_json_escaping s then escape_json_string_into_escaped s out else out ++ s

unfoldable pub escape_json_string : Bytes → Bytes
escape_json_string s = if needs_json_escaping s then escape_json_string_into_escaped s [] else s
