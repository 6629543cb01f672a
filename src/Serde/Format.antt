-- ===== src/Serde/Format.antt =====
-- `detail::format_uint_fast` and `serialize_int_array_into` of core/include/katana/core/serde.hpp.
use visage_dvachevsky_tempre.Base.{
  ℕ, suc, ◌+◌, ◌-◌, ◌*◌, ◌/◌, ◌%◌, Bool, true, false, Option, none, some, List, [], ◌∷◌, ◌++◌,
  Bytes, codes, length, take, drop, ltb, leb, if◌then◌else◌,
}
use visage_dvachevsky_tempre.Digits.{to_chars}
use visage_dvachevsky_tempre.Serde.Parse.{ℤ}

-- `digits_lut`
abbrev pub digits_lut : Bytes
digits_lut =
    codes
      "00010203040506070809101112131415161718192021222324252627282930313233343536373839404142434445464748495051525354555657585960616263646566676869707172737475767778798081828384858687888990919293949596979899"

-- `memcpy(buf, &digits_lut[i * 2], 2)`
unfoldable pub two_digits : ℕ → Bytes
two_digits i = take 2 (drop (i * 2) digits_lut)

unfoldable pub format_uint_fast : ℕ → Bytes
format_uint_fast val =
    if ltb val 10
    then (b'0' + val) ∷ []
    else if ltb val 100
    then two_digits val
    else if ltb val 1000
    then (b'0' + val / 100) ∷ two_digits (val % 100)
    else if ltb val 10000
    then two_digits (val / 100) ++ two_digits (val % 100)
    else to_chars 10 val

-- The sign and the magnitude, `uval`.
abbrev pub sign_text : ℤ → Bytes
sign_text (ℤ.pos n) = []
sign_text (ℤ.negsuc n) = b'-' ∷ []

abbrev pub magnitude : ℤ → ℕ
magnitude (ℤ.pos n) = n
magnitude (ℤ.negsuc n) = suc n

-- A value in the buffer; a type of at most 4 bytes goes through `format_uint_fast`.
abbrev pub int_text : Bool → ℤ → Bytes
int_text small v =
    sign_text v ++ (if small then format_uint_fast (magnitude v) else to_chars 10 (magnitude v))

-- `sizeof(local_buf)`
abbrev pub local_size : ℕ
local_size = 512

-- One round of the loop on `out` and what stands in `local_buf`; none if it writes behind the end of
-- the array. The values are those of `IntT`.
unfoldable pub int_round : Bool → Bool → ℤ → Bytes × Bytes → Option (Bytes × Bytes)
int_round small first v (out, local) =
    let full = leb (local_size - 16) (length local) in
    let start = if full then [] else local in
    let written = start ++ (if first then [] else b',' ∷ []) ++ int_text small v in
    if ltb local_size (length written)
    then none
    else some ((if full then out ++ local else out), written)

unfoldable pub int_rounds : Bool → Bool → List ℤ → Bytes × Bytes → Option (Bytes × Bytes)
int_rounds small first [] state = some state
int_rounds small first (v ∷ vs) state = elim (int_round small first v state) [
  | none ↦ none
  | some next ↦ int_rounds small false vs next
]

unfoldable pub serialize_int_array_into : Bool → List ℤ → Bytes → Option Bytes
serialize_int_array_into small [] out = some (out ++ codes "[]")
serialize_int_array_into small (v ∷ vs) out =
    elim (int_rounds small true (v ∷ vs) (out ++ b'[' ∷ [], [])) [
      | none ↦ none
      | some (text, local) ↦ some (text ++ local ++ b']' ∷ [])
    ]
