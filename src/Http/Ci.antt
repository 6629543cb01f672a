-- ===== src/Http/Ci.antt =====
-- Case-insensitive comparison of header names: `ascii_lower`, `ci_char_equal`, `ci_equal_short`,
-- `ci_equal_simd_sse2` and `ci_equal` of core/include/katana/core/http_headers.hpp, as they are
-- compiled for x86-64 without AVX2.
pub mod Laws
use Prim.Native.Nat.{bit_or, bit_xor}
use visage_dvachevsky_tempre.Base.{
  ℕ, zero, suc, ◌+◌, ◌/◌, Bool, true, false, ◌&&◌, ◌||◌, [], ◌∷◌, Bytes, length, take, drop, leb,
  ltb, ◌==◌, if◌then◌else◌,
}

unfoldable pub ascii_lower : ℕ → ℕ
ascii_lower c = if leb b'A' c && leb c b'Z' then c + 0x20 else c

unfoldable pub ci_char_equal : ℕ → ℕ → Bool
ci_char_equal a b =
    if a == b
    then true
    else bit_xor a b == 0x20 && leb b'a' (bit_or a 0x20) && leb (bit_or a 0x20) b'z'

-- `std::equal(a.begin(), a.end(), b.begin(), ci_char_equal)`, also the byte loop that ends
-- `ci_equal_simd_sse2`; the two texts have one length.
unfoldable pub chars_equal : Bytes → Bytes → Bool
unfolding ci_char_equal
chars_equal [] bs = true
chars_equal (a ∷ as') [] = false
chars_equal (a ∷ as') (b ∷ bs) = ci_char_equal a b && chars_equal as' bs

-- Both texts with bit 0x20 set in every byte are equal: the comparison of the 64-bit words and of
-- the vectors. The padding is the same on both sides.
unfoldable pub masked_equal : Bytes → Bytes → Bool
masked_equal [] bs = true
masked_equal (a ∷ as') [] = false
masked_equal (a ∷ as') (b ∷ bs) = bit_or a 0x20 == bit_or b 0x20 && masked_equal as' bs

unfoldable pub ci_equal_short : Bytes → Bytes → Bool
unfolding masked_equal
ci_equal_short a b =
    if length a == length b
    then (if leb (length a) 8
        then masked_equal a b
        else if leb (length a) 15
        then masked_equal a b
        else false)
    else false

-- The number is that of the whole blocks of 16 bytes that are left.
unfoldable pub blocks_equal : ℕ → Bytes → Bytes → Bool
unfolding masked_equal chars_equal
blocks_equal zero a b = chars_equal a b
blocks_equal (suc k) a b =
    if masked_equal (take 16 a) (take 16 b) then blocks_equal k (drop 16 a) (drop 16 b) else false

unfoldable pub ci_equal_simd_sse2 : Bytes → Bytes → Bool
unfolding blocks_equal
ci_equal_simd_sse2 a b = if length a == length b then blocks_equal (length a / 16) a b else false

unfoldable pub ci_equal : Bytes → Bytes → Bool
unfolding ci_equal_short ci_equal_simd_sse2
ci_equal a b =
    if length a == length b
    then (if ltb (length a) 16 then ci_equal_short a b else ci_equal_simd_sse2 a b)
    else false
