-- ===== src/Http/Ci/Laws.antt =====
-- What the case-insensitive comparison of http_headers.hpp decides.
use Prim.Native.Nat.{bit_or}
use visage_dvachevsky_tempre.Base.{
  table, table_entry, ℕ, zero, suc, ◌/◌, ◌<◌, ◌≡◌, refl, Bool, true, false, not, ◌&&◌, ◌||◌, [],
  ◌∷◌, map, Bytes, All, length, take, drop, leb, ◌==◌, ==_iff, if◌then◌else◌, arith, bytes_eq,
  Bool-cases, inl, inr, length-take, length-drop, ◌≢◌,
}
use visage_dvachevsky_tempre.Http.Ci.{
  ascii_lower, ci_char_equal, chars_equal, masked_equal, blocks_equal, ci_equal,
}

-- A byte of a header name on which setting bit 0x20 agrees with lowering the case: a token
-- character other than `^` and `~`.
abbrev pub is_plain : ℕ → Bool
is_plain c =
    leb b'a' c && leb c b'z'
    || leb b'A' c && leb c b'Z'
    || leb b'0' c && leb c b'9'
    || c == b'-'
    || c == b'_'
    || c == b'!'
    || leb b'#' c && leb c b'\''
    || c == b'*'
    || c == b'+'
    || c == b'.'
    || c == b'`'
    || c == b'|'

abbrev pub IsPlain : ℕ → Type 0
IsPlain c = (c < 256) × (is_plain c ≡ true)

-- Setting bit 0x20 moves the underscore to 0x7f, and otherwise lowers the case.
abbrev set_bit : ℕ → ℕ
set_bit x = if x == b'_' then 0x7f else x

mask_table :
    table
      (λ c.
        if is_plain c
        then bit_or c 0x20 == set_bit (ascii_lower c) && not (ascii_lower c == 0x7f)
        else true)
      256
    ≡ true
unfolding table ascii_lower
mask_table = refl

char_table :
    table
      (λ a.
        table
          (λ b.
            if ascii_lower a == ascii_lower b then ci_char_equal a b else not (ci_char_equal a b))
          256)
      256
    ≡ true
unfolding table ascii_lower ci_char_equal
char_table = refl

-- `ci_char_equal` is equality of the lower-case bytes, for all bytes.
pub ci_char_equal_lem :
    (a b : ℕ) → a < 256 → b < 256 → ci_char_equal a b ≡ (ascii_lower a == ascii_lower b)
ci_char_equal_lem a b ha hb =
    ground (arith, table_entry _ 256 b hb (table_entry _ 256 a ha char_table))

lower_plain :
    (c : ℕ) → IsPlain c → (bit_or c 0x20 ≡ set_bit (ascii_lower c)) × (ascii_lower c ≢ 0x7f)
lower_plain c (h, p) = ground (arith, p, table_entry _ 256 c h mask_table)

set_bit_inj : (x y : ℕ) → x ≢ 0x7f → y ≢ 0x7f → (set_bit x == set_bit y) ≡ (x == y)
set_bit_inj x y hx hy = ground arith

mask_plain :
    (a b : ℕ)
    → IsPlain a
    → IsPlain b
    → (bit_or a 0x20 == bit_or b 0x20) ≡ (ascii_lower a == ascii_lower b)
mask_plain a b ha hb =
    rw ((lower_plain a ha).0, (lower_plain b hb).0)
      (set_bit_inj (ascii_lower a) (ascii_lower b) (lower_plain a ha).1 (lower_plain b hb).1)

lower_eq : Bytes → Bytes → Bool
lower_eq a b = bytes_eq (map ascii_lower a) (map ascii_lower b)

masked_equal_lem :
    (a b : Bytes)
    → length a ≡ length b
    → All IsPlain a
    → All IsPlain b
    → masked_equal a b ≡ lower_eq a b
unfolding masked_equal lower_eq bytes_eq
masked_equal_lem [] [] e ha hb = refl
masked_equal_lem [] (b ∷ bs) e ha hb = absurd (omega arith)
masked_equal_lem (a ∷ as') [] e ha hb = absurd (omega arith)
masked_equal_lem (a ∷ as') (b ∷ bs) e (ha, has) (hb, hbs) =
    rw (mask_plain a b ha hb, masked_equal_lem as' bs (omega arith) has hbs)

chars_equal_lem :
    (a b : Bytes)
    → length a ≡ length b
    → All IsPlain a
    → All IsPlain b
    → chars_equal a b ≡ lower_eq a b
unfolding chars_equal lower_eq bytes_eq
chars_equal_lem [] [] e ha hb = refl
chars_equal_lem [] (b ∷ bs) e ha hb = absurd (omega arith)
chars_equal_lem (a ∷ as') [] e ha hb = absurd (omega arith)
chars_equal_lem (a ∷ as') (b ∷ bs) e (ha, has) (hb, hbs) =
    rw (ci_char_equal_lem a b ha.0 hb.0, chars_equal_lem as' bs (omega arith) has hbs)

lower_eq-split :
    (n : ℕ) (a b : Bytes)
    → length a ≡ length b
    → lower_eq a b ≡ (lower_eq (take n a) (take n b) && lower_eq (drop n a) (drop n b))
unfolding lower_eq bytes_eq
lower_eq-split zero a b e = refl
lower_eq-split (suc n) [] [] e = refl
lower_eq-split (suc n) [] (b ∷ bs) e = absurd (omega arith)
lower_eq-split (suc n) (a ∷ as') [] e = absurd (omega arith)
lower_eq-split (suc n) (a ∷ as') (b ∷ bs) e = ground (arith, lower_eq-split n as' bs (omega arith))

All-take : (n : ℕ) (a : Bytes) → All IsPlain a → All IsPlain (take n a)
All-take zero a h = tt
All-take (suc n) [] h = tt
All-take (suc n) (a ∷ as') (h, hs) = (h, All-take n as' hs)

All-drop : (n : ℕ) (a : Bytes) → All IsPlain a → All IsPlain (drop n a)
All-drop zero a h = h
All-drop (suc n) [] h = tt
All-drop (suc n) (a ∷ as') (h, hs) = All-drop n as' hs

length-take_eq : (n : ℕ) (a b : Bytes) → length a ≡ length b → length (take n a) ≡ length (take n b)
length-take_eq n a b e = omega (arith, length-take n a, length-take n b)

length-drop_eq : (n : ℕ) (a b : Bytes) → length a ≡ length b → length (drop n a) ≡ length (drop n b)
length-drop_eq n a b e = omega (arith, length-drop n a, length-drop n b)

blocks_equal_lem :
    (k : ℕ) (a b : Bytes)
    → length a ≡ length b
    → All IsPlain a
    → All IsPlain b
    → blocks_equal k a b ≡ lower_eq a b
unfolding blocks_equal
blocks_equal_lem zero a b e ha hb = chars_equal_lem a b e ha hb
blocks_equal_lem (suc k) a b e ha hb =
    rw
      (
        lower_eq-split 16 a b e,
        masked_equal_lem (take 16 a) (take 16 b) (length-take_eq 16 a b e) (All-take 16 a ha)
            (All-take 16 b hb),
        blocks_equal_lem k (drop 16 a) (drop 16 b) (length-drop_eq 16 a b e) (All-drop 16 a ha)
            (All-drop 16 b hb),
      )
      (ground arith)

lower_eq-length : (a b : Bytes) → length a ≢ length b → lower_eq a b ≡ false
unfolding lower_eq bytes_eq
lower_eq-length [] [] h = absurd (h refl)
lower_eq-length [] (b ∷ bs) h = refl
lower_eq-length (a ∷ as') [] h = refl
lower_eq-length (a ∷ as') (b ∷ bs) h = ground (arith, lower_eq-length as' bs (omega arith))

-- On header names made of token characters other than `^` and `~`, of any length, `ci_equal` is
-- equality of the lower-case names, whichever of its paths is taken.
pub ci_equal_lem :
    (a b : Bytes)
    → All IsPlain a
    → All IsPlain b
    → ci_equal a b ≡ bytes_eq (map ascii_lower a) (map ascii_lower b)
unfolding ci_equal lower_eq
ci_equal_lem a b ha hb = elim (Bool-cases (length a == length b)) [
  | inl e ↦
      let same = (==_iff (length a) (length b)).0 e in
      ground
        (arith, masked_equal_lem a b same ha hb, blocks_equal_lem (length a / 16) a b same ha hb)
  | inr e ↦ ground (arith, lower_eq-length a b)
]

masked_equal_refl : (a : Bytes) → masked_equal a a ≡ true
unfolding masked_equal
masked_equal_refl [] = refl
masked_equal_refl (a ∷ as') = ground (arith, masked_equal_refl as')

-- Two names of at most 15 bytes that differ in that one begins with `^` where the other has `~`,
-- both token characters, are taken for the same header.
pub ci_equal_collision : (x : Bytes) → length x < 15 → ci_equal (b'^' ∷ x) (b'~' ∷ x) ≡ true
unfolding ci_equal masked_equal
ci_equal_collision x h = ground (arith, masked_equal_refl x)

chars_equal_refl : (a : Bytes) → chars_equal a a ≡ true
unfolding chars_equal
chars_equal_refl [] = refl
chars_equal_refl (a ∷ as') = ground (arith, chars_equal_refl as')

blocks_equal_refl : (k : ℕ) (a : Bytes) → blocks_equal k a a ≡ true
unfolding blocks_equal
blocks_equal_refl zero a = chars_equal_refl a
blocks_equal_refl (suc k) a =
    ground (arith, masked_equal_refl (take 16 a), blocks_equal_refl k (drop 16 a))

pub ci_equal_refl : (a : Bytes) → ci_equal a a ≡ true
unfolding ci_equal
ci_equal_refl a = ground (arith, masked_equal_refl a, blocks_equal_refl (length a / 16) a)
