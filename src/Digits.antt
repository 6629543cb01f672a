-- ===== src/Digits.antt =====
-- `std::to_chars` and `std::from_chars` for unsigned numbers, as core/src/http.cpp and
-- core/src/problem.cpp use them.
use native.Mathlib.Nat.{div-add-mod', mod-lt, pow-suc, div-lt_iff_lt-mul, mul-le-mul_left}
use visage_dvachevsky_tempre.Base.{
  ℕ, zero, suc, ◌+◌, ◌-◌, ◌*◌, ◌/◌, ◌%◌, ◌^◌, ◌≤◌, ◌<◌, ◌≡◌, refl, sym, ◌∙◌, ap, Option, none, some,
  [], ◌∷◌, Bytes, length, ltb, leb, ◌==◌, if◌then◌else◌, ◌&&◌, arith, Bool-cases, inl, inr, ==_iff,
}

-- The value of a digit in a base up to 16.
unfoldable pub digit_value : ℕ → ℕ → Option ℕ
digit_value base c =
    let v : Option ℕ =
      if leb b'0' c && leb c b'9'
      then some (c - b'0')
      else if leb b'a' c && leb c b'z'
      then some (c - b'a' + 10)
      else if leb b'A' c && leb c b'Z'
      then some (c - b'A' + 10)
      else none in
    elim v [ none ↦ none | some d ↦ if ltb d base then some d else none ]

-- The value that the leading digits add to, and how many they are.
unfoldable pub read_digits : ℕ → ℕ → ℕ → Bytes → ℕ × ℕ
read_digits base value count [] = (value, count)
read_digits base value count (c ∷ r) = elim (digit_value base c) [
  | none ↦ (value, count)
  | some d ↦ read_digits base (value * base + d) (suc count) r
]

-- `std::from_chars` into an `unsigned long long`: the value and the number of characters read, or
-- none for `invalid_argument` (no digit) and `result_out_of_range`.
unfoldable pub from_chars : ℕ → Bytes → Option (ℕ × ℕ)
from_chars base s =
    let (value, count) = read_digits base 0 0 s in
    if count == 0 then none else if ltb value (2 ^ 64) then some (value, count) else none

unfoldable pub digit_char : ℕ → ℕ
digit_char d = if ltb d 10 then b'0' + d else b'a' + (d - 10)

-- The digits of a number in front of a text; the first number is the fuel.
unfoldable pub write_digits : ℕ → ℕ → ℕ → Bytes → Bytes
write_digits zero base n text = text
write_digits (suc fuel) base n text =
    let more = write_digits fuel base (n / base) (digit_char (n % base) ∷ text) in
    if n / base == 0 then digit_char (n % base) ∷ text else more

-- 64 digits hold every number below 2^64, in any base from 2 on.
unfoldable pub to_chars : ℕ → ℕ → Bytes
to_chars base n = write_digits 64 base n []

digit_value-digit_char :
    (base d : ℕ) → d < base → base ≤ 16 → digit_value base (digit_char d) ≡ some d
unfolding digit_value digit_char
digit_value-digit_char base d h k = ground arith

-- What reading makes of the digits that were written: the number, and then the rest of the text.
record Reads (base n : ℕ) (written text : Bytes) : Type 0 where
  count : ℕ
  some_digit : 0 < count
  long : length written ≡ count + length text
  reads : read_digits base 0 0 written ≡ read_digits base n count text

read_digits-some :
    (base value count c : ℕ) (r : Bytes) (d : ℕ)
    → digit_value base c ≡ some d
    → read_digits base value count (c ∷ r) ≡ read_digits base (value * base + d) (suc count) r
unfolding read_digits
read_digits-some base value count c r d e = ground (arith, e)

-- The last digit of a number, read after the others.
read_digits_last :
    (base n count : ℕ) (text : Bytes)
    → 2 ≤ base
    → base ≤ 16
    → read_digits base (n / base) count (digit_char (n % base) ∷ text)
      ≡ read_digits base n (suc count) text
read_digits_last base n count text h k =
    read_digits-some base (n / base) count _ text _
      (digit_value-digit_char base (n % base) (mod-lt n (omega arith)) k)
    ∙ ap (λ v. read_digits base v (suc count) text) (div-add-mod' n base)

pub write_digits_stops :
    (fuel base n : ℕ) (text : Bytes)
    → n / base ≡ 0
    → write_digits (suc fuel) base n text ≡ digit_char (n % base) ∷ text
unfolding write_digits
write_digits_stops fuel base n text e = ground (arith, e)

pub write_digits_goes_on :
    (fuel base n : ℕ) (text : Bytes)
    → 0 < n / base
    → write_digits (suc fuel) base n text
      ≡ write_digits fuel base (n / base) (digit_char (n % base) ∷ text)
unfolding write_digits
write_digits_goes_on fuel base n text e = ground (arith, e)

div-lt-pow : (fuel base n : ℕ) → 2 ≤ base → n < 2 ^ suc fuel → n / base < 2 ^ fuel
div-lt-pow fuel base n h f =
    (div-lt_iff_lt-mul {k = base} {x = n} {y = 2 ^ fuel} (omega arith)).1
      (omega (arith, pow-suc 2 fuel, mul-le-mul_left (2 ^ fuel) h))

positive-fuel : (fuel m : ℕ) → 0 < m → m < 2 ^ fuel → 0 < fuel
positive-fuel zero m p q = absurd (omega arith)
positive-fuel (suc fuel) m p q = omega arith

write_digits-Reads :
    (fuel base n : ℕ) (text : Bytes)
    → 2 ≤ base
    → base ≤ 16
    → n < 2 ^ fuel
    → 0 < fuel
    → Reads base n (write_digits fuel base n text) text
write_digits-Reads zero base n text h k f p = absurd (omega arith)
write_digits-Reads (suc fuel) base n text h k f p = elim (Bool-cases (n / base == 0)) [
  | inl e ↦
      let none_left : n / base ≡ 0 = (==_iff (n / base) 0).0 e in
      let last : Reads base n (digit_char (n % base) ∷ text) text = record {
        count = 1;
        some_digit = omega arith;
        long = omega arith;
        reads =
            ap (λ q. read_digits base q 0 (digit_char (n % base) ∷ text)) (sym none_left)
            ∙ read_digits_last base n 0 text h k;
      } in
      rw (write_digits_stops fuel base n text none_left) last
  | inr e ↦
      let some_left : 0 < n / base = ground (arith, e) in
      let small : n / base < 2 ^ fuel = div-lt-pow fuel base n h f in
      let rest : Reads base (n / base)
          (write_digits fuel base (n / base) (digit_char (n % base) ∷ text))
          (digit_char (n % base) ∷ text) =
        write_digits-Reads fuel base (n / base) (digit_char (n % base) ∷ text) h k small
          (positive-fuel fuel (n / base) some_left small) in
      let whole : Reads base n (write_digits fuel base (n / base) (digit_char (n % base) ∷ text))
          text =
        record {
          count = suc rest.count;
          some_digit = omega arith;
          long = rest.long ∙ omega arith;
          reads = rest.reads ∙ read_digits_last base n rest.count text h k;
        } in
      rw (write_digits_goes_on fuel base n text some_left) whole
]

read_nothing : (base n count : ℕ) → read_digits base n count [] ≡ (n, count)
unfolding read_digits
read_nothing base n count = refl

by_definition :
    (base n : ℕ) → Reads base n (write_digits 64 base n []) [] → Reads base n (to_chars base n) []
unfolding to_chars
by_definition base n r = r

from_chars-some :
    (base : ℕ) (s : Bytes) (n count : ℕ)
    → read_digits base 0 0 s ≡ (n, count)
    → 0 < count
    → n < 2 ^ 64
    → from_chars base s ≡ some (n, count)
unfolding from_chars
from_chars-some base s n count e p q = ground (arith, e)

-- Reading back what `to_chars` wrote of a number below 2^64, in a base from 2 to 16, gives that
-- number and takes all the characters.
pub from_chars-to_chars :
    (base n : ℕ)
    → 2 ≤ base
    → base ≤ 16
    → n < 2 ^ 64
    → from_chars base (to_chars base n) ≡ some (n, length (to_chars base n))
from_chars-to_chars base n h k f =
    let r : Reads base n (to_chars base n) [] =
      by_definition base n (write_digits-Reads 64 base n [] h k f (omega arith)) in
    from_chars-some base (to_chars base n) n r.count (r.reads ∙ read_nothing base n r.count)
      r.some_digit f
    ∙ ap (λ c. some (n, c)) (sym (r.long ∙ omega arith))

-- A number is written with a digit at least.
pub length-to_chars :
    (base n : ℕ) → 2 ≤ base → base ≤ 16 → n < 2 ^ 64 → 0 < length (to_chars base n)
length-to_chars base n h k f =
    let r : Reads base n (to_chars base n) [] =
      by_definition base n (write_digits-Reads 64 base n [] h k f (omega arith)) in
    let long : length (to_chars base n) ≡ r.count + 0 = r.long in omega (arith, long, r.some_digit)

-- What the digits of a number read as.
pub read_digits-to_chars :
    (base n : ℕ)
    → 2 ≤ base
    → base ≤ 16
    → n < 2 ^ 64
    → read_digits base 0 0 (to_chars base n) ≡ (n, length (to_chars base n))
read_digits-to_chars base n h k f =
    let r : Reads base n (to_chars base n) [] =
      by_definition base n (write_digits-Reads 64 base n [] h k f (omega arith)) in
    r.reads ∙ read_nothing base n r.count ∙ ap (λ c. (n, c)) (sym (r.long ∙ omega arith))
