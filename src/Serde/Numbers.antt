-- ===== src/Serde/Numbers.antt =====
-- `parse_int64` against the value of the digits.
use visage_dvachevsky_tempre.Base.{
  ℕ, suc, ◌+◌, ◌-◌, ◌*◌, ◌%◌, ◌^◌, ◌≤◌, ◌<◌, ◌≡◌, refl, sym, ◌∙◌, ap, Bool, true, false, none, some,
  [], ◌∷◌, Bytes, length, drop, ltb, ◌==◌, arith, Bool-cases, inl, inr, if-true, if-false, drop_all,
}
use native.Mathlib.Nat.{mod-eq_of_lt}
use mathlib.Core.Path.{subst}
use visage_dvachevsky_tempre.Digits.{
  digit_value, read_digits, to_chars, length-to_chars, read_digits-to_chars,
}
use visage_dvachevsky_tempre.Serde.Cursor.{is_json_whitespace, skip_ws}
use visage_dvachevsky_tempre.Serde.Parse.{
  ℤ, is_digit, accumulate, signed, parse_digits, int64_at, parse_int64, int64_max,
}

digit-some : (c : ℕ) → is_digit c ≡ true → digit_value 10 c ≡ some (c - b'0')
unfolding digit_value
digit-some c q = ground (arith, q)

digit-none : (c : ℕ) → is_digit c ≡ false → digit_value 10 c ≡ none
unfolding digit_value
digit-none c q = ground (arith, q)

read-digit :
    (v count c : ℕ) (r : Bytes)
    → is_digit c ≡ true
    → read_digits 10 v count (c ∷ r) ≡ read_digits 10 (v * 10 + (c - b'0')) (suc count) r
unfolding read_digits
read-digit v count c r q =
    ap
      (λ o. elim o as (λ _. ℕ × ℕ) [
        | none ↦ (v, count)
        | some d ↦ read_digits 10 (v * 10 + d) (suc count) r
      ])
      (digit-some c q)

read-stop :
    (v count c : ℕ) (r : Bytes) → is_digit c ≡ false → read_digits 10 v count (c ∷ r) ≡ (v, count)
unfolding read_digits
read-stop v count c r q =
    ap
      (λ o. elim o as (λ _. ℕ × ℕ) [
        | none ↦ (v, count)
        | some d ↦ read_digits 10 (v * 10 + d) (suc count) r
      ])
      (digit-none c q)

read-nothing : (v count : ℕ) → read_digits 10 v count [] ≡ (v, count)
unfolding read_digits
read-nothing v count = refl

count-read_digits : (v count : ℕ) (s : Bytes) → count ≤ (read_digits 10 v count s).1
count-read_digits v count [] =
    subst (λ (p : ℕ × ℕ). count ≤ p.1) (sym (read-nothing v count)) (omega arith)
count-read_digits v count (c ∷ r) = elim (Bool-cases (is_digit c)) [
  | inl e ↦
      subst (λ (p : ℕ × ℕ). count ≤ p.1) (sym (read-digit v count c r e))
        (omega (arith, count-read_digits (v * 10 + (c - b'0')) (suc count) r))
  | inr e ↦ subst (λ (p : ℕ × ℕ). count ≤ p.1) (sym (read-stop v count c r e)) (omega arith)
]

wrapped : (v d : ℕ) → ((v % 2 ^ 64) * 10 + d) % 2 ^ 64 ≡ (v * 10 + d) % 2 ^ 64
wrapped v d = omega arith

-- What a loop on the digits leaves.
abbrev left_of : ℕ → Bytes → ℕ × ℕ → ℕ × Bytes
left_of count s (v, n) = (v % 2 ^ 64, drop (n - count) s)

accumulate_lem :
    (v count : ℕ) (s : Bytes)
    → accumulate (v % 2 ^ 64) s ≡ left_of count s (read_digits 10 v count s)
unfolding accumulate
accumulate_lem v count [] =
    let none_read : count - count ≡ 0 = omega arith in
    sym (
      ap (left_of count []) (read-nothing v count)
      ∙ ap (λ (n : ℕ). (v % 2 ^ 64, drop {A = ℕ} n [])) none_read)
accumulate_lem v count (c ∷ r) =
    let d : ℕ = c - b'0' in
    let p : ℕ × ℕ = read_digits 10 (v * 10 + d) (suc count) r in
    elim (Bool-cases (is_digit c)) [
      | inl e ↦
          let one_less : p.1 - count ≡ suc (p.1 - suc count) =
            omega (arith, count-read_digits (v * 10 + d) (suc count) r) in
          if-true _ _ e
          ∙ ap (λ w. accumulate w r) (wrapped v d)
          ∙ accumulate_lem (v * 10 + d) (suc count) r
          ∙ sym (ap (λ n. (p.0 % 2 ^ 64, drop n (c ∷ r))) one_less)
          ∙ sym (ap (left_of count (c ∷ r)) (read-digit v count c r e))
      | inr e ↦
          let none_read : count - count ≡ 0 = omega arith in
          if-false _ _ e
          ∙ sym (
              ap (left_of count (c ∷ r)) (read-stop v count c r e)
              ∙ ap (λ n. (v % 2 ^ 64, drop n (c ∷ r))) none_read)
    ]

parse_digits_lem :
    (negative : Bool) (c : ℕ) (r start : Bytes)
    → is_digit c ≡ true
    → parse_digits negative (c ∷ r) start ≡ (
      signed negative ((read_digits 10 0 0 (c ∷ r)).0 % 2 ^ 64),
      drop (read_digits 10 0 0 (c ∷ r)).1 (c ∷ r),
    )
unfolding parse_digits
parse_digits_lem negative c r start q =
    let whole : (read_digits 10 0 0 (c ∷ r)).1 - 0 ≡ (read_digits 10 0 0 (c ∷ r)).1 = omega arith in
    if-true _ _ q
    ∙ ap (λ (p : ℕ × Bytes). (signed negative p.0, p.1)) (accumulate_lem 0 0 (c ∷ r))
    ∙ ap (λ n. (signed negative ((read_digits 10 0 0 (c ∷ r)).0 % 2 ^ 64), drop n (c ∷ r))) whole

skip-digit : (c : ℕ) (r : Bytes) → is_json_whitespace c ≡ false → skip_ws (c ∷ r) ≡ c ∷ r
unfolding skip_ws
skip-digit c r q = ground (arith, q)

digit-not_white : (c : ℕ) → is_digit c ≡ true → is_json_whitespace c ≡ false
unfolding is_json_whitespace
digit-not_white c q = ground (arith, q)

minus-not_white : is_json_whitespace b'-' ≡ false
unfolding is_json_whitespace
minus-not_white = refl

-- `parse_int64` on digits, alone or behind a minus: the accumulator keeps the value of all the digits
-- modulo 2^64, whatever their number, and only the remainder is compared with the range of `int64_t`;
-- the cursor is left behind the digits.
pub parse_int64_lem :
    (c : ℕ) (r : Bytes)
    → is_digit c ≡ true
    → (parse_int64 (c ∷ r) ≡ (
      signed false ((read_digits 10 0 0 (c ∷ r)).0 % 2 ^ 64),
      drop (read_digits 10 0 0 (c ∷ r)).1 (c ∷ r),
    ))
      × (parse_int64 (b'-' ∷ c ∷ r) ≡ (
        signed true ((read_digits 10 0 0 (c ∷ r)).0 % 2 ^ 64),
        drop (read_digits 10 0 0 (c ∷ r)).1 (c ∷ r),
      ))
unfolding parse_int64
parse_int64_lem c r q =
    let quote : (c == b'"') ≡ false = ground (arith, q) in
    let minus : (c == b'-') ≡ false = ground (arith, q) in
    let plus : (c == b'+') ≡ false = ground (arith, q) in
    (
      ap int64_at (skip-digit c r (digit-not_white c q))
          ∙ if-false _ _ quote
          ∙ if-false _ _ minus
          ∙ if-false _ _ plus
          ∙ parse_digits_lem false c r (c ∷ r) q,
      ap int64_at (skip-digit b'-' (c ∷ r) minus-not_white)
          ∙ parse_digits_lem true c r (b'-' ∷ c ∷ r) q,
    )

opening :
    (c n : ℕ) (r : Bytes) → read_digits 10 0 0 (c ∷ r) ≡ (n, length (c ∷ r)) → is_digit c ≡ true
opening c n r q = elim (Bool-cases (is_digit c)) [
  | inl e ↦ e
  | inr e ↦ absurd (omega (arith, ap (λ (p : ℕ × ℕ). p.1) (sym (read-stop 0 0 c r e) ∙ q)))
]

parsed_back :
    (n : ℕ) (t : Bytes)
    → n < 2 ^ 63
    → 0 < length t
    → read_digits 10 0 0 t ≡ (n, length t)
    → parse_int64 t ≡ (some (ℤ.pos n), [])
parsed_back n [] h p q = absurd (omega (arith, p))
parsed_back n (c ∷ r) h p q =
    let whole : n % 2 ^ 64 ≡ n = mod-eq_of_lt (omega (arith, h)) in
    let within : ltb int64_max n ≡ false = ground (arith, h) in
    (parse_int64_lem c r (opening c n r q)).0
    ∙ ap (λ (p : ℕ × ℕ). (signed false (p.0 % 2 ^ 64), drop p.1 (c ∷ r))) q
    ∙ ap (λ m. (signed false m, drop (length (c ∷ r)) (c ∷ r))) whole
    ∙ ap (λ s. (signed false n, s)) (drop_all (length (c ∷ r)) (c ∷ r) (omega arith))
    ∙ ap (λ o. (o, [])) (if-false _ _ within)

-- A number that an `int64_t` holds, written by `std::to_chars`, is read back by `parse_int64`.
pub parse_int64-to_chars : (n : ℕ) → n < 2 ^ 63 → parse_int64 (to_chars 10 n) ≡ (some (ℤ.pos n), [])
parse_int64-to_chars n h =
    parsed_back n (to_chars 10 n) h
      (length-to_chars 10 n (omega arith) (omega arith) (omega (arith, h)))
      (read_digits-to_chars 10 n (omega arith) (omega arith) (omega (arith, h)))
