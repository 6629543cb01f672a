-- ===== src/Serde/Decimal.antt =====
-- The digits that `format_uint_fast` and `std::to_chars` write.
use visage_dvachevsky_tempre.Base.{
  ℕ, zero, suc, ◌+◌, ◌*◌, ◌/◌, ◌%◌, ◌^◌, ◌≤◌, ◌<◌, ◌≡◌, refl, sym, ◌∙◌, ap, Bool, true, [], ◌∷◌,
  ◌++◌, Bytes, bytes_eq, bytes_eq→eq, length, ltb, arith, if-elim, table, table_entry,
}
use native.Mathlib.Nat.{pow-suc, one-le-pow}
use visage_dvachevsky_tempre.Digits.{
  digit_char, write_digits, to_chars, write_digits_stops, write_digits_goes_on,
}
use visage_dvachevsky_tempre.Serde.Format.{two_digits, format_uint_fast}

two_right : ℕ → Bool
two_right i = bytes_eq (two_digits i) (digit_char (i / 10) ∷ digit_char (i % 10) ∷ [])

two_right_below : table two_right 100 ≡ true
unfolding table two_right two_digits bytes_eq digit_char
two_right_below = refl

two_digits_lem : (i : ℕ) → i < 100 → two_digits i ≡ digit_char (i / 10) ∷ digit_char (i % 10) ∷ []
unfolding two_right
two_digits_lem i h = bytes_eq→eq _ _ (table_entry two_right 100 i h two_right_below)

one : (fuel n : ℕ) (text : Bytes) → n < 10 → write_digits (suc fuel) 10 n text ≡ digit_char n ∷ text
one fuel n text h =
    let e : n % 10 ≡ n = omega (arith, h) in
    write_digits_stops fuel 10 n text (omega (arith, h)) ∙ ap (λ d. digit_char d ∷ text) e

two :
    (fuel n : ℕ) (text : Bytes)
    → 10 ≤ n
    → n < 100
    → write_digits (suc (suc fuel)) 10 n text ≡ digit_char (n / 10) ∷ digit_char (n % 10) ∷ text
two fuel n text h k =
    write_digits_goes_on (suc fuel) 10 n text (omega (arith, h))
    ∙ one fuel (n / 10) _ (omega (arith, k))

three :
    (fuel n : ℕ) (text : Bytes)
    → 100 ≤ n
    → n < 1000
    → write_digits (suc (suc (suc fuel))) 10 n text
      ≡ digit_char (n / 10 / 10) ∷ digit_char (n / 10 % 10) ∷ digit_char (n % 10) ∷ text
three fuel n text h k =
    write_digits_goes_on (suc (suc fuel)) 10 n text (omega (arith, h))
    ∙ two fuel (n / 10) _ (omega (arith, h)) (omega (arith, k))

four :
    (fuel n : ℕ) (text : Bytes)
    → 1000 ≤ n
    → n < 10000
    → write_digits (suc (suc (suc (suc fuel)))) 10 n text
      ≡ digit_char (n / 10 / 10 / 10)
        ∷ digit_char (n / 10 / 10 % 10)
        ∷ digit_char (n / 10 % 10)
        ∷ digit_char (n % 10)
        ∷ text
four fuel n text h k =
    write_digits_goes_on (suc (suc (suc fuel))) 10 n text (omega (arith, h))
    ∙ three fuel (n / 10) _ (omega (arith, h)) (omega (arith, k))

digit_lem : (n : ℕ) → n < 10 → digit_char n ≡ b'0' + n
unfolding digit_char
digit_lem n h = ground (arith, h)

format_three :
    (n : ℕ)
    → 100 ≤ n
    → n < 1000
    → (b'0' + n / 100) ∷ two_digits (n % 100)
      ≡ digit_char (n / 10 / 10) ∷ digit_char (n / 10 % 10) ∷ digit_char (n % 10) ∷ []
format_three n h k =
    let a : n / 10 / 10 ≡ n / 100 = omega arith in
    let b : n % 100 / 10 ≡ n / 10 % 10 = omega arith in
    let c : n % 100 % 10 ≡ n % 10 = omega arith in
    ap (λ t. (b'0' + n / 100) ∷ t) (two_digits_lem (n % 100) (omega arith))
    ∙ ap (λ d. (b'0' + n / 100) ∷ digit_char d ∷ digit_char (n % 100 % 10) ∷ []) b
    ∙ ap (λ d. (b'0' + n / 100) ∷ digit_char (n / 10 % 10) ∷ digit_char d ∷ []) c
    ∙ ap (λ d. d ∷ digit_char (n / 10 % 10) ∷ digit_char (n % 10) ∷ [])
        (sym (ap digit_char a ∙ digit_lem (n / 100) (omega (arith, k))))

format_four :
    (n : ℕ)
    → 1000 ≤ n
    → n < 10000
    → two_digits (n / 100) ++ two_digits (n % 100)
      ≡ digit_char (n / 10 / 10 / 10)
        ∷ digit_char (n / 10 / 10 % 10)
        ∷ digit_char (n / 10 % 10)
        ∷ digit_char (n % 10)
        ∷ []
format_four n h k =
    let a : n / 100 / 10 ≡ n / 10 / 10 / 10 = omega arith in
    let b : n / 100 % 10 ≡ n / 10 / 10 % 10 = omega arith in
    let c : n % 100 / 10 ≡ n / 10 % 10 = omega arith in
    let d : n % 100 % 10 ≡ n % 10 = omega arith in
    ap (λ t. t ++ two_digits (n % 100)) (two_digits_lem (n / 100) (omega (arith, k)))
    ∙ ap (λ t. digit_char (n / 100 / 10) ∷ digit_char (n / 100 % 10) ∷ t)
        (two_digits_lem (n % 100) (omega arith))
    ∙ ap
        (λ i.
          digit_char i
          ∷ digit_char (n / 100 % 10)
          ∷ digit_char (n % 100 / 10)
          ∷ digit_char (n % 100 % 10)
          ∷ [])
        a
    ∙ ap
        (λ i.
          digit_char (n / 10 / 10 / 10)
          ∷ digit_char i
          ∷ digit_char (n % 100 / 10)
          ∷ digit_char (n % 100 % 10)
          ∷ [])
        b
    ∙ ap
        (λ i.
          digit_char (n / 10 / 10 / 10)
          ∷ digit_char (n / 10 / 10 % 10)
          ∷ digit_char i
          ∷ digit_char (n % 100 % 10)
          ∷ [])
        c
    ∙ ap
        (λ i.
          digit_char (n / 10 / 10 / 10)
          ∷ digit_char (n / 10 / 10 % 10)
          ∷ digit_char (n / 10 % 10)
          ∷ digit_char i
          ∷ [])
        d

-- `format_uint_fast` writes what `std::to_chars` does.
pub format_uint_fast_lem : (n : ℕ) → format_uint_fast n ≡ to_chars 10 n
unfolding format_uint_fast to_chars
format_uint_fast_lem n =
    let T : Bytes → Type 0 = λ t. t ≡ write_digits 64 10 n [] in
    if-elim T (ltb n 10) _ _
      (λ a.
        sym (one 63 n [] (ground (arith, a)) ∙ ap (λ d. d ∷ []) (digit_lem n (ground (arith, a)))))
      (λ a.
        if-elim T (ltb n 100) _ _
          (λ b.
            two_digits_lem n (ground (arith, b))
            ∙ sym (two 62 n [] (ground (arith, a)) (ground (arith, b))))
          (λ b.
            if-elim T (ltb n 1000) _ _
              (λ c.
                format_three n (ground (arith, b)) (ground (arith, c))
                ∙ sym (three 61 n [] (ground (arith, b)) (ground (arith, c))))
              (λ c.
                if-elim T (ltb n 10000) _ _
                  (λ d.
                    format_four n (ground (arith, c)) (ground (arith, d))
                    ∙ sym (four 60 n [] (ground (arith, c)) (ground (arith, d))))
                  (λ d. refl))))

-- The digits that a number has at most, and at least.
pub digits_at_most :
    (k fuel n : ℕ) (text : Bytes)
    → n < 10 ^ suc k
    → length (write_digits fuel 10 n text) ≤ suc k + length text
unfolding write_digits
digits_at_most k zero n text h = omega arith
digits_at_most zero (suc fuel) n text h = ground (arith, h)
digits_at_most (suc k) (suc fuel) n text h =
    let smaller : n / 10 < 10 ^ suc k = omega (arith, h, pow-suc 10 (suc k)) in
    ground (arith, digits_at_most k fuel (n / 10) (digit_char (n % 10) ∷ text) smaller)

text_at_least : (fuel n : ℕ) (text : Bytes) → length text ≤ length (write_digits fuel 10 n text)
unfolding write_digits
text_at_least zero n text = omega arith
text_at_least (suc fuel) n text =
    ground (arith, text_at_least fuel (n / 10) (digit_char (n % 10) ∷ text))

pub digits_at_least :
    (k fuel n : ℕ) (text : Bytes)
    → k < fuel
    → 10 ^ k ≤ n
    → suc k + length text ≤ length (write_digits fuel 10 n text)
unfolding write_digits
digits_at_least k zero n text f h = absurd (omega (arith, f))
digits_at_least zero (suc fuel) n text f h =
    ground (arith, text_at_least fuel (n / 10) (digit_char (n % 10) ∷ text))
digits_at_least (suc k) (suc fuel) n text f h =
    let whole : 10 ^ suc k ≡ 10 ^ k * 10 = pow-suc 10 k in
    let some_left : 0 < 10 ^ k = one-le-pow k 10 (omega arith) in
    let smaller : 10 ^ k ≤ n / 10 = omega (arith, h, whole) in
    ground (
      arith,
      some_left,
      smaller,
      digits_at_least k fuel (n / 10) (digit_char (n % 10) ∷ text) (omega (arith, f)) smaller,
    )
