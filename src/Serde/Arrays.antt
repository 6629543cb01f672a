-- ===== src/Serde/Arrays.antt =====
-- `serialize_int_array_into` of core/include/katana/core/serde.hpp: its text and its local buffer.
use visage_dvachevsky_tempre.Base.{
  All, some, none, refl, ℕ, ◌+◌, ◌-◌, ◌^◌, ◌≤◌, ◌<◌, ◌≡◌, sym, ◌∙◌, ap, Bool, true, false, List, [],
  ◌∷◌, ◌++◌, Bytes, length, leb, if◌then◌else◌, arith, Bool-cases, inl, inr, append-nil,
  append_assoc, length-append,
}
use visage_dvachevsky_tempre.Digits.{write_digits, to_chars}
use visage_dvachevsky_tempre.Serde.Parse.{ℤ}
use visage_dvachevsky_tempre.Serde.Format.{
  format_uint_fast, sign_text, magnitude, int_text, local_size, int_round, int_rounds,
  serialize_int_array_into,
}
use visage_dvachevsky_tempre.Serde.Decimal.{digits_at_most, digits_at_least, format_uint_fast_lem}

-- The values of an integer type of at most 4 bytes.
abbrev pub IsSmallInt : ℤ → Type 0
IsSmallInt v = magnitude v < 2 ^ 32

-- The text of the integers behind the first, or of all of them.
unfoldable pub joined : Bool → Bool → List ℤ → Bytes
joined small first [] = []
joined small first (v ∷ vs) =
    (if first then [] else b',' ∷ []) ++ int_text small v ++ joined small false vs

-- The text is no longer than the room that a round leaves for it.
abbrev pub IsShort : Bool → ℤ → Type 0
IsShort small v = length (int_text small v) ≤ 16

-- What a round on a short value leaves: nothing is lost or moved, and the array is not overrun.
record RoundOk (small first : Bool) (v : ℤ) (s t : Bytes × Bytes) : Type 0 where
  fits : length t.1 ≤ local_size
  text : t.0 ++ t.1 ≡ s.0 ++ s.1 ++ (if first then [] else b',' ∷ []) ++ int_text small v

int_round_lem :
    (small first : Bool) (v : ℤ) (s : Bytes × Bytes)
    → IsShort small v
    → (t : Bytes × Bytes) × (int_round small first v s ≡ some t) × RoundOk small first v s t
unfolding int_round
int_round_lem small first v (out, local) h =
    let comma : Bytes = if first then [] else b',' ∷ [] in
    let text : Bytes = int_text small v in
    let one_byte : length comma ≤ 1 = ground arith in
    elim (Bool-cases (leb (local_size - 16) (length local))) [
      | inl e ↦
          let few : length (comma ++ text) ≤ local_size =
            omega (arith, one_byte, h, length-append comma text) in
          (
            (out ++ local, comma ++ text),
            ground (arith, e, few),
            record { fits = few; text = sym (append_assoc (out ++ local) comma text) },
          )
      | inr e ↦
          let few : length (local ++ comma ++ text) ≤ local_size = ground (
            arith,
            e,
            one_byte,
            h,
            length-append local comma,
            length-append (local ++ comma) text,
          ) in
          (
            (out, local ++ comma ++ text),
            ground (arith, e, few),
            record {
              fits = few;
              text =
                  sym (append_assoc out (local ++ comma) text)
                  ∙ ap (λ t. t ++ text) (sym (append_assoc out local comma));
            },
          )
    ]

int_rounds_lem :
    (small first : Bool) (vs : List ℤ) (s : Bytes × Bytes)
    → All (IsShort small) vs
    → (t : Bytes × Bytes) × (int_rounds small first vs s ≡ some t)
      × (t.0 ++ t.1 ≡ s.0 ++ s.1 ++ joined small first vs)
unfolding int_rounds joined
int_rounds_lem small first [] s h = (s, refl, sym (append-nil (s.0 ++ s.1)))
int_rounds_lem small first (v ∷ vs) s (h, hs) =
    let comma : Bytes = if first then [] else b',' ∷ [] in
    let text : Bytes = int_text small v in
    let (next, went, o) = int_round_lem small first v s h in
    let (t, rest, written) = int_rounds_lem small false vs next hs in
    (
      t,
      ground (arith, went, rest),
      written
          ∙ ap (λ t. t ++ joined small false vs) o.text
          ∙ ap (λ t. t ++ joined small false vs) (append_assoc (s.0 ++ s.1) comma text)
          ∙ append_assoc (s.0 ++ s.1) (comma ++ text) (joined small false vs),
    )

-- If no value of the array has more than 16 bytes of text, `serialize_int_array_into` never writes
-- behind the 512 bytes of its local buffer, and it appends the integers in brackets, with commas
-- between them, however often that buffer is flushed.
pub serialize_int_array_into_lem :
    (small : Bool) (vs : List ℤ) (out : Bytes)
    → All (IsShort small) vs
    → serialize_int_array_into small vs out
      ≡ some (out ++ b'[' ∷ [] ++ joined small true vs ++ b']' ∷ [])
unfolding serialize_int_array_into joined
serialize_int_array_into_lem small [] out h = ap some (
    sym (
      ap (λ t. t ++ b']' ∷ []) (append-nil (out ++ b'[' ∷ []))
      ∙ append_assoc out (b'[' ∷ []) (b']' ∷ [])))
serialize_int_array_into_lem small (v ∷ vs) out h =
    let (t, went, written) = int_rounds_lem small true (v ∷ vs) (out ++ b'[' ∷ [], []) h in
    ground (arith, went)
    ∙ ap some (
        ap (λ t. t ++ b']' ∷ [])
          (written ∙ ap (λ t. t ++ joined small true (v ∷ vs)) (append-nil (out ++ b'[' ∷ []))))

length-sign : (v : ℤ) → length (sign_text v) ≤ 1
length-sign (ℤ.pos n) = omega arith
length-sign (ℤ.negsuc n) = omega arith

-- The values of the types of at most 4 bytes have short texts.
pub small-IsShort : (v : ℤ) → IsSmallInt v → IsShort true v
unfolding to_chars
small-IsShort v h =
    let digits : length (to_chars 10 (magnitude v)) ≤ 10 + 0 =
      digits_at_most 9 64 (magnitude v) [] (omega (arith, h)) in
    let same : length (format_uint_fast (magnitude v)) ≡ length (to_chars 10 (magnitude v)) =
      ap length (format_uint_fast_lem (magnitude v)) in
    omega (
      arith,
      length-append (sign_text v) (format_uint_fast (magnitude v)),
      length-sign v,
      digits,
      same,
    )

-- On an integer of 8 bytes a round may overrun it: with 495 bytes in the local buffer, which is not
-- flushed, the comma and the 20 digits of a number from 10^19 on end behind its 512 bytes.
pub int_round-overflow :
    (n : ℕ) (s : Bytes × Bytes)
    → 10 ^ 19 ≤ n
    → length s.1 ≡ 495
    → int_round false false (ℤ.pos n) s ≡ none
unfolding int_round to_chars
int_round-overflow n (out, local) h q =
    let room : leb (local_size - 16) (length local) ≡ false = ground (arith, q) in
    let digits : 20 + 0 ≤ length (write_digits 64 10 n []) =
      digits_at_least 19 64 n [] (omega arith) h in
    let long : 512 < length (local ++ b',' ∷ [] ++ write_digits 64 10 n []) = omega (
      arith,
      digits,
      q,
      length-append local (b',' ∷ []),
      length-append (local ++ b',' ∷ []) (write_digits 64 10 n []),
    ) in
    ground (arith, room, long)
