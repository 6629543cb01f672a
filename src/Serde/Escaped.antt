-- ===== src/Serde/Escaped.antt =====
-- The escaping in blocks against one character after the other, and read back by the cursor.
use visage_dvachevsky_tempre.Base.{
  ℕ, zero, suc, ◌+◌, ◌-◌, ◌/◌, ◌≤◌, ◌<◌, ◌≡◌, refl, sym, ◌∙◌, ap, true, false, ◌||◌, List, [], ◌∷◌,
  ◌++◌, Bytes, length, take, drop, get_or, ltb, if◌then◌else◌, arith, Bool-cases, inl, inr, if-elim,
  if-true, if-false, append-nil, append_assoc, take-append-drop, drop-drop,
}
use mathlib.Core.Path.{subst}
use visage_dvachevsky_tempre.Serde.Escape.{
  needs_escape, any_needs, needs_in_blocks, needs_json_escaping, escape_one_char, set_bits,
  append_bits, clean_run, escape_tail, escape_blocks, escape_json_string_into_escaped,
  escape_json_string_into, escape_json_string,
}

-- One character after the other.
unfoldable pub escaped : Bytes → Bytes
escaped [] = []
escaped (c ∷ r) = (if needs_escape c then escape_one_char c else c ∷ []) ++ escaped r

pub escaped-append : (a b : Bytes) → escaped (a ++ b) ≡ escaped a ++ escaped b
unfolding escaped
escaped-append [] b = refl
escaped-append (c ∷ r) b =
    ap (λ t. (if needs_escape c then escape_one_char c else c ∷ []) ++ t) (escaped-append r b)
    ∙ sym (
        append_assoc (if needs_escape c then escape_one_char c else c ∷ []) (escaped r) (escaped b))

escaped-clean : (s : Bytes) → any_needs s ≡ false → escaped s ≡ s
unfolding escaped any_needs
escaped-clean [] q = refl
escaped-clean (c ∷ r) q = ground (arith, q, escaped-clean r)

any_needs-append : (a b : Bytes) → any_needs (a ++ b) ≡ (any_needs a || any_needs b)
unfolding any_needs
any_needs-append [] b = refl
any_needs-append (c ∷ r) b = ground (arith, any_needs-append r b)

any_needs-split : (n : ℕ) (s : Bytes) → (any_needs (take n s) || any_needs (drop n s)) ≡ any_needs s
any_needs-split n s =
    sym (any_needs-append (take n s) (drop n s)) ∙ ap any_needs (take-append-drop n s)

escaped_nil : escaped [] ≡ []
unfolding escaped
escaped_nil = refl

escaped-needs :
    (c : ℕ) (r : Bytes) → needs_escape c ≡ true → escaped (c ∷ r) ≡ escape_one_char c ++ escaped r
unfolding escaped
escaped-needs c r q = ap (λ t. t ++ escaped r) (if-true _ _ q)

escaped-keeps : (c : ℕ) (r : Bytes) → needs_escape c ≡ false → escaped (c ∷ r) ≡ c ∷ escaped r
unfolding escaped
escaped-keeps c r q = ap (λ t. t ++ escaped r) (if-false _ _ q)

needs_in_blocks_lem : (fuel : ℕ) (s : Bytes) → needs_in_blocks fuel s ≡ any_needs s
unfolding needs_in_blocks
needs_in_blocks_lem zero s = refl
needs_in_blocks_lem (suc fuel) s =
    ground (arith, needs_in_blocks_lem fuel (drop 16 s), any_needs-split 16 s)

-- The run in front is clean, and what is left starts with a character to escape.
abbrev Starts : Bytes → Type 0
Starts [] = Unit
Starts (c ∷ r) = needs_escape c ≡ true

clean_run-Starts : (s : Bytes) → Starts (clean_run s).1 × (length (clean_run s).1 ≤ length s)
unfolding clean_run
clean_run-Starts [] = (tt, omega arith)
clean_run-Starts (c ∷ r) =
    let (starts, short) = clean_run-Starts r in
    if-elim (λ (p : Bytes × Bytes). Starts p.1 × (length p.1 ≤ suc (length r))) (needs_escape c) _ _
      (λ q. (q, omega arith)) (λ q. (starts, omega (arith, short)))

clean_run_lem : (s : Bytes) → (clean_run s).0 ++ escaped (clean_run s).1 ≡ escaped s
unfolding clean_run escaped
clean_run_lem [] = refl
clean_run_lem (c ∷ r) = ground (arith, clean_run_lem r)

escape_tail_lem : (fuel : ℕ) (s : Bytes) → length s < fuel → escape_tail fuel s ≡ escaped s
unfolding escape_tail
escape_tail_lem zero s h = absurd (omega (arith, h))
escape_tail_lem (suc fuel) s h = from (escape_tail_lem fuel) (clean_run s).1 refl ∙ clean_run_lem s
  where
    clean : Bytes
    clean = (clean_run s).0

    from :
        ((r : Bytes) → length r < fuel → escape_tail fuel r ≡ escaped r)
        → (rest : Bytes) → (clean_run s).1 ≡ rest
        → (elim rest as (λ _. Bytes) [
          | [] ↦ clean
          | c ∷ r ↦ clean ++ (escape_one_char c ++ escape_tail fuel r)
        ])
          ≡ clean ++ escaped (clean_run s).1
    from shorter [] q =
        sym (append-nil clean) ∙ ap (λ t. clean ++ t) (sym (ap escaped q ∙ escaped_nil))
    from shorter (c ∷ r) q =
        let (starts, short) = clean_run-Starts s in
        let less : length r < fuel = omega (arith, short, ap length q, h) in
        ap (λ t. clean ++ (escape_one_char c ++ t)) (shorter r less)
        ∙ ap (λ t. clean ++ t) (sym (escaped-needs c r (subst Starts q starts)))
        ∙ ap (λ t. clean ++ escaped t) (sym q)

-- One character more in front.
take_next : (n c : ℕ) (xs r : Bytes) → drop n xs ≡ c ∷ r → take (suc n) xs ≡ take n xs ++ c ∷ []
take_next zero c [] r q = absurd (ground (arith, q))
take_next zero c (x ∷ xs) r q = ground (arith, q)
take_next (suc n) c [] r q = absurd (ground (arith, q))
take_next (suc n) c (x ∷ xs) r q = ap (λ t. x ∷ t) (take_next n c xs r q)

get_or-drop :
    (n c : ℕ) (xs r : Bytes) → drop n xs ≡ c ∷ r → (get_or xs n 0 ≡ c) × (drop (suc n) xs ≡ r)
get_or-drop zero c [] r q = absurd (ground (arith, q))
get_or-drop zero c (x ∷ xs) r q = (ground (arith, q), ground (arith, q))
get_or-drop (suc n) c [] r q = absurd (ground (arith, q))
get_or-drop (suc n) c (x ∷ xs) r q = get_or-drop n c xs r q

drop_past : (last i : ℕ) (xs : Bytes) → last ≤ i → drop (i - last) (drop last xs) ≡ drop i xs
drop_past last i xs h =
    let e : last + (i - last) ≡ i = omega (arith, h) in
    sym (drop-drop last (i - last) xs) ∙ ap (λ n. drop n xs) e

-- The loop on the bits, with the run from `last` to `i` not appended yet.
append_bits_lem :
    (chunk : Bytes) (cs : Bytes) (last i : ℕ)
    → last ≤ i
    → drop i chunk ≡ cs
    → append_bits chunk last (set_bits i cs) ≡ take (i - last) (drop last chunk) ++ escaped cs
unfolding append_bits set_bits escaped
append_bits_lem chunk [] last i h q =
    sym (take-append-drop (i - last) (drop last chunk))
    ∙ ap (λ t. take (i - last) (drop last chunk) ++ t) (drop_past last i chunk h ∙ q)
append_bits_lem chunk (c ∷ r) last i h q =
    let (here, later) = get_or-drop i c chunk r q in
    let run : Bytes = take (i - last) (drop last chunk) in
    let bits : List ℕ = set_bits (suc i) r in
    elim (Bool-cases (needs_escape c)) [
      | inl e ↦
          let next : i + 1 ≡ suc i = omega arith in
          let none_left : suc i - suc i ≡ 0 = omega arith in
          ap (append_bits chunk last) (if-true (i ∷ bits) bits e)
          ∙ ap (λ t. run ++ t)
              (ap (λ d. escape_one_char d ++ append_bits chunk (i + 1) bits) here
                ∙ ap (λ n. escape_one_char c ++ append_bits chunk n bits) next
                ∙ ap (λ t. escape_one_char c ++ t)
                    (append_bits_lem chunk r (suc i) (suc i) (omega arith) later
                      ∙ ap (λ n. take n (drop (suc i) chunk) ++ escaped r) none_left))
          ∙ ap (λ t. run ++ t) (sym (escaped-needs c r e))
      | inr e ↦
          let more : suc i - last ≡ suc (i - last) = omega (arith, h) in
          ap (append_bits chunk last) (if-false (i ∷ bits) bits e)
          ∙ append_bits_lem chunk r last (suc i) (omega (arith, h)) later
          ∙ ap (λ n. take n (drop last chunk) ++ escaped r) more
          ∙ ap (λ t. t ++ escaped r)
              (take_next (i - last) c (drop last chunk) r (drop_past last i chunk h ∙ q))
          ∙ append_assoc run (c ∷ []) (escaped r)
          ∙ ap (λ t. run ++ t) (sym (escaped-keeps c r e))
    ]

escape_blocks_lem : (fuel : ℕ) (s : Bytes) → escape_blocks fuel s ≡ escaped s
unfolding escape_blocks
escape_blocks_lem zero s = escape_tail_lem (length s + 1) s (omega arith)
escape_blocks_lem (suc fuel) s =
    let chunk : Bytes = take 16 s in
    let whole : escaped chunk ++ escaped (drop 16 s) ≡ escaped s =
      sym (escaped-append chunk (drop 16 s)) ∙ ap escaped (take-append-drop 16 s) in
    let S : Bytes → Type 0 = λ t. t ≡ escaped s in
    let rest : escape_blocks fuel (drop 16 s) ≡ escaped (drop 16 s) =
      escape_blocks_lem fuel (drop 16 s) in
    if-elim S (ltb (length s) 16) _ _ (λ q. escape_tail_lem (length s + 1) s (omega arith))
      (λ q.
        if-elim S (any_needs chunk) _ _
          (λ n.
            ap (λ t. t ++ escape_blocks fuel (drop 16 s))
              (append_bits_lem chunk chunk 0 0 (omega arith) refl)
            ∙ ap (λ t. escaped chunk ++ t) rest
            ∙ whole)
          (λ n.
            ap (λ t. t ++ escape_blocks fuel (drop 16 s)) (sym (escaped-clean chunk n))
            ∙ ap (λ t. escaped chunk ++ t) rest
            ∙ whole))

-- `escape_json_string` and the two functions that append, with their blocks of 16 bytes and their test
-- for text that is clean, escape one character after the other.
pub escape_json_string_lem :
    (s out : Bytes)
    → (escape_json_string s ≡ escaped s)
      × (escape_json_string_into s out ≡ out ++ escaped s)
      × (escape_json_string_into_escaped s out ≡ out ++ escaped s)
unfolding escape_json_string escape_json_string_into escape_json_string_into_escaped
    needs_json_escaping
escape_json_string_lem s out =
    let blocks : escape_blocks (length s / 16) s ≡ escaped s =
      escape_blocks_lem (length s / 16) s in
    let needs : needs_in_blocks (length s / 16) s ≡ any_needs s =
      needs_in_blocks_lem (length s / 16) s in
    (
      if-elim (λ t. t ≡ escaped s) (needs_in_blocks (length s / 16) s) _ _ (λ q. blocks)
          (λ q. sym (escaped-clean s (sym needs ∙ q))),
      if-elim (λ t. t ≡ out ++ escaped s) (needs_in_blocks (length s / 16) s) _ _
          (λ q. ap (λ t. out ++ t) blocks)
          (λ q. ap (λ t. out ++ t) (sym (escaped-clean s (sym needs ∙ q)))),
      ap (λ t. out ++ t) blocks,
    )
