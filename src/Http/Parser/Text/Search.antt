-- ===== src/Http/Parser/Text/Search.antt =====
-- The searches of the parser find the first occurrence, and the search for the end of the header
-- section may be resumed.
use visage_dvachevsky_tempre.Base.{
  ℕ, zero, suc, ◌+◌, ◌-◌, ◌≤◌, ◌<◌, ◌≡◌, ◌≢◌, refl, sym, ◌∙◌, ap, some, [], ◌∷◌, ◌++◌, Bytes,
  length, length-drop, length-take, take-take_le, drop-take, take, drop, All, arith, Option-cases,
  Bool-cases, inl, inr, ◌==◌, ltb, if◌then◌else◌,
}
use visage_dvachevsky_tempre.Http.Parser.Text.{find_byte, terminator_from, find_header_terminator}

abbrev pub Lacks : ℕ → Bytes → Type 0
Lacks c l = All (λ b. b ≢ c) l

-- `find` returns the length of the part before the first occurrence.
pub find_byte-append :
    (c : ℕ) (l r : Bytes) → Lacks c l → find_byte c (l ++ c ∷ r) ≡ some (length l)
unfolding find_byte
find_byte-append c [] r h = ground arith
find_byte-append c (b ∷ l) r (hb, hl) = ground (arith, find_byte-append c l r hl)

-- What `find` returns splits the text at an occurrence, with none before.
pub find_byte_split :
    (c : ℕ) (l : Bytes) (n : ℕ)
    → find_byte c l ≡ some n
    → (l ≡ take n l ++ c ∷ drop (n + 1) l) × Lacks c (take n l) × (n < length l)
unfolding find_byte
find_byte_split c [] n h = cc
find_byte_split c (b ∷ l) n h = elim (Bool-cases (b == c)) [
  | inl e ↦ first (ground arith) (ground arith)
  | inr e ↦ elim (Option-cases (find_byte c l)) [
    | inl m ↦ ground arith
    | inr (m, f) ↦ later m (ground arith) (ground arith) (find_byte_split c l m f)
  ]
]
  where
    first :
        b ≡ c
        → n ≡ 0
        → (b ∷ l ≡ take n (b ∷ l) ++ c ∷ drop (n + 1) (b ∷ l))
          × Lacks c (take n (b ∷ l))
          × (n < length (b ∷ l))
    first e z = rw (z, e) (refl, tt, omega arith)

    later :
        (m : ℕ)
        → n ≡ suc m
        → b ≢ c
        → (l ≡ take m l ++ c ∷ drop (m + 1) l) × Lacks c (take m l) × (m < length l)
        → (b ∷ l ≡ take n (b ∷ l) ++ c ∷ drop (n + 1) (b ∷ l))
          × Lacks c (take n (b ∷ l))
          × (n < length (b ∷ l))
    later m z ne (e, k, lt) =
        let s : suc m + 1 ≡ suc (m + 1) = omega arith in
        rw (z, s) (ap (λ t. b ∷ t) e, (ne, k), omega arith)

terminator_from-short : (i : ℕ) (l : Bytes) → length l < 4 → terminator_from i l ≡ 0
unfolding terminator_from
terminator_from-short i [] h = refl
terminator_from-short i (a ∷ []) h = refl
terminator_from-short i (a ∷ b ∷ []) h = refl
terminator_from-short i (a ∷ b ∷ c ∷ []) h = refl
terminator_from-short i (a ∷ b ∷ c ∷ d ∷ r) h = absurd (omega arith)

skip_short : (i k : ℕ) (l : Bytes) → length l < 4 → terminator_from i (drop k l) ≡ 0
skip_short i k l h = terminator_from-short i (drop k l) (omega (arith, length-drop k l))

-- A scan that finds nothing in the first `k + 3` bytes may start at the byte `k`.
terminator_from-skip :
    (k i : ℕ) (l : Bytes)
    → terminator_from i (take (k + 3) l) ≡ 0
    → terminator_from i l ≡ terminator_from (i + k) (drop k l)
unfolding terminator_from
terminator_from-skip zero i l h = ap (λ (j : ℕ). terminator_from j l) (omega arith)
terminator_from-skip (suc k) i [] h = refl
terminator_from-skip (suc k) i (a ∷ []) h = sym (skip_short (i + suc k) k [] (omega arith))
terminator_from-skip (suc k) i (a ∷ b ∷ []) h =
    sym (skip_short (i + suc k) k (b ∷ []) (omega arith))
terminator_from-skip (suc k) i (a ∷ b ∷ c ∷ []) h =
    sym (skip_short (i + suc k) k (b ∷ c ∷ []) (omega arith))
terminator_from-skip (suc k) i (a ∷ b ∷ c ∷ d ∷ r) h =
    let e : suc k + 3 ≡ suc (suc (suc (suc k))) = omega arith in
    let e' : k + 3 ≡ suc (suc (suc k)) = omega arith in
    let s : i + suc k ≡ i + 1 + k = omega arith in
    let h' = rw e at h in ground (arith, s, e', h', terminator_from-skip k (i + 1) (b ∷ c ∷ d ∷ r))

find_header_terminator_lem :
    (m : Bytes) (start size : ℕ)
    → size ≤ length m
    → find_header_terminator m start size ≡ terminator_from start (drop start (take size m))
unfolding find_header_terminator
find_header_terminator_lem m start size h = rw (← drop-take start size m) (
    ground (
      arith,
      terminator_from-short start (take (size - start) (drop start m)),
      length-take (size - start) (drop start m),
      length-drop start m,
    ))

-- If the first `n` bytes hold no end of the header section, looking again from three bytes before
-- `n` finds, in any longer input, what looking from the start would find.
pub find_header_terminator_resumes :
    (m : Bytes) (n size : ℕ)
    → n ≤ size
    → size ≤ length m
    → find_header_terminator m 0 n ≡ 0
    → find_header_terminator m (if ltb 3 n then n - 3 else 0) size ≡ find_header_terminator m 0 size
find_header_terminator_resumes m n size h k none' = elim (Bool-cases (ltb 3 n)) [
  | inr e ↦ rw e
  | inl e ↦
      let before : terminator_from 0 (take n (take size m)) ≡ 0 =
        rw (take-take_le n size m h)
          (sym (find_header_terminator_lem m 0 n (omega arith)) ∙ none') in
      let zero_plus : 0 + (n - 3) ≡ n - 3 = omega arith in
      let three : n - 3 + 3 ≡ n = ground arith in
      rw (e, find_header_terminator_lem m (n - 3) size k, find_header_terminator_lem m 0 size k)
        (sym (rw zero_plus at (terminator_from-skip (n - 3) 0 (take size m) (rw three before))))
]
