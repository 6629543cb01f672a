-- ===== src/Serde/Whitespace.antt =====
-- `skip_ws` in blocks against the plain loop.
use visage_dvachevsky_tempre.Base.{
  ◌/◌, ℕ, zero, suc, ◌+◌, ◌<◌, ◌≡◌, refl, ◌∙◌, true, false, not, [], ◌∷◌, Bytes, length, take, drop,
  ltb, arith, if-elim, ltb→lt,
}
use visage_dvachevsky_tempre.Serde.Cursor.{
  is_json_whitespace, skip_scalar, skip_few, whitespace_mask, all_set, first_unset, skip_blocks,
  skip_ws,
}

skip_scalar_idem : (s : Bytes) → skip_scalar (skip_scalar s) ≡ skip_scalar s
unfolding skip_scalar
skip_scalar_idem [] = refl
skip_scalar_idem (c ∷ r) = ground (arith, skip_scalar_idem r)

-- A block of whitespace alone is skipped whole.
skip_scalar-all :
    (n : ℕ) (s : Bytes)
    → all_set (whitespace_mask (take n s)) ≡ true
    → skip_scalar (drop n s) ≡ skip_scalar s
unfolding skip_scalar all_set
skip_scalar-all zero s q = refl
skip_scalar-all (suc n) [] q = refl
skip_scalar-all (suc n) (c ∷ r) q = ground (arith, q, skip_scalar-all n r)

-- In another block the loop stops at the first bit that is not set.
skip_scalar-first :
    (n : ℕ) (s : Bytes)
    → all_set (whitespace_mask (take n s)) ≡ false
    → drop (first_unset (whitespace_mask (take n s))) s ≡ skip_scalar s
unfolding skip_scalar all_set first_unset
skip_scalar-first zero s q = absurd (ground (arith, q))
skip_scalar-first (suc n) [] q = absurd (ground (arith, q))
skip_scalar-first (suc n) (c ∷ r) q = ground (arith, q, skip_scalar-first n r)

skip_blocks_lem : (fuel : ℕ) (s : Bytes) → skip_blocks fuel s ≡ skip_scalar s
unfolding skip_blocks
skip_blocks_lem zero s = refl
skip_blocks_lem (suc fuel) s =
    ground (arith, skip_blocks_lem fuel (drop 16 s), skip_scalar-all 16 s, skip_scalar-first 16 s)

skip_few_lem :
    (limit count : ℕ) (s : Bytes) → skip_scalar (skip_few limit count s).1 ≡ skip_scalar s
unfolding skip_few skip_scalar
skip_few_lem zero count s = refl
skip_few_lem (suc limit) count [] = refl
skip_few_lem (suc limit) count (c ∷ r) = ground (arith, skip_few_lem limit (count + 1) r)

-- Few characters are all of the whitespace.
skip_few_all :
    (limit count : ℕ) (s : Bytes)
    → (skip_few limit count s).0 < count + limit
    → (skip_few limit count s).1 ≡ skip_scalar s
unfolding skip_few skip_scalar
skip_few_all zero count s h = absurd (omega (arith, h))
skip_few_all (suc limit) count [] h = refl
skip_few_all (suc limit) count (c ∷ r) h = ground (arith, h, skip_few_all limit (count + 1) r)

-- `skip_ws`, with its quick skip and its blocks of 16 bytes, skips what the plain loop does.
pub skip_ws_lem : (s : Bytes) → skip_ws s ≡ skip_scalar s
unfolding skip_ws skip_scalar
skip_ws_lem [] = refl
skip_ws_lem (c ∷ r) =
    let few : (skip_few 8 0 (c ∷ r)).0 < 8 → (skip_few 8 0 (c ∷ r)).1 ≡ skip_scalar (c ∷ r) =
      λ h. skip_few_all 8 0 (c ∷ r) (omega (arith, h)) in
    let many : skip_blocks (length (skip_few 8 0 (c ∷ r)).1 / 16) (skip_few 8 0 (c ∷ r)).1
        ≡ skip_scalar (c ∷ r) =
      skip_blocks_lem _ _ ∙ skip_few_lem 8 0 (c ∷ r) in
    let S : Bytes → Type 0 = λ s. s ≡ skip_scalar (c ∷ r) in
    if-elim S (not (is_json_whitespace c)) _ _ (λ q. ground (arith, q))
      (λ q. if-elim S (ltb (skip_few 8 0 (c ∷ r)).0 8) _ _ (λ h. few (ltb→lt _ 8 h)) (λ h. many))
