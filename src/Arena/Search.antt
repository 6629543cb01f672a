-- ===== src/Arena/Search.antt =====
-- The search of `monotonic_arena::allocate` for room in the blocks that are there.
use visage_dvachevsky_tempre.Base.{
  ℕ, suc, ◌+◌, ◌^◌, ◌≤◌, ◌<◌, ◌≡◌, refl, sym, ◌∙◌, ap, Option, none, some, List, [], ◌∷◌, get_elem?,
  arith,
}
use visage_dvachevsky_tempre.Arena.{Block, Arena, place_in, scan, in_current}
use visage_dvachevsky_tempre.Arena.Laws.{Placed, Region, IsArena, place_in-Placed}

-- What the search finds: a place in a block.
abbrev pub Found : ℕ → ℕ → Arena → Option (ℕ × (ℕ × ℕ)) → Type 0
Found bytes alignment a none = Unit
Found bytes alignment a (some (k, (place, used))) =
    (b : Block) × (get_elem? a.blocks k ≡ some b) × Placed bytes alignment b (some (place, used))

module _ (regions : List Region) (bytes alignment : ℕ) (positive : 0 < alignment)
    (bounded : alignment ≤ 64) (few : bytes < 2 ^ 62) where
  pub scan-Found :
      (a : Arena) (index : ℕ) (bs : List Block)
      → IsArena regions a
      → ((i : ℕ) → get_elem? a.blocks (index + i) ≡ get_elem? bs i)
      → Found bytes alignment a (scan bytes alignment index bs)
  unfolding scan
  scan-Found a index [] v e = tt
  scan-Found a index (b ∷ bs) v e =
      let start : index + 0 ≡ index = omega arith in
      let here : get_elem? a.blocks index ≡ some b = ap (get_elem? a.blocks) (sym start) ∙ e 0 in
      let later = scan-Found a (suc index) bs v (λ i.
        let next : suc index + i ≡ index + suc i = omega arith in
        ap (get_elem? a.blocks) next ∙ e (suc i)) in
      from b (place_in bytes alignment b) later here
        (place_in-Placed bytes alignment b positive bounded few (v.sound index b here))
    where
      from :
          (b : Block) (o : Option (ℕ × ℕ))
          → Found bytes alignment a (scan bytes alignment (suc index) bs)
          → get_elem? a.blocks index ≡ some b
          → Placed bytes alignment b o
          → Found bytes alignment a (elim o [
            | none ↦ scan bytes alignment (suc index) bs
            | some place ↦ some (index, place)
          ])
      from b none later here p = later
      from b (some (place, used)) later here p = (b, here, p)

  pub in_current-Found :
      (a : Arena) → IsArena regions a → Found bytes alignment a (in_current bytes alignment a)
  in_current-Found a v = outer (get_elem? a.blocks k) refl
    where
      k : ℕ
      k = a.current_block_index

      inner :
          (b : Block) (o : Option (ℕ × ℕ))
          → get_elem? a.blocks k ≡ some b
          → Placed bytes alignment b o
          → Found bytes alignment a (elim o [ none ↦ none | some place ↦ some (k, place) ])
      inner b none here p = tt
      inner b (some (place, used)) here p = (b, here, p)

      outer :
          (o : Option Block)
          → get_elem? a.blocks k ≡ o
          → Found bytes alignment a (elim o [
            | none ↦ none
            | some b ↦ elim (place_in bytes alignment b) [
              | none ↦ none
              | some place ↦ some (k, place)
            ]
          ])
      outer none q = tt
      outer (some b) q =
          inner b (place_in bytes alignment b) q
            (place_in-Placed bytes alignment b positive bounded few (v.sound k b q))
