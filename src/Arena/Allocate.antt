-- ===== src/Arena/Allocate.antt =====
-- `monotonic_arena::allocate` as a whole.
use native.Mathlib.Nat.{mod-eq_of_lt}
use visage_dvachevsky_tempre.Base.{
  ℕ, zero, suc, ◌+◌, ◌-◌, ◌%◌, ◌^◌, ◌≤◌, ◌<◌, ◌≡◌, ◌⊎◌, inl, inr, max, refl, sym, ◌∙◌, ap, Bool,
  false, ◌||◌, Option, none, some, List, [], ◌∷◌, ◌++◌, length, get_elem?, ltb, leb, ◌==◌,
  if◌then◌else◌, arith, if-elim, get_elem?-append_left, get_elem?-inside, get_elem?-append_last,
}
use mathlib.Core.Path.{subst}
use visage_dvachevsky_tempre.Arena.{
  Block, Arena, align_up, take_place, scan, in_current, allocate_new_block, in_new_block, grow,
  choose, bad_alignment, allocate,
}
use visage_dvachevsky_tempre.Arena.Laws.{
  IsSound, Region, Disjoint, extent, IsArena, align_up_lem, some_injective, taken-IsArena,
  Disjoint-sym,
}
use visage_dvachevsky_tempre.Arena.Search.{Found, scan-Found, in_current-Found}

-- The address of a new block is apart from the blocks that are there.
abbrev pub IsFresh : Option ℕ → ℕ → Arena → Type 0
IsFresh none size a = Unit
IsFresh (some address) size a =
    (i : ℕ) (b : Block) → get_elem? a.blocks i ≡ some b → Disjoint (address, size) (extent b)

-- An aligned region was added, or none.
abbrev pub Allocated : ℕ → ℕ → List Region → Option ℕ × Arena → Type 0
Allocated bytes alignment regions (none, a) = IsArena regions a
Allocated bytes alignment regions (some place, a) =
    (place % alignment ≡ 0) × IsArena ((place, bytes) ∷ regions) a

-- A block of a list with one more at its end.
appended :
    (bs : List Block) (n c : Block) (i : ℕ)
    → get_elem? (bs ++ n ∷ []) i ≡ some c
    → (get_elem? bs i ≡ some c) ⊎ ((i ≡ length bs) × (n ≡ c))
appended [] n c zero q = inr (refl, some_injective n c q)
appended [] n c (suc i) q = inl q
appended (b ∷ bs) n c zero q = inl q
appended (b ∷ bs) n c (suc i) q = elim (appended bs n c i q) [
  | inl h ↦ inl h
  | inr h ↦ inr (ap suc h.0, h.1)
]

module _ (regions : List Region) (bytes alignment : ℕ) (positive : 0 < alignment)
    (bounded : alignment ≤ 64) (few : bytes < 2 ^ 62) where
  -- The arena with a new block that is not used.
  grown-IsArena :
      (a g : Arena) (n : Block)
      → IsArena regions a
      → g.blocks ≡ a.blocks ++ n ∷ []
      → IsFresh (some n.address) n.size a
      → IsSound n
      → IsArena regions g
  grown-IsArena a g n v e fresh small =
      let split : (i : ℕ) (c : Block)
          → get_elem? g.blocks i ≡ some c
          → (get_elem? a.blocks i ≡ some c) ⊎ ((i ≡ length a.blocks) × (n ≡ c)) =
        λ i c q. appended a.blocks n c i (ap (λ bs. get_elem? bs i) (sym e) ∙ q) in
      record {
        sound =
            λ i c q. elim (split i c q) [ inl h ↦ v.sound i c h | inr h ↦ subst IsSound h.1 small ];
        apart = λ i j c d far q r. elim (split i c q) [
          | inl h ↦ elim (split j d r) [
            | inl k ↦ v.apart i j c d far h k
            | inr k ↦
                subst (λ x. Disjoint (extent c) (extent x)) k.1
                  (Disjoint-sym (extent n) (extent c) (fresh i c h))
          ]
          | inr h ↦ elim (split j d r) [
            | inl k ↦ subst (λ x. Disjoint (extent x) (extent d)) h.1 (fresh j d k)
            | inr k ↦ absurd (far (h.0 ∙ sym k.0))
          ]
        ];
        held = λ i r q.
            let (k, b, here, holds) = v.held i r q in
            (
              k,
              b,
              ap (λ bs. get_elem? bs k) e
                  ∙ get_elem?-append_left a.blocks (n ∷ []) k (get_elem?-inside a.blocks k b here)
                  ∙ here,
              holds,
            );
        disjoint = v.disjoint;
      }

  in_new_block-Allocated :
      (a : Arena) (k : ℕ) (b : Block)
      → IsArena regions a
      → get_elem? a.blocks k ≡ some b
      → b.used ≡ 0
      → Allocated bytes alignment regions (in_new_block bytes alignment k a)
  in_new_block-Allocated a k b v found unused =
      let up = align_up_lem b.address alignment positive in
      let needed : ℕ = align_up b.address alignment - b.address + bytes in
      let whole : needed % 2 ^ 64 ≡ needed = mod-eq_of_lt (omega (arith, up, bounded, few)) in
      subst
        (λ o. Allocated bytes alignment regions (elim o as (λ _. Option ℕ × Arena) [
          | none ↦ (none, a)
          | some b ↦
              let aligned = align_up b.address alignment in
              let needed = (aligned - b.address + bytes) % 2 ^ 64 in
              if ltb b.size needed then (none, a) else (some aligned, take_place bytes k needed a)
        ]))
        (sym found)
        (if-elim (Allocated bytes alignment regions) (ltb b.size (needed % 2 ^ 64)) _ _ (λ f. v)
          (λ f. (
            up.2,
            taken-IsArena regions a v bytes alignment k (align_up b.address alignment)
                (needed % 2 ^ 64) b found
                (up.2, omega (arith, up, unused), omega (arith, whole, up), ground (arith, f)),
          )))

  grow-Allocated :
      (fresh : Option ℕ) (a : Arena)
      → IsArena regions a
      → a.block_size < 2 ^ 63
      → IsFresh fresh (max a.block_size (bytes + 64)) a
      → Allocated bytes alignment regions (grow fresh bytes alignment a)
  unfolding allocate_new_block
  grow-Allocated fresh a v small apart =
      if-elim
        (λ (o : Option Arena).
          Allocated bytes alignment regions (elim o as (λ _. Option ℕ × Arena) [
            | none ↦ (none, a)
            | some g ↦ in_new_block bytes alignment (length a.blocks) g
          ]))
        (leb 32 (length a.blocks)) none _ (λ f. v) (λ f. from fresh apart)
    where
      size : ℕ
      size = max a.block_size ((bytes + 64) % 2 ^ 64)

      whole : max a.block_size (bytes + 64) ≡ size
      whole = ap (λ n. max a.block_size n) (sym (mod-eq_of_lt (omega (arith, few))))

      from :
          (o : Option ℕ)
          → IsFresh o (max a.block_size (bytes + 64)) a
          → Allocated bytes alignment regions
              (elim (elim o as (λ _. Option Arena) [
                | none ↦ none
                | some address ↦ some (record a {
                  blocks = a.blocks ++ record { address = address; size = size; used = 0 } ∷ [];
                  current_block_index = length a.blocks;
                  total_capacity = a.total_capacity + size;
                })
              ])
                as (λ _. Option ℕ × Arena) [
                  | none ↦ (none, a)
                  | some g ↦ in_new_block bytes alignment (length a.blocks) g
                ])
      from none p = v
      from (some address) p =
          let n : Block = record { address = address; size = size; used = 0 } in
          let g : Arena = record a {
            blocks = a.blocks ++ n ∷ [];
            current_block_index = length a.blocks;
            total_capacity = a.total_capacity + size;
          } in
          in_new_block-Allocated g (length a.blocks) n
            (grown-IsArena a g n v refl (subst (λ m. IsFresh (some address) m a) whole p)
              (omega arith, omega (arith, small, few, whole)))
            (get_elem?-append_last a.blocks n) refl

  choose-Allocated :
      (fresh : Option ℕ) (here found : Option (ℕ × (ℕ × ℕ))) (a : Arena)
      → IsArena regions a
      → Found bytes alignment a here
      → Found bytes alignment a found
      → a.block_size < 2 ^ 63
      → IsFresh fresh (max a.block_size (bytes + 64)) a
      → Allocated bytes alignment regions (choose fresh bytes alignment here found a)
  choose-Allocated fresh (some (k, (place, used))) found a v (b, q, p) f small apart =
      (p.0, taken-IsArena regions a v bytes alignment k place used b q p)
  choose-Allocated fresh none (some (k, (place, used))) a v h (b, q, p) small apart =
      (p.0, taken-IsArena regions a v bytes alignment k place used b q p)
  choose-Allocated fresh none none a v h f small apart = grow-Allocated fresh a v small apart

second : (a b : Bool) → (a || b) ≡ false → b ≡ false
second a b q = ground (arith, q)

good_alignment :
    (alignment : ℕ) → bad_alignment alignment ≡ false → (0 < alignment) × (alignment ≤ 64)
good_alignment alignment q = ground (arith, q)

-- `allocate` on an arena where what was handed out lies apart in its blocks, for fewer than 2^62 bytes
-- and a block size below 2^63, where the system puts a new block apart from the others: what it hands
-- out is aligned, lies in its block and apart from all that was handed out before, and the same holds
-- of the arena afterwards; or it hands out nothing, and the arena is still such.
pub allocate-Allocated :
    (fresh : Option ℕ) (bytes alignment : ℕ) (regions : List Region) (a : Arena)
    → IsArena regions a
    → bytes < 2 ^ 62
    → a.block_size < 2 ^ 63
    → IsFresh fresh (max a.block_size (bytes + 64)) a
    → Allocated bytes alignment regions (allocate fresh bytes alignment a)
unfolding allocate
allocate-Allocated fresh bytes alignment regions a v few small apart =
    if-elim (Allocated bytes alignment regions) (bytes == 0 || bad_alignment alignment) _ _ (λ f. v)
      (λ f.
        let good = good_alignment alignment (second (bytes == 0) (bad_alignment alignment) f) in
        let positive : 0 < alignment = good.0 in
        let bounded : alignment ≤ 64 = good.1 in
        choose-Allocated regions bytes alignment positive bounded few fresh
          (in_current bytes alignment a) (scan bytes alignment 0 a.blocks) a v
          (in_current-Found regions bytes alignment positive bounded few a v)
          (scan-Found regions bytes alignment positive bounded few a 0 a.blocks v
            (λ i. let e : 0 + i ≡ i = omega arith in ap (get_elem? a.blocks) e))
          small apart)
