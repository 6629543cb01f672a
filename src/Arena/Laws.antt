-- ===== src/Arena/Laws.antt =====
-- Where `monotonic_arena::allocate` puts what it hands out.
use native.Mathlib.Nat.{mod-lt, mod-eq_of_lt, div-add-mod', mul-mod_left}
use visage_dvachevsky_tempre.Base.{
  ℕ, zero, suc, ◌+◌, ◌-◌, ◌*◌, ◌/◌, ◌%◌, ◌^◌, ◌≤◌, ◌<◌, ◌≡◌, ◌≢◌, ◌⊎◌, inl, inr, eq_or_ne, refl,
  sym, ◌∙◌, ap, Option, none, some, List, ◌∷◌, get_elem?, leb, arith, if-elim,
  get_elem?-modify_self, get_elem?-modify_ne,
}
use mathlib.Core.Path.{subst}
use visage_dvachevsky_tempre.Arena.{Block, Arena, align_up, place_in, with_used, take_place}

pub align_up_lem :
    (n alignment : ℕ)
    → 0 < alignment
    → (n ≤ align_up n alignment)
      × (align_up n alignment < n + alignment)
      × (align_up n alignment % alignment ≡ 0)
unfolding align_up
align_up_lem n alignment h =
    let q : ℕ = (n + alignment - 1) / alignment in
    let whole : q * alignment + (n + alignment - 1) % alignment ≡ n + alignment - 1 =
      div-add-mod' (n + alignment - 1) alignment in
    let less : (n + alignment - 1) % alignment < alignment = mod-lt (n + alignment - 1) h in
    (omega (arith, whole, less), omega (arith, whole, less), mul-mod_left q alignment)

-- A block does not use more than it has.
abbrev pub IsSound : Block → Type 0
IsSound b = (b.used ≤ b.size) × (b.size < 2 ^ 63)

-- What a block gives: an aligned place behind what is used, and the bytes in what is used then.
abbrev pub Placed : ℕ → ℕ → Block → Option (ℕ × ℕ) → Type 0
Placed bytes alignment b none = Unit
Placed bytes alignment b (some (place, used)) =
    (place % alignment ≡ 0)
    × (b.address + b.used ≤ place)
    × (place + bytes ≤ b.address + used)
    × (used ≤ b.size)

pub place_in-Placed :
    (bytes alignment : ℕ) (b : Block)
    → 0 < alignment
    → alignment ≤ 64
    → bytes < 2 ^ 62
    → IsSound b
    → Placed bytes alignment b (place_in bytes alignment b)
unfolding place_in
place_in-Placed bytes alignment b p k h s =
    let current : ℕ = b.address + b.used in
    let up = align_up_lem current alignment p in
    let needed : ℕ = b.used + (align_up current alignment - current) + bytes in
    let whole : needed % 2 ^ 64 ≡ needed = mod-eq_of_lt (omega (arith, up, s, h, k)) in
    if-elim (Placed bytes alignment b) (leb b.size b.used) _ _ (λ e. tt)
      (λ e.
        if-elim (Placed bytes alignment b) (leb (needed % 2 ^ 64) b.size) _ _
          (λ f. (up.2, up.0, omega (arith, whole, up), ground (arith, f))) (λ f. tt))

-- The bytes from a start on.
abbrev pub Region : Type 0
Region = ℕ × ℕ

abbrev pub Disjoint : Region → Region → Type 0
Disjoint r s = (r.0 + r.1 ≤ s.0) ⊎ (s.0 + s.1 ≤ r.0)

abbrev pub Holds : Block → Region → Type 0
Holds b r = (b.address ≤ r.0) × (r.0 + r.1 ≤ b.address + b.used)

abbrev pub extent : Block → Region
extent b = (b.address, b.size)

-- The blocks are sound and apart, and what was handed out lies in what they use, each apart from the
-- others.
pub record IsArena (regions : List Region) (a : Arena) : Type 0 where
  pub sound : (i : ℕ) (b : Block) → get_elem? a.blocks i ≡ some b → IsSound b
  pub apart :
      (i j : ℕ) (b c : Block)
      → i ≢ j
      → get_elem? a.blocks i ≡ some b
      → get_elem? a.blocks j ≡ some c
      → Disjoint (extent b) (extent c)
  pub held :
      (i : ℕ) (r : Region)
      → get_elem? regions i ≡ some r
      → (k : ℕ) × (b : Block) × (get_elem? a.blocks k ≡ some b) × Holds b r
  pub disjoint :
      (i j : ℕ) (r s : Region)
      → i ≢ j
      → get_elem? regions i ≡ some r
      → get_elem? regions j ≡ some s
      → Disjoint r s

pub Disjoint-sym : (r s : Region) → Disjoint r s → Disjoint s r
Disjoint-sym r s (inl h) = inr h
Disjoint-sym r s (inr h) = inl h

-- A region in what a block uses lies in its extent.
Disjoint-in :
    (b c : Block) (r s : Region)
    → IsSound b
    → IsSound c
    → Holds b r
    → Holds c s
    → Disjoint (extent b) (extent c)
    → Disjoint r s
Disjoint-in b c r s sb sc hb hc (inl d) = inl (omega (arith, sb, sc, hb, hc, d))
Disjoint-in b c r s sb sc hb hc (inr d) = inr (omega (arith, sb, sc, hb, hc, d))

pub some_injective : (b c : Block) → some b ≡ some c → b ≡ c
some_injective b c q = ap (λ o. elim o as (λ _. Block) [ none ↦ b | some d ↦ d ]) q

region_injective : (r s : Region) → some r ≡ some s → r ≡ s
region_injective r s q = ap (λ o. elim o as (λ _. Region) [ none ↦ r | some x ↦ x ]) q

module _ (regions : List Region) (a : Arena) (v : IsArena regions a)
    (bytes alignment k place used : ℕ) (b : Block) (found : get_elem? a.blocks k ≡ some b)
    (placed : Placed bytes alignment b (some (place, used))) where
  abbrev taken : Arena
  taken = take_place bytes k used a

  -- A block after the step: it is one from before, where no less is used.
  was :
      (i : ℕ) (c : Block)
      → get_elem? taken.blocks i ≡ some c
      → (d : Block) × (get_elem? a.blocks i ≡ some d)
        × (c.address ≡ d.address)
        × (c.size ≡ d.size)
        × IsSound c
  was i c q = elim (eq_or_ne k i) [
    | inl e ↦
        let same : with_used used b ≡ c = some_injective (with_used used b) c (
          sym (get_elem?-modify_self (with_used used) k a.blocks b found)
          ∙ ap (get_elem? taken.blocks) e
          ∙ q) in
        (
          b,
          ap (get_elem? a.blocks) (sym e) ∙ found,
          ap (λ (d : Block). d.address) (sym same),
          ap (λ (d : Block). d.size) (sym same),
          subst IsSound same (placed.3, (v.sound k b found).1),
        )
    | inr n ↦
        let here : get_elem? a.blocks i ≡ some c =
          sym (get_elem?-modify_ne (with_used used) k i a.blocks n) ∙ q in
        (c, here, refl, refl, v.sound i c here)
  ]

  still_held :
      (i : ℕ) (r : Region)
      → get_elem? regions i ≡ some r
      → (j : ℕ) × (c : Block) × (get_elem? taken.blocks j ≡ some c) × Holds c r
  still_held i r q =
      let (j, c, here, holds) = v.held i r q in
      elim (eq_or_ne k j) [
        | inl e ↦
            let same : b ≡ c = some_injective b c (sym found ∙ ap (get_elem? a.blocks) e ∙ here) in
            let kept : Holds b r = subst (λ d. Holds d r) (sym same) holds in
            (
              k,
              with_used used b,
              get_elem?-modify_self (with_used used) k a.blocks b found,
              (kept.0, omega (arith, kept, placed)),
            )
        | inr n ↦ (j, c, get_elem?-modify_ne (with_used used) k j a.blocks n ∙ here, holds)
      ]

  apart_from_old : (i : ℕ) (r : Region) → get_elem? regions i ≡ some r → Disjoint (place, bytes) r
  apart_from_old i r q =
      let (j, c, here, holds) = v.held i r q in
      elim (eq_or_ne k j) [
        | inl e ↦
            let same : b ≡ c = some_injective b c (sym found ∙ ap (get_elem? a.blocks) e ∙ here) in
            let kept : Holds b r = subst (λ d. Holds d r) (sym same) holds in
            inr (omega (arith, kept, placed))
        | inr n ↦
            Disjoint-in (with_used used b) c (place, bytes) r (placed.3, (v.sound k b found).1)
              (v.sound j c here) (omega (arith, placed), omega (arith, placed)) holds
              (v.apart k j b c n found here)
      ]

  pub taken-IsArena : IsArena ((place, bytes) ∷ regions) taken
  taken-IsArena = record {
    sound = λ i c q. (was i c q).4;
    apart = λ i j c d n q r.
        let (c', c_here, c_at, c_long, c_sound) = was i c q in
        let (d', d_here, d_at, d_long, d_sound) = was j d r in
        apart_still c d c' d' c_at c_long d_at d_long (v.apart i j c' d' n c_here d_here);
    held = held_now;
    disjoint = disjoint_now;
  }
    where
      apart_still :
          (c d c' d' : Block)
          → c.address ≡ c'.address
          → c.size ≡ c'.size
          → d.address ≡ d'.address
          → d.size ≡ d'.size
          → Disjoint (extent c') (extent d')
          → Disjoint (extent c) (extent d)
      apart_still c d c' d' e f g h (inl l) = inl (omega (arith, e, f, g, l))
      apart_still c d c' d' e f g h (inr l) = inr (omega (arith, e, g, h, l))

      held_now :
          (i : ℕ) (r : Region)
          → get_elem? ((place, bytes) ∷ regions) i ≡ some r
          → (j : ℕ) × (c : Block) × (get_elem? taken.blocks j ≡ some c) × Holds c r
      held_now zero r q =
          let same : (place, bytes) ≡ r = region_injective (place, bytes) r q in
          (
            k,
            with_used used b,
            get_elem?-modify_self (with_used used) k a.blocks b found,
            subst (Holds (with_used used b)) same (omega (arith, placed), omega (arith, placed)),
          )
      held_now (suc i) r q = still_held i r q

      disjoint_now :
          (i j : ℕ) (r s : Region)
          → i ≢ j
          → get_elem? ((place, bytes) ∷ regions) i ≡ some r
          → get_elem? ((place, bytes) ∷ regions) j ≡ some s
          → Disjoint r s
      disjoint_now zero zero r s n q p = absurd (n refl)
      disjoint_now zero (suc j) r s n q p =
          subst (λ x. Disjoint x s) (region_injective (place, bytes) r q) (apart_from_old j s p)
      disjoint_now (suc i) zero r s n q p =
          Disjoint-sym s r
            (subst (λ x. Disjoint x r) (region_injective (place, bytes) s p) (apart_from_old i r q))
      disjoint_now (suc i) (suc j) r s n q p = v.disjoint i j r s (λ e. n (ap suc e)) q p
