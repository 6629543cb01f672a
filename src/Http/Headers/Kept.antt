-- ===== src/Http/Headers/Kept.antt =====
-- A property of all entries of a store of `headers_map`: what writes keep it, and that tests which
-- agree where it holds find and write the same entries.
use visage_dvachevsky_tempre.Base.{
  ℕ, zero, suc, ◌-◌, ◌≡◌, refl, Bool, some, List, [], ◌∷◌, replicate, All, arith, Bool-cases,
  Option-cases, inl, inr,
}
use mathlib.Core.Path.{subst}
use visage_dvachevsky_tempre.Http.Headers.Store.{
  Slots, find_first, write_first, find_chunks, write_chunks, find_slot, write_slot, append_slot,
}

module _ {E : Type 0} (P : E → Type 0) where
  abbrev pub AllSlots : Slots E → Type 0
  AllSlots s = All P s.inline × All (All P) s.chunks

  found_first : (p : E → Bool) (l : List E) (e : E) → find_first p l ≡ some e → All P l → P e
  unfolding find_first
  found_first p [] e h a = cc
  found_first p (x ∷ l) e h (a, as') = elim (Bool-cases (p x)) [
    | inl y ↦ subst P (ground (arith, y)) a
    | inr n ↦ found_first p l e (ground (arith, n)) as'
  ]

  found_chunks :
      (p : E → Bool) (cs : List (List E)) (e : E) → find_chunks p cs ≡ some e → All (All P) cs → P e
  unfolding find_chunks
  found_chunks p [] e h a = cc
  found_chunks p (c ∷ cs) e h (a, as') = elim (Option-cases (find_first p c)) [
    | inr (x, w) ↦ subst P (ground (arith, w)) (found_first p c x w a)
    | inl n ↦ found_chunks p cs e (ground (arith, n)) as'
  ]

  pub find_slot-holds :
      (p : E → Bool) (s : Slots E) (e : E) → find_slot p s ≡ some e → AllSlots s → P e
  unfolding find_slot
  find_slot-holds p s e h (a, b) = elim (Option-cases (find_first p s.inline)) [
    | inr (x, w) ↦ subst P (ground (arith, w)) (found_first p s.inline x w a)
    | inl n ↦ found_chunks p s.chunks e (ground (arith, n)) b
  ]

  module _ (entry : E) (good : P entry) where
    write_first-All :
        (p : E → Bool) (l l' : List E) → write_first p (λ _. entry) l ≡ some l' → All P l → All P l'
    unfolding write_first
    write_first-All p [] l' h a = cc
    write_first-All p (x ∷ l) l' h (a, as') = elim (Bool-cases (p x)) [
      | inl y ↦ subst (All P) {x = entry ∷ l} (ground (arith, y)) (good, as')
      | inr n ↦ elim (Option-cases (write_first p (λ _. entry) l)) [
        | inl m ↦ absurd (ground (arith, n, m))
        | inr (m, w) ↦
            subst (All P) {x = x ∷ m} (ground (arith, n, w)) (a, write_first-All p l m w as')
      ]
    ]

    write_chunks-All :
        (p : E → Bool) (cs cs' : List (List E))
        → write_chunks p (λ _. entry) cs ≡ some cs'
        → All (All P) cs
        → All (All P) cs'
    unfolding write_chunks
    write_chunks-All p [] cs' h a = cc
    write_chunks-All p (c ∷ cs) cs' h (a, as') =
        elim (Option-cases (write_first p (λ _. entry) c)) [
          | inr (m, w) ↦
              subst (All (All P)) {x = m ∷ cs} (ground (arith, w)) (write_first-All p c m w a, as')
          | inl n ↦ elim (Option-cases (write_chunks p (λ _. entry) cs)) [
            | inl m ↦ absurd (ground (arith, n, m))
            | inr (m, w) ↦
                subst (All (All P)) {x = c ∷ m} (ground (arith, n, w))
                  (a, write_chunks-All p cs m w as')
          ]
        ]

    pub write_slot-AllSlots :
        (p : E → Bool) (s s' : Slots E)
        → write_slot p (λ _. entry) s ≡ some s'
        → AllSlots s
        → AllSlots s'
    unfolding write_slot
    write_slot-AllSlots p s s' h (a, b) =
        elim (Option-cases (write_first p (λ _. entry) s.inline)) [
          | inr (m, w) ↦
              subst AllSlots {x = record s { inline = m }} (ground (arith, w))
                (write_first-All p s.inline m w a, b)
          | inl n ↦ elim (Option-cases (write_chunks p (λ _. entry) s.chunks)) [
            | inl m ↦ absurd (ground (arith, n, m))
            | inr (m, w) ↦
                subst AllSlots {x = record s { chunks = m }} (ground (arith, n, w))
                  (a, write_chunks-All p s.chunks m w b)
          ]
        ]

    All-replicate : (n : ℕ) (blank : E) → P blank → All P (replicate n blank)
    All-replicate zero blank h = tt
    All-replicate (suc n) blank h = (h, All-replicate n blank h)

    pub append_slot-AllSlots :
        (mem : Bool) (n : ℕ) (blank : E) (p : E → Bool) (s s' : Slots E)
        → P blank
        → append_slot mem n blank p entry s ≡ some s'
        → AllSlots s
        → AllSlots s'
    unfolding append_slot
    append_slot-AllSlots mem n blank p s s' hb h a =
        elim (Option-cases (write_slot p (λ _. entry) s)) [
          | inr (m, w) ↦ subst AllSlots {x = m} (ground (arith, w)) (write_slot-AllSlots p s m w a)
          | inl w ↦ elim (Bool-cases mem) [
            | inr no' ↦ absurd (ground (arith, w, no'))
            | inl y ↦
                subst AllSlots
                  {x = record s { chunks = (entry ∷ replicate (n - 1) blank) ∷ s.chunks }}
                  (ground (arith, w, y)) (a.0, ((good, All-replicate (n - 1) blank hb), a.1))
          ]
        ]

  -- Two tests that agree on such entries.
  module _ (p q : E → Bool) (agree : (e : E) → P e → p e ≡ q e) where
    find_first-agree : (l : List E) → All P l → find_first p l ≡ find_first q l
    unfolding find_first
    find_first-agree [] a = refl
    find_first-agree (x ∷ l) (a, as') = ground (arith, agree x a, find_first-agree l as')

    find_chunks-agree : (cs : List (List E)) → All (All P) cs → find_chunks p cs ≡ find_chunks q cs
    unfolding find_chunks
    find_chunks-agree [] a = refl
    find_chunks-agree (c ∷ cs) (a, as') =
        ground (arith, find_first-agree c a, find_chunks-agree cs as')

    pub find_slot-agree : (s : Slots E) → AllSlots s → find_slot p s ≡ find_slot q s
    unfolding find_slot
    find_slot-agree s (a, b) =
        ground (arith, find_first-agree s.inline a, find_chunks-agree s.chunks b)

    write_first-agree : (f : E → E) (l : List E) → All P l → write_first p f l ≡ write_first q f l
    unfolding write_first
    write_first-agree f [] a = refl
    write_first-agree f (x ∷ l) (a, as') = ground (arith, agree x a, write_first-agree f l as')

    write_chunks-agree :
        (f : E → E) (cs : List (List E))
        → All (All P) cs
        → write_chunks p f cs ≡ write_chunks q f cs
    unfolding write_chunks
    write_chunks-agree f [] a = refl
    write_chunks-agree f (c ∷ cs) (a, as') =
        ground (arith, write_first-agree f c a, write_chunks-agree f cs as')

    pub write_slot-agree :
        (f : E → E) (s : Slots E) → AllSlots s → write_slot p f s ≡ write_slot q f s
    unfolding write_slot
    write_slot-agree f s (a, b) =
        ground (arith, write_first-agree f s.inline a, write_chunks-agree f s.chunks b)
