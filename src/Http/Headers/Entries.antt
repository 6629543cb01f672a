-- ===== src/Http/Headers/Entries.antt =====
-- The store of `headers_map` seen as the list of its entries: what a search finds after a write.
use visage_dvachevsky_tempre.Base.{
  ℕ, zero, suc, ◌-◌, ◌≡◌, refl, Bool, true, false, none, some, List, [], ◌∷◌, replicate, arith,
  Bool-cases, Option-cases, inl, inr,
}
use visage_dvachevsky_tempre.Http.Headers.Store.{
  Slots, find_first, write_first, find_chunks, write_chunks, find_slot, write_slot, append_slot,
}

module _ {ℓ} {E : Type ℓ} where
  -- A write misses exactly where the search does.
  write_first-miss :
      (p : E → Bool) (f : E → E) (l : List E) → write_first p f l ≡ none → find_first p l ≡ none
  unfolding write_first find_first
  write_first-miss p f [] h = refl
  write_first-miss p f (e ∷ l) h = ground (arith, write_first-miss p f l)

  write_chunks-miss :
      (p : E → Bool) (f : E → E) (cs : List (List E))
      → write_chunks p f cs ≡ none
      → find_chunks p cs ≡ none
  unfolding write_chunks find_chunks
  write_chunks-miss p f [] h = refl
  write_chunks-miss p f (c ∷ cs) h =
      ground (arith, write_first-miss p f c, write_chunks-miss p f cs)

  pub write_slot-miss :
      (p : E → Bool) (f : E → E) (s : Slots E) → write_slot p f s ≡ none → find_slot p s ≡ none
  unfolding write_slot find_slot
  write_slot-miss p f s h =
      ground (arith, write_first-miss p f s.inline, write_chunks-miss p f s.chunks)

  -- What the test `q` finds after a write at the first entry that passes `p`.
  module _ (p q : E → Bool) (f : E → E) where
    -- `q` sees neither the entry before nor after: a search by it is not affected.
    module _ (before : (e : E) → p e ≡ true → q e ≡ false)
        (after : (e : E) → p e ≡ true → q (f e) ≡ false) where
      other_first : (l l' : List E) → write_first p f l ≡ some l' → find_first q l' ≡ find_first q l
      unfolding write_first find_first
      other_first [] l' h = cc
      other_first (e ∷ l) l' h = elim (Bool-cases (p e)) [
        | inl y ↦ ground (arith, before e y, after e y)
        | inr n ↦ elim (Option-cases (write_first p f l)) [
          | inl m ↦ ground arith
          | inr (m, w) ↦ ground (arith, other_first l m w)
        ]
      ]

      other_chunks :
          (l l' : List (List E)) → write_chunks p f l ≡ some l' → find_chunks q l' ≡ find_chunks q l
      unfolding write_chunks find_chunks
      other_chunks [] l' h = cc
      other_chunks (c ∷ cs) l' h = elim (Option-cases (write_first p f c)) [
        | inr (m, w) ↦ ground (arith, other_first c m w)
        | inl n ↦ elim (Option-cases (write_chunks p f cs)) [
          | inl m ↦ ground arith
          | inr (m, w) ↦ ground (arith, other_chunks cs m w)
        ]
      ]

      pub write_slot-other :
          (s s' : Slots E) → write_slot p f s ≡ some s' → find_slot q s' ≡ find_slot q s
      unfolding write_slot find_slot
      write_slot-other s s' h = elim (Option-cases (write_first p f s.inline)) [
        | inr (m, w) ↦ ground (arith, other_first s.inline m w)
        | inl n ↦ elim (Option-cases (write_chunks p f s.chunks)) [
          | inl m ↦ ground arith
          | inr (m, w) ↦ ground (arith, other_chunks s.chunks m w)
        ]
      ]

  find_first-replicate :
      (q : E → Bool) (n : ℕ) (e : E) → q e ≡ false → find_first q (replicate n e) ≡ none
  unfolding find_first
  find_first-replicate q zero e h = refl
  find_first-replicate q (suc n) e h = ground (arith, find_first-replicate q n e h)

  -- An append that `q` does not see does not affect a search by it.
  pub append_slot-other :
      (p q : E → Bool) (entry : E) (mem : Bool) (n : ℕ) (blank : E) (s s' : Slots E)
      → ((e : E) → p e ≡ true → q e ≡ false)
      → q entry ≡ false
      → q blank ≡ false
      → append_slot mem n blank p entry s ≡ some s'
      → find_slot q s' ≡ find_slot q s
  unfolding append_slot
  append_slot-other p q entry mem n blank s s' free he hb h =
      elim (Option-cases (write_slot p (λ _. entry) s)) [
        | inr (m, w) ↦ ground (arith, write_slot-other p q (λ _. entry) free (λ e _. he) s m w)
        | inl w ↦
            unfold find_slot find_first find_chunks in
            ground (arith, find_first-replicate q (n - 1) blank hb)
      ]

  -- What a search finds after `entry` has been put over the first entry that passes `p`.
  module _ (p q : E → Bool) (entry : E) (hit : q entry ≡ true) where
    fresh_first :
        (l l' : List E)
        → write_first p (λ _. entry) l ≡ some l'
        → find_first q l ≡ none
        → find_first q l' ≡ some entry
    unfolding write_first find_first
    fresh_first [] l' h n = cc
    fresh_first (e ∷ l) l' h n = elim (Option-cases (write_first p (λ _. entry) l)) [
      | inl m ↦ ground arith
      | inr (m, w) ↦ ground (arith, fresh_first l m w)
    ]

    fresh_chunks :
        (l l' : List (List E))
        → write_chunks p (λ _. entry) l ≡ some l'
        → find_chunks q l ≡ none
        → find_chunks q l' ≡ some entry
    unfolding write_chunks find_chunks
    fresh_chunks [] l' h n = cc
    fresh_chunks (c ∷ cs) l' h n = elim (Option-cases (write_first p (λ _. entry) c)) [
      | inr (m, w) ↦ ground (arith, fresh_first c m w)
      | inl miss ↦ elim (Option-cases (write_chunks p (λ _. entry) cs)) [
        | inl m ↦ ground arith
        | inr (m, w) ↦ ground (arith, fresh_chunks cs m w)
      ]
    ]

    pub write_slot-fresh :
        (s s' : Slots E)
        → write_slot p (λ _. entry) s ≡ some s'
        → find_slot q s ≡ none
        → find_slot q s' ≡ some entry
    unfolding write_slot find_slot
    write_slot-fresh s s' h n = elim (Option-cases (write_first p (λ _. entry) s.inline)) [
      | inr (m, w) ↦ ground (arith, fresh_first s.inline m w)
      | inl miss ↦ elim (Option-cases (write_chunks p (λ _. entry) s.chunks)) [
        | inl m ↦ ground arith
        | inr (m, w) ↦ ground (arith, fresh_chunks s.chunks m w)
      ]
    ]

    pub append_slot-fresh :
        (mem : Bool) (n : ℕ) (blank : E) (s s' : Slots E)
        → append_slot mem n blank p entry s ≡ some s'
        → find_slot q s ≡ none
        → find_slot q s' ≡ some entry
    unfolding append_slot
    append_slot-fresh mem n blank s s' h miss = elim (Option-cases (write_slot p (λ _. entry) s)) [
      | inr (m, w) ↦ ground (arith, write_slot-fresh s m w)
      | inl w ↦ unfold find_slot find_first find_chunks in ground arith
    ]

  -- What the same test finds after a write that keeps it true.
  module _ (p : E → Bool) (f : E → E) (keeps : (e : E) → p e ≡ true → p (f e) ≡ true) where
    same_first :
        (l l' : List E)
        → write_first p f l ≡ some l'
        → (e : E) × (find_first p l ≡ some e) × (find_first p l' ≡ some (f e))
    unfolding write_first find_first
    same_first [] l' h = cc
    same_first (e ∷ l) l' h = elim (Bool-cases (p e)) [
      | inl y ↦ (e, ground arith, ground (arith, keeps e y))
      | inr n ↦ elim (Option-cases (write_first p f l)) [
        | inl m ↦ ground arith
        | inr (m, w) ↦ let (x, old, new) = same_first l m w in (x, ground arith, ground arith)
      ]
    ]

    same_chunks :
        (l l' : List (List E))
        → write_chunks p f l ≡ some l'
        → (e : E) × (find_chunks p l ≡ some e) × (find_chunks p l' ≡ some (f e))
    unfolding write_chunks find_chunks
    same_chunks [] l' h = cc
    same_chunks (c ∷ cs) l' h = elim (Option-cases (write_first p f c)) [
      | inr (m, w) ↦ let (x, old, new) = same_first c m w in (x, ground arith, ground arith)
      | inl n ↦ elim (Option-cases (write_chunks p f cs)) [
        | inl m ↦ ground arith
        | inr (m, w) ↦
            let (x, old, new) = same_chunks cs m w in
            (x, ground (arith, write_first-miss p f c), ground (arith, write_first-miss p f c))
      ]
    ]

    pub write_slot-same :
        (s s' : Slots E)
        → write_slot p f s ≡ some s'
        → (e : E) × (find_slot p s ≡ some e) × (find_slot p s' ≡ some (f e))
    unfolding write_slot find_slot
    write_slot-same s s' h = elim (Option-cases (write_first p f s.inline)) [
      | inr (m, w) ↦ let (x, old, new) = same_first s.inline m w in (x, ground arith, ground arith)
      | inl n ↦ elim (Option-cases (write_chunks p f s.chunks)) [
        | inl m ↦ ground arith
        | inr (m, w) ↦
            let (x, old, new) = same_chunks s.chunks m w in
            (
              x,
              ground (arith, write_first-miss p f s.inline),
              ground (arith, write_first-miss p f s.inline),
            )
      ]
    ]
