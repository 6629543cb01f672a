-- ===== src/Http/Headers/Store.antt =====
-- A store of `headers_map`: an inline array, then the chunks in the order of their links, the
-- newest first. `find_..._entry` returns a pointer to an entry; here a write takes the test that
-- finds it and what is assigned through the pointer.
use visage_dvachevsky_tempre.Base.{
  ℕ, ◌-◌, Bool, Option, none, some, List, [], ◌∷◌, ◌++◌, replicate, if◌then◌else◌,
}
use mathlib.Core.List.{flatten}

pub record Slots {ℓ} (E : Type ℓ) : Type ℓ where
  pub inline : List E
  pub chunks : List (List E)

module _ {ℓ} {E : Type ℓ} where
  unfoldable pub find_first : (E → Bool) → List E → Option E
  find_first p [] = none
  find_first p (e ∷ es) = if p e then some e else find_first p es

  unfoldable pub write_first : (E → Bool) → (E → E) → List E → Option (List E)
  write_first p f [] = none
  write_first p f (e ∷ es) =
      if p e
      then some (f e ∷ es)
      else elim (write_first p f es) [ none ↦ none | some es' ↦ some (e ∷ es') ]

  unfoldable pub find_chunks : (E → Bool) → List (List E) → Option E
  unfolding find_first
  find_chunks p [] = none
  find_chunks p (c ∷ cs) = elim (find_first p c) [ some e ↦ some e | none ↦ find_chunks p cs ]

  unfoldable pub write_chunks : (E → Bool) → (E → E) → List (List E) → Option (List (List E))
  unfolding write_first
  write_chunks p f [] = none
  write_chunks p f (c ∷ cs) = elim (write_first p f c) [
    | some c' ↦ some (c' ∷ cs)
    | none ↦ elim (write_chunks p f cs) [ none ↦ none | some cs' ↦ some (c ∷ cs') ]
  ]

  unfoldable pub find_slot : (E → Bool) → Slots E → Option E
  unfolding find_first find_chunks
  find_slot p s = elim (find_first p s.inline) [ some e ↦ some e | none ↦ find_chunks p s.chunks ]

  unfoldable pub write_slot : (E → Bool) → (E → E) → Slots E → Option (Slots E)
  unfolding write_first write_chunks
  write_slot p f s = elim (write_first p f s.inline) [
    | some es ↦ some (record s { inline = es })
    | none ↦ elim (write_chunks p f s.chunks) [
      | none ↦ none
      | some cs ↦ some (record s { chunks = cs })
    ]
  ]

  -- `append_..._entry` and the assignment: the first entry not in use, or the first of a new chunk
  -- of `n` entries, which is linked in front.
  unfoldable pub append_slot : Bool → ℕ → E → (E → Bool) → E → Slots E → Option (Slots E)
  unfolding write_slot
  append_slot mem n blank unused entry s = elim (write_slot unused (λ _. entry) s) [
    | some s' ↦ some s'
    | none ↦
        if mem
        then some (record s { chunks = (entry ∷ replicate (n - 1) blank) ∷ s.chunks })
        else none
  ]

  unfoldable pub blank_slots : ℕ → E → Slots E
  blank_slots n blank = record { inline = replicate n blank; chunks = [] }

  -- Every entry, in the order of a search.
  unfoldable pub entries : Slots E → List E
  entries s = s.inline ++ flatten s.chunks
