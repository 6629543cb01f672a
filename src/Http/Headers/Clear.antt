-- ===== src/Http/Headers/Clear.antt =====
-- What `clear` of `headers_map` leaves (core/include/katana/core/http_headers.hpp).
use visage_dvachevsky_tempre.Base.{
  ◌≡◌, refl, Bool, false, none, List, [], ◌∷◌, Bytes, map, arith, Bool-cases, inl, inr,
}
use visage_dvachevsky_tempre.Http.Headers.{
  Field, HeadersMap, bytes_text, blank_known, blank_unknown, is_field, has_key, has_name, get_known,
  get_unknown, clear, size,
}
use visage_dvachevsky_tempre.Http.Headers.Store.{Slots, find_first, find_chunks, find_slot}

module _ {ℓ} {E : Type ℓ} (p : E → Bool) (blank : E) (unseen : p blank ≡ false) where
  find_first_blank : (es : List E) → find_first p (map (λ _. blank) es) ≡ none
  unfolding find_first
  find_first_blank [] = refl
  find_first_blank (e ∷ es) = rw (unseen) (find_first_blank es)

  find_chunks_blank : (cs : List (List E)) → find_chunks p (map (map (λ _. blank)) cs) ≡ none
  unfolding find_chunks
  find_chunks_blank [] = refl
  find_chunks_blank (c ∷ cs) = rw (find_chunks, find_first_blank c) (find_chunks_blank cs)

  find_slot_blank :
      (s : Slots E)
      → find_slot p
          (record { inline = map (λ _. blank) s.inline; chunks = map (map (λ _. blank)) s.chunks })
        ≡ none
  unfolding find_slot
  find_slot_blank s = rw (find_slot, find_first_blank s.inline) (find_chunks_blank s.chunks)

-- After `clear` the map has size 0 and finds nothing: no field that has an enumerator, and no name
-- among the others, however many entries and chunks it held.
pub get_known-clear :
    (f : Field) (name : Bytes) (h : HeadersMap Bytes)
    → (get_known f (clear h) ≡ none) × (get_unknown name (clear h) ≡ none) × (size (clear h) ≡ 0)
unfolding get_known get_unknown clear has_name
get_known-clear f name h = elim (Bool-cases (is_field f)) [
  | inl y ↦ ground (
    arith,
    y,
    find_slot_blank (has_key f) blank_known (ground (arith, y)) h.known,
    find_slot_blank (has_name name) blank_unknown refl h.unknown,
  )
  | inr n ↦ ground (arith, n, find_slot_blank (has_name name) blank_unknown refl h.unknown)
]
