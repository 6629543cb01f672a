-- ===== src/Http/Headers/Unknown.antt =====
-- `headers_map` as a map from the names that have no enumerator.
use visage_dvachevsky_tempre.Base.{
  ◌^◌, ◌<◌, ◌≡◌, Bool, true, some, Bytes, length, ==_refl, arith, Option-cases, inl, inr,
}
use visage_dvachevsky_tempre.Http.Ci.Laws.{ci_equal_refl}
use visage_dvachevsky_tempre.Http.Headers.Store.{write_slot, append_slot}
use visage_dvachevsky_tempre.Http.Headers.Entries.{
  write_slot-miss, append_slot-fresh, write_slot-same,
}
use visage_dvachevsky_tempre.Http.Headers.Known.{view16_lem}
use visage_dvachevsky_tempre.Http.Headers.{
  Field, UnknownEntry, HeadersMap, bytes_text, blank_unknown, view16, has_name, is_unused,
  append_unknown, set_unknown_borrowed, get_known, get_unknown,
}

has_name_self :
    (name value : Bytes)
    → length name < 2 ^ 16
    → has_name name (record { name = some (view16 name); value = value }) ≡ true
unfolding has_name
has_name_self name value h = rw (view16_lem name h, ==_refl (length name), ci_equal_refl name)

-- Given memory, a header whose name has no enumerator and is shorter than 2^16 bytes is found under
-- its name after `set_unknown_borrowed`, with the value cut to its length modulo 2^16; the fields
-- that have an enumerator keep their values, also if there is no memory.
pub get_unknown-set_unknown_borrowed :
    (chunk_mem : Bool) (name v : Bytes) (f : Field) (h : HeadersMap Bytes)
    → length name < 2 ^ 16
    → (get_unknown name (set_unknown_borrowed true name v h) ≡ some (view16 v))
      × (get_known f (set_unknown_borrowed chunk_mem name v h) ≡ get_known f h)
unfolding get_unknown get_known set_unknown_borrowed append_unknown
get_unknown-set_unknown_borrowed mem name v f h short = (found, ground arith)
  where
    entry : UnknownEntry Bytes
    entry = record { name = some (view16 name); value = view16 v }

    self : has_name name entry ≡ true
    self = has_name_self name (view16 v) short

    found : get_unknown name (set_unknown_borrowed true name v h) ≡ some (view16 v)
    found = elim (Option-cases (write_slot (has_name name) (λ _. entry) h.unknown)) [
      | inr (s, w) ↦
          let (e, old, new) =
            write_slot-same (has_name name) (λ _. entry) (λ e _. self) h.unknown s w in
          ground (arith, w, new)
      | inl w ↦ elim (Option-cases (append_slot true 8 blank_unknown is_unused entry h.unknown)) [
        | inr (s, a) ↦ ground (
          arith,
          w,
          a,
          append_slot-fresh is_unused (has_name name) entry self true 8 blank_unknown h.unknown s a
              (write_slot-miss (has_name name) (λ _. entry) h.unknown w),
        )
        | inl a ↦ unfold append_slot in ground arith
      ]
    ]
