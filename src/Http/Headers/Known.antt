-- ===== src/Http/Headers/Known.antt =====
-- `headers_map` as a map from the fields that have an enumerator.
use visage_dvachevsky_tempre.Base.{
  ◌%◌, ◌^◌, ◌≤◌, ◌<◌, ◌≡◌, ◌≢◌, ap, Bool, true, false, ◌&&◌, some, Bytes, length, length-take,
  take_all, ◌==◌, ==_iff, ==_refl, if◌then◌else◌, arith, Option-cases, Bool-cases, inl, inr,
}
use visage_dvachevsky_tempre.Http.Headers.Store.{write_slot, append_slot}
use visage_dvachevsky_tempre.Http.Headers.Entries.{
  write_slot-miss, write_slot-other, append_slot-other, append_slot-fresh, write_slot-same,
}
use visage_dvachevsky_tempre.Http.Headers.{
  HeaderText, Field, KnownEntry, HeadersMap, bytes_text, blank_known, view16, is_field, has_key,
  assign_known, set_known, set_known_borrowed, get_known,
}

pub view16_lem : (v : Bytes) → length v < 2 ^ 16 → view16 v ≡ v
view16_lem v h = take_all (length v % 2 ^ 16) v (omega arith)

view16_short : (v : Bytes) → 2 ^ 16 ≤ length v → view16 v ≢ v
view16_short v h e = omega (arith, ap length e, length-take (length v % 2 ^ 16) v)

key-other :
    {T : Type 0} (f g : Field)
    → f ≢ g
    → (e : KnownEntry T) → has_key f e ≡ true
    → has_key g e ≡ false
key-other f g ne e h = ground arith

assign_known-get_self :
    {T : Type 0} ⦃t : HeaderText T⦄ (f : Field) (v : T) (h : HeadersMap T)
    → is_field f ≡ true
    → get_known f (assign_known true f v h) ≡ some (view16 v)
unfolding get_known assign_known
assign_known-get_self {T} f v h hf =
    let entry : KnownEntry T = record { key = f; value = view16 v } in
    let self : has_key f entry ≡ true = ==_refl f in
    elim (Option-cases (write_slot (has_key f) (λ _. entry) h.known)) [
      | inr (s, w) ↦
          let (e, old, new) = write_slot-same (has_key f) (λ _. entry) (λ e _. self) h.known s w in
          ground (arith, hf, w, new)
      | inl w ↦ elim (Option-cases (append_slot true 16 blank_known (has_key 0) entry h.known)) [
        | inr (s, a) ↦ ground (
          arith,
          hf,
          w,
          a,
          append_slot-fresh (has_key 0) (has_key f) entry self true 16 blank_known h.known s a
              (write_slot-miss (has_key f) (λ _. entry) h.known w),
        )
        | inl a ↦ unfold append_slot in ground arith
      ]
    ]

assign_known-get_other :
    {T : Type 0} ⦃t : HeaderText T⦄ (mem : Bool) (f g : Field) (v : T) (h : HeadersMap T)
    → f ≢ g
    → get_known g (assign_known mem f v h) ≡ get_known g h
unfolding get_known assign_known
assign_known-get_other {T} mem f g v h ne = elim (Bool-cases (is_field g)) [
  | inr n ↦ rw n
  | inl y ↦
      let entry : KnownEntry T = record { key = f; value = view16 v } in
      let unseen : has_key g entry ≡ false = ground arith in
      elim (Option-cases (write_slot (has_key f) (λ _. entry) h.known)) [
        | inr (s, w) ↦ ground (
          arith,
          w,
          write_slot-other (has_key f) (has_key g) (λ _. entry) (key-other f g ne) (λ e _. unseen)
              h.known s w,
        )
        | inl w ↦ elim (Option-cases (append_slot mem 16 blank_known (has_key 0) entry h.known)) [
          | inr (s, a) ↦ ground (
            arith,
            w,
            a,
            append_slot-other (has_key 0) (has_key g) entry mem 16 blank_known h.known s
                (key-other 0 g (ground arith)) unseen (ground arith) a,
          )
          | inl a ↦ ground (arith, w, a)
        ]
      ]
]

-- Given memory, `get` after `set_known_borrowed` returns the value, cut to its length modulo 2^16,
-- for the field that was set, and for every other field what it returned before; a field that is
-- `unknown` or out of range is not set.
pub get_known-set_known_borrowed :
    {T : Type 0} ⦃t : HeaderText T⦄ (f g : Field) (v : T) (h : HeadersMap T)
    → get_known g (set_known_borrowed true f v h)
      ≡ (if is_field f && f == g then some (view16 v) else get_known g h)
unfolding set_known_borrowed
get_known-set_known_borrowed f g v h = elim (Bool-cases (f == g)) [
  | inl e ↦ rw (← (==_iff f g).0 e) (ground (arith, assign_known-get_self f v h))
  | inr e ↦ ground (arith, assign_known-get_other true f g v h (ground arith))
]

-- `set_known` never touches another field, whichever of its two requests for memory fails, and
-- changes nothing when the first one fails.
pub get_known-set_known_other :
    (string_mem chunk_mem : Bool) (f g : Field) (v : Bytes) (h : HeadersMap Bytes)
    → f ≢ g
    → (get_known g (set_known string_mem chunk_mem f v h) ≡ get_known g h)
      × (set_known false chunk_mem f v h ≡ h)
unfolding set_known
get_known-set_known_other sm cm f g v h ne =
    (ground (arith, assign_known-get_other cm f g v h ne), ground arith)

-- A value of 2^16 bytes or more, set with memory available, is not what `get` returns.
pub set_known_truncates :
    (f : Field) (v : Bytes) (h : HeadersMap Bytes)
    → is_field f ≡ true
    → 2 ^ 16 ≤ length v
    → get_known f (set_known true true f v h) ≢ some v
unfolding set_known
set_known_truncates f v h hf long e =
    ground (arith, assign_known-get_self f v h hf, view16_short v long)
