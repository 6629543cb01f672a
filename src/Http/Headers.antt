-- ===== src/Http/Headers.antt =====
-- `class headers_map` of core/include/katana/core/http_headers.hpp: two stores of entries, one for
-- the fields that have an enumerator and one for the others, each an inline array and a chain of
-- chunks from the arena. A field is its enumerator's value; 0 is `field::unknown`. Whether the arena
-- hands out memory is an argument of each operation that asks it for some.
pub mod Store
pub mod Entries
pub mod Known
pub mod Unknown
pub mod Clear
pub mod Kept
mod Tests
pub use Store.{Slots}
use visage_dvachevsky_tempre.Base.{
  ℕ, ◌+◌, ◌-◌, ◌%◌, ◌^◌, Bool, true, false, not, ◌&&◌, ◌||◌, Option, none, some, List, [], ◌∷◌,
  ◌++◌, Bytes, length, take, replicate, leb, ◌==◌, if◌then◌else◌, map,
}
use mathlib.Core.Option
use visage_dvachevsky_tempre.Http.Headers.Store.{
  find_slot, write_slot, append_slot, entries, blank_slots,
}
use visage_dvachevsky_tempre.Http.Ci.{ci_equal}

abbrev pub Field : Type 0
Field = ℕ

-- `field::MAX_FIELD_VALUE`, behind 357 enumerators.
abbrev pub max_field : Field
max_field = 357

-- What an entry keeps of a `std::string_view`: a pointer and a length, for instance into a buffer, or
-- the bytes themselves where they do not change. `cut` is the conversion of the length to 16 bits,
-- and `read` gives the bytes that the pointer shows.
pub record HeaderText (T : Type 0) : Type 0 where
  pub empty : T
  pub cut : T → T
  pub read : T → Bytes

pub record KnownEntry (T : Type 0) : Type 0 where
  pub key : Field
  pub value : T

-- `name` is a pointer, null in an entry that is not in use.
pub record UnknownEntry (T : Type 0) : Type 0 where
  pub name : Option T
  pub value : T

pub record HeadersMap (T : Type 0) : Type 0 where
  pub known : Slots (KnownEntry T)
  pub known_size : ℕ
  pub unknown : Slots (UnknownEntry T)
  pub unknown_size : ℕ

abbrev pub blank_known : {T : Type 0} ⦃t : HeaderText T⦄ → KnownEntry T
blank_known ⦃t⦄ = record { key = 0; value = t.empty }

abbrev pub blank_unknown : {T : Type 0} ⦃t : HeaderText T⦄ → UnknownEntry T
blank_unknown ⦃t⦄ = record { name = none; value = t.empty }

-- `static_cast<uint16_t>(value.size())` beside the pointer: the view that is read back.
abbrev pub view16 : {T : Type 0} ⦃t : HeaderText T⦄ → T → T
view16 ⦃t⦄ v = t.cut v

instance abbrev pub bytes_text : HeaderText Bytes
bytes_text = record { empty = []; cut = λ v. take (length v % 2 ^ 16) v; read = λ v. v }

abbrev pub is_field : Field → Bool
is_field f = not (f == 0 || leb max_field f)

abbrev pub has_key : {T : Type 0} → Field → KnownEntry T → Bool
has_key f e = e.key == f

-- `entry.name && entry.name_length == name.size() && ci_equal_fast(...)`
unfoldable pub has_name : {T : Type 0} ⦃t : HeaderText T⦄ → Bytes → UnknownEntry T → Bool
has_name ⦃t⦄ name e = elim e.name [
  | none ↦ false
  | some n ↦ length (t.read n) == length name && ci_equal (t.read n) name
]

abbrev pub is_unused : {T : Type 0} → UnknownEntry T → Bool
is_unused e = elim e.name [ none ↦ true | some n ↦ false ]

-- `reset_storage`, also what a new map holds.
unfoldable pub reset_storage : {T : Type 0} ⦃t : HeaderText T⦄ → HeadersMap T
unfolding blank_slots
reset_storage = record {
  known = blank_slots 16 blank_known;
  known_size = 0;
  unknown = blank_slots 8 blank_unknown;
  unknown_size = 0;
}

-- `find_known_entry`, `append_known_entry` and the assignments through the pointer that they return.
unfoldable pub assign_known :
    {T : Type 0} ⦃t : HeaderText T⦄ → Bool → Field → T → HeadersMap T → HeadersMap T
assign_known {T} chunk_mem f value h =
    let entry : KnownEntry T = record { key = f; value = view16 value } in
    elim (write_slot (has_key f) (λ _. entry) h.known) [
      | some s ↦ record h { known = s }
      | none ↦ elim (append_slot chunk_mem 16 blank_known (has_key 0) entry h.known) [
        | some s ↦ record h { known = s; known_size = h.known_size + 1 }
        | none ↦ h
      ]
    ]

unfoldable pub set_known : Bool → Bool → Field → Bytes → HeadersMap Bytes → HeadersMap Bytes
set_known string_mem chunk_mem f value h =
    if not (is_field f) then h else if string_mem then assign_known chunk_mem f value h else h

unfoldable pub set_known_borrowed :
    {T : Type 0} ⦃t : HeaderText T⦄ → Bool → Field → T → HeadersMap T → HeadersMap T
set_known_borrowed chunk_mem f value h =
    if not (is_field f) then h else assign_known chunk_mem f value h

-- The append of `set_unknown` and `set_unknown_borrowed`.
unfoldable pub append_unknown :
    {T : Type 0} ⦃t : HeaderText T⦄ → Bool → T → T → HeadersMap T → HeadersMap T
append_unknown {T} chunk_mem name value h =
    let entry : UnknownEntry T = record { name = some (view16 name); value = view16 value } in
    elim (append_slot chunk_mem 8 blank_unknown is_unused entry h.unknown) [
      | some s ↦ record h { unknown = s; unknown_size = h.unknown_size + 1 }
      | none ↦ h
    ]

-- An entry that is found keeps its name.
unfoldable pub set_unknown : Bool → Bool → Bytes → Bytes → HeadersMap Bytes → HeadersMap Bytes
set_unknown string_mem chunk_mem name value h =
    if string_mem
    then elim (write_slot (has_name name) (λ e. record e { value = view16 value }) h.unknown) [
      | some s ↦ record h { unknown = s }
      | none ↦ append_unknown chunk_mem name value h
    ]
    else h

-- An entry that is found takes the new spelling of its name.
unfoldable pub set_unknown_borrowed :
    {T : Type 0} ⦃t : HeaderText T⦄ → Bool → T → T → HeadersMap T → HeadersMap T
set_unknown_borrowed {T} ⦃t⦄ chunk_mem name value h =
    let entry : UnknownEntry T = record { name = some (view16 name); value = view16 value } in
    elim (write_slot (has_name (t.read name)) (λ _. entry) h.unknown) [
      | some s ↦ record h { unknown = s }
      | none ↦ append_unknown chunk_mem name value h
    ]

-- `get(field)`
unfoldable pub get_known : {T : Type 0} → Field → HeadersMap T → Option T
get_known {T} f h =
    if not (is_field f)
    then none
    else Option.map (λ (e : KnownEntry T). e.value) (find_slot (has_key f) h.known)

-- The branch of `get(std::string_view)` for a name that has no enumerator.
unfoldable pub get_unknown : {T : Type 0} ⦃t : HeaderText T⦄ → Bytes → HeadersMap T → Option T
get_unknown {T} name h =
    Option.map (λ (e : UnknownEntry T). e.value) (find_slot (has_name name) h.unknown)

abbrev is_found {ℓ} : {A : Type ℓ} → Option A → Bool
is_found none = false
is_found (some a) = true

unfoldable pub contains_known : {T : Type 0} → Field → HeadersMap T → Bool
contains_known f h = is_found (find_slot (has_key f) h.known)

-- `remove(field)`
unfoldable pub remove_known : {T : Type 0} ⦃t : HeaderText T⦄ → Field → HeadersMap T → HeadersMap T
remove_known f h = elim (write_slot (has_key f) (λ _. blank_known) h.known) [
  | some s ↦ record h { known = s; known_size = h.known_size - 1 }
  | none ↦ h
]

unfoldable pub remove_unknown :
    {T : Type 0} ⦃t : HeaderText T⦄ → Bytes → HeadersMap T → HeadersMap T
remove_unknown name h = elim (write_slot (has_name name) (λ _. blank_unknown) h.unknown) [
  | some s ↦ record h { unknown = s; unknown_size = h.unknown_size - 1 }
  | none ↦ h
]

abbrev wipe {ℓ} : {E : Type ℓ} → E → Slots E → Slots E
wipe blank s = record {
  inline = map (λ _. blank) s.inline;
  chunks = map (map (λ _. blank)) s.chunks;
}

-- `clear` blanks every entry and keeps the chunks.
unfoldable pub clear : {T : Type 0} ⦃t : HeaderText T⦄ → HeadersMap T → HeadersMap T
clear h = record {
  known = wipe blank_known h.known;
  known_size = 0;
  unknown = wipe blank_unknown h.unknown;
  unknown_size = 0;
}

abbrev pub size : {T : Type 0} → HeadersMap T → ℕ
size h = h.known_size + h.unknown_size

-- What the iterator visits, in its order: the entries in use of the four phases.
used_known : {T : Type 0} → List (KnownEntry T) → List (Field × T)
used_known [] = []
used_known (e ∷ es) = if e.key == 0 then used_known es else (e.key, e.value) ∷ used_known es

used_unknown : {T : Type 0} → List (UnknownEntry T) → List (T × T)
used_unknown [] = []
used_unknown (e ∷ es) = elim e.name [
  | none ↦ used_unknown es
  | some n ↦ (n, e.value) ∷ used_unknown es
]

unfoldable pub iterate : (Field → Bytes) → HeadersMap Bytes → List (Bytes × Bytes)
unfolding used_known used_unknown entries
iterate field_to_string h =
    map (λ (p : Field × Bytes). (field_to_string p.0, p.1)) (used_known (entries h.known))
    ++ used_unknown (entries h.unknown)
