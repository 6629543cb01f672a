-- ===== src/Http/Parser/Live.antt =====
-- Views of the parser into the allocation that its buffer has: what is read through them does not
-- depend on what freed memory holds, and the header map keeps such views.
pub mod Lines
pub mod Untouched
pub mod Kept
pub mod Room
pub mod Calls
use visage_dvachevsky_tempre.Base.{
  ℕ, ◌+◌, ◌≡◌, refl, ap, sym, ◌∙◌, Bool, true, false, Option, none, some, Bytes, arith, Bool-cases,
  Option-cases, inl, inr,
}
use mathlib.Core.Path.{subst}
use visage_dvachevsky_tempre.Http.Headers.Store.{find_slot, write_slot, append_slot}
use visage_dvachevsky_tempre.Http.Headers.{
  Field, HeaderText, KnownEntry, UnknownEntry, HeadersMap, blank_known, blank_unknown, is_field,
  has_key, has_name, is_unused, assign_known, append_unknown, set_known_borrowed,
  set_unknown_borrowed, get_known, get_unknown,
}
use visage_dvachevsky_tempre.Http.Headers.Kept.{
  AllSlots, find_slot-holds, write_slot-AllSlots, append_slot-AllSlots, find_slot-agree,
  write_slot-agree,
}
use visage_dvachevsky_tempre.Http.Parser.{View, in_buffer, owned, cut_view, views_by, Env, Parser}
use visage_dvachevsky_tempre.Http.Parser.Buffer.{read_view}

-- The view is into the allocation with this number, or onto a text that stays.
abbrev pub IsLive : ℕ → View → Type 0
IsLive g (in_buffer h offset n) = h ≡ g
IsLive g (owned text) = Unit {0}

abbrev pub IsLiveName : ℕ → Option View → Type 0
IsLiveName g none = Unit {0}
IsLiveName g (some v) = IsLive g v

abbrev pub KnownLive : ℕ → KnownEntry View → Type 0
KnownLive g e = IsLive g e.value

abbrev pub UnknownLive : ℕ → UnknownEntry View → Type 0
UnknownLive g e = IsLiveName g e.name × IsLive g e.value

abbrev pub MapLive : ℕ → HeadersMap View → Type 0
MapLive g h = AllSlots (KnownLive g) h.known × AllSlots (UnknownLive g) h.unknown

-- Every view that the parser may read is into its buffer as it is.
pub record ViewsLive (g : ℕ) (p : Parser) : Type 0 where
  pub current : p.generation ≡ g
  pub headers : MapLive g p.request_headers
  pub last : IsLiveName g p.last_header_name

-- The environment with other contents of freed memory.
abbrev pub with_freed : (ℕ → ℕ → ℕ → Bytes) → Env → Env
with_freed f env = record env { freed = f }

pub read_same :
    (f : ℕ → ℕ → ℕ → Bytes) (env : Env) (p : Parser) (v : View)
    → IsLive p.generation v
    → read_view (with_freed f env) p v ≡ read_view env p v
unfolding read_view
read_same f env p (in_buffer h offset n) l = ground (arith, l)
read_same f env p (owned text) l = refl

pub cut_view-IsLive : (g : ℕ) (v : View) → IsLive g v → IsLive g (cut_view v)
cut_view-IsLive g (in_buffer h offset n) l = l
cut_view-IsLive g (owned text) l = tt

pub get_known-IsLive :
    (g : ℕ) (f : Field) (h : HeadersMap View) (v : View)
    → MapLive g h
    → get_known f h ≡ some v
    → IsLive g v
unfolding get_known
get_known-IsLive g f h v l e = elim (Bool-cases (is_field f)) [
  | inr n ↦ absurd (ground (arith, n, e))
  | inl y ↦ elim (Option-cases (find_slot (has_key f) h.known)) [
    | inl n ↦ absurd (ground (arith, y, n, e))
    | inr (x, w) ↦
        subst (IsLive g) {x = x.value} (ground (arith, y, w, e))
          (find_slot-holds (KnownLive g) (has_key f) h.known x w l.0)
  ]
]

module _ (g : ℕ) (read read' : View → Bytes)
    (agree : (v : View) → IsLive g v → read v ≡ read' v) where
  has_name-agree :
      (name : Bytes) (e : UnknownEntry View)
      → UnknownLive g e
      → has_name ⦃t = views_by read⦄ name e ≡ has_name ⦃t = views_by read'⦄ name e
  unfolding has_name
  has_name-agree name e l = elim (Option-cases e.name) [
    | inl n ↦ ground (arith, n)
    | inr (v, w) ↦ ground (arith, w, agree v (subst (IsLiveName g) {x = e.name} w l.0))
  ]

  pub get_unknown-agree :
      (name : Bytes) (h : HeadersMap View)
      → MapLive g h
      → get_unknown ⦃t = views_by read⦄ name h ≡ get_unknown ⦃t = views_by read'⦄ name h
  unfolding get_unknown
  get_unknown-agree name h l = rw (
      find_slot-agree (UnknownLive g) (has_name ⦃t = views_by read⦄ name)
        (has_name ⦃t = views_by read'⦄ name) (has_name-agree name) h.unknown l.1)

  pub set_unknown_borrowed-agree :
      (mem : Bool) (name value : View) (h : HeadersMap View)
      → IsLive g name
      → MapLive g h
      → set_unknown_borrowed ⦃t = views_by read⦄ mem name value h
        ≡ set_unknown_borrowed ⦃t = views_by read'⦄ mem name value h
  unfolding set_unknown_borrowed append_unknown
  set_unknown_borrowed-agree mem name value h n l =
      let entry : UnknownEntry View = record {
        name = some (cut_view name);
        value = cut_view value;
      } in
      ground (
        arith,
        agree name n,
        write_slot-agree (UnknownLive g) (has_name ⦃t = views_by read⦄ (read name))
            (has_name ⦃t = views_by read'⦄ (read name)) (has_name-agree (read name)) (λ _. entry)
            h.unknown l.1,
      )

pub get_unknown-IsLive :
    (g : ℕ) (read : View → Bytes) (name : Bytes) (h : HeadersMap View) (v : View)
    → MapLive g h
    → get_unknown ⦃t = views_by read⦄ name h ≡ some v
    → IsLive g v
unfolding get_unknown
get_unknown-IsLive g read name h v l e =
    elim (Option-cases (find_slot (has_name ⦃t = views_by read⦄ name) h.unknown)) [
      | inl n ↦ absurd (ground (arith, n, e))
      | inr (x, w) ↦
          subst (IsLive g) {x = x.value} (ground (arith, w, e))
            (find_slot-holds (UnknownLive g) (has_name ⦃t = views_by read⦄ name) h.unknown x w
              l.1).1
    ]

pub set_known_borrowed-MapLive :
    (g : ℕ) (read : View → Bytes) (mem : Bool) (f : Field) (value : View) (h : HeadersMap View)
    → IsLive g value
    → MapLive g h
    → MapLive g (set_known_borrowed ⦃t = views_by read⦄ mem f value h)
unfolding set_known_borrowed assign_known
set_known_borrowed-MapLive g read mem f value h n l =
    let out : HeadersMap View = set_known_borrowed ⦃t = views_by read⦄ mem f value h in
    elim (Bool-cases (is_field f)) [
      | inr no' ↦ subst (MapLive g) {x = h} {y = out} (ground (arith, no')) l
      | inl y ↦
          let entry : KnownEntry View = record { key = f; value = cut_view value } in
          let good : KnownLive g entry = cut_view-IsLive g value n in
          let blank : KnownEntry View = blank_known ⦃t = views_by read⦄ in
          elim (Option-cases (write_slot (has_key f) (λ _. entry) h.known)) [
            | inr (s, w) ↦
                subst (MapLive g) {x = record h { known = s }} {y = out} (ground (arith, y, w))
                  (write_slot-AllSlots (KnownLive g) entry good (has_key f) h.known s w l.0, l.1)
            | inl w ↦ elim (Option-cases (append_slot mem 16 blank (has_key 0) entry h.known)) [
              | inl a ↦ subst (MapLive g) {x = h} {y = out} (ground (arith, y, w, a)) l
              | inr (s, a) ↦
                  subst (MapLive g) {x = record h { known = s; known_size = h.known_size + 1 }}
                    {y = out} (ground (arith, y, w, a))
                    (
                      append_slot-AllSlots (KnownLive g) entry good mem 16 blank (has_key 0) h.known
                          s tt a l.0,
                      l.1,
                    )
            ]
          ]
    ]

pub set_unknown_borrowed-MapLive :
    (g : ℕ) (read : View → Bytes) (mem : Bool) (name value : View) (h : HeadersMap View)
    → IsLive g name
    → IsLive g value
    → MapLive g h
    → MapLive g (set_unknown_borrowed ⦃t = views_by read⦄ mem name value h)
unfolding set_unknown_borrowed append_unknown
set_unknown_borrowed-MapLive g read mem name value h n v l =
    let out : HeadersMap View = set_unknown_borrowed ⦃t = views_by read⦄ mem name value h in
    let entry : UnknownEntry View = record {
      name = some (cut_view name);
      value = cut_view value;
    } in
    let good : UnknownLive g entry = (cut_view-IsLive g name n, cut_view-IsLive g value v) in
    let blank : UnknownEntry View = blank_unknown ⦃t = views_by read⦄ in
    let named = has_name ⦃t = views_by read⦄ (read name) in
    elim (Option-cases (write_slot named (λ _. entry) h.unknown)) [
      | inr (s, w) ↦
          subst (MapLive g) {x = record h { unknown = s }} {y = out} (ground (arith, w))
            (l.0, write_slot-AllSlots (UnknownLive g) entry good named h.unknown s w l.1)
      | inl w ↦ elim (Option-cases (append_slot mem 8 blank is_unused entry h.unknown)) [
        | inl a ↦ subst (MapLive g) {x = h} {y = out} (ground (arith, w, a)) l
        | inr (s, a) ↦
            subst (MapLive g) {x = record h { unknown = s; unknown_size = h.unknown_size + 1 }}
              {y = out} (ground (arith, w, a))
              (
                l.0,
                append_slot-AllSlots (UnknownLive g) entry good mem 8 blank is_unused h.unknown s
                    (tt, tt) a l.1,
              )
      ]
    ]
