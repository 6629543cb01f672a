-- ===== src/Route/Allow.antt =====
-- `method_bit`, `allow_header_from_mask` and the mask of `dispatch_with_info` in
-- core/include/katana/core/router.hpp.
use Prim.Native.Nat.{bit_and, bit_or}
use visage_dvachevsky_tempre.Base.{
  table, table_entry, ℕ, ◌^◌, ◌<◌, ◌≡◌, refl, sym, Bool-cases, ==_iff, inl, inr, append-nil,
  append_assoc, Bool, true, false, not, ◌&&◌, ◌||◌, List, [], ◌∷◌, ◌++◌, Bytes, codes, leb, ltb,
  ltb→lt, ◌==◌, if◌then◌else◌, arith,
}
use visage_dvachevsky_tempre.Http.Method.{
  Method, get, post, put, del, patch, head, options, unknown, method_index, method_to_string,
}

abbrev pub is_unknown : Method → Bool
is_unknown unknown = true
is_unknown _ = false

unfoldable pub method_bit : Method → ℕ
method_bit m = if leb 31 (method_index m) || is_unknown m then 0 else 2 ^ method_index m

unfoldable pub allow_from : List Method → ℕ → Bool → Bytes → Bytes
allow_from [] mask first allow = allow
allow_from (m ∷ ms) mask first allow =
    if bit_and mask (method_bit m) == 0
    then allow_from ms mask first allow
    else allow_from ms mask false
        ((if first then allow else allow ++ codes ", ") ++ method_to_string m)

abbrev pub order : List Method
order = get ∷ head ∷ post ∷ put ∷ del ∷ patch ∷ options ∷ []

unfoldable pub allow_header_from_mask : ℕ → Bytes
allow_header_from_mask mask = if mask == 0 then [] else allow_from order mask true []

-- Whether the bit of a method is set.
abbrev pub has_method : ℕ → Method → Bool
has_method mask m = not (bit_and mask (method_bit m) == 0)

same : Bool → Bool → Bool
same true b = b
same false b = not b

same→eq : (a b : Bool) → same a b ≡ true → a ≡ b
unfolding same
same→eq a b h = ground arith

pub is_same : Method → Method → Bool
unfolding method_index
is_same a b = method_index a == method_index b

-- A test that holds for all methods.
all_methods : (Method → Bool) → Bool
all_methods t = t get && t post && t put && t del && t patch && t head && t options && t unknown

all_methods→test : (t : Method → Bool) → all_methods t ≡ true → (m : Method) → t m ≡ true
unfolding all_methods
all_methods→test t h get = ground (arith, h)
all_methods→test t h post = ground (arith, h)
all_methods→test t h put = ground (arith, h)
all_methods→test t h del = ground (arith, h)
all_methods→test t h patch = ground (arith, h)
all_methods→test t h head = ground (arith, h)
all_methods→test t h options = ground (arith, h)
all_methods→test t h unknown = ground (arith, h)

joins : ℕ → Method → Method → Bool
unfolding is_same same method_bit method_index
joins mask a b =
    same (has_method (bit_or mask (method_bit a)) b)
      (has_method mask b || (is_same a b && not (is_unknown b)))

joins_below : table (λ mask. all_methods (λ a. all_methods (joins mask a))) 128 ≡ true
unfolding table all_methods joins
joins_below = refl

stays : ℕ → Method → Bool
unfolding method_bit
stays mask a = ltb (bit_or mask (method_bit a)) 128

stays_below : table (λ mask. all_methods (stays mask)) 128 ≡ true
unfolding table all_methods stays method_index
stays_below = refl

joins→eq :
    (mask : ℕ) (a b : Method)
    → joins mask a b ≡ true
    → has_method (bit_or mask (method_bit a)) b
      ≡ (has_method mask b || (is_same a b && not (is_unknown b)))
unfolding joins
joins→eq mask a b h = same→eq _ _ h

stays→lt : (mask : ℕ) (a : Method) → stays mask a ≡ true → bit_or mask (method_bit a) < 128
unfolding stays
stays→lt mask a h = ltb→lt _ 128 h

-- Setting the bit of a method adds that method to the mask, and none for `unknown`.
pub has_method-bit_or :
    (mask : ℕ) (a b : Method)
    → mask < 128
    → has_method (bit_or mask (method_bit a)) b
      ≡ (has_method mask b || (is_same a b && not (is_unknown b)))
has_method-bit_or mask a b h = joins→eq mask a b (
    all_methods→test (joins mask a)
      (all_methods→test (λ c. all_methods (joins mask c))
        (table_entry (λ m. all_methods (λ c. all_methods (joins m c))) 128 mask h joins_below) a)
      b)

pub bit_or-bound : (mask : ℕ) (a : Method) → mask < 128 → bit_or mask (method_bit a) < 128
bit_or-bound mask a h = stays→lt mask a (
    all_methods→test (stays mask) (table_entry (λ m. all_methods (stays m)) 128 mask h stays_below)
      a)

-- The names of the methods, with a comma and a blank between two.
unfoldable pub behind : List Method → Bytes
behind [] = []
behind (m ∷ ms) = codes ", " ++ method_to_string m ++ behind ms

unfoldable pub listed : List Method → Bytes
listed [] = []
listed (m ∷ ms) = method_to_string m ++ behind ms

unfoldable pub in_mask : ℕ → List Method → List Method
in_mask mask [] = []
in_mask mask (m ∷ ms) = if has_method mask m then m ∷ in_mask mask ms else in_mask mask ms

allow_from_later :
    (ms : List Method) (mask : ℕ) (allow : Bytes)
    → allow_from ms mask false allow ≡ allow ++ behind (in_mask mask ms)
unfolding allow_from behind listed in_mask
allow_from_later [] mask allow = sym (append-nil allow)
allow_from_later (m ∷ ms) mask allow = elim (Bool-cases (bit_and mask (method_bit m) == 0)) [
  | inl e ↦ rw (e, allow_from_later ms mask allow)
  | inr e ↦ rw (
    e,
    allow_from_later ms mask (allow ++ codes ", " ++ method_to_string m),
    append_assoc (allow ++ codes ", ") (method_to_string m) (behind (in_mask mask ms)),
    append_assoc allow (codes ", ") (method_to_string m ++ behind (in_mask mask ms)),
  )
]

allow_from_first :
    (ms : List Method) (mask : ℕ) → allow_from ms mask true [] ≡ listed (in_mask mask ms)
unfolding allow_from behind listed in_mask
allow_from_first [] mask = refl
allow_from_first (m ∷ ms) mask = elim (Bool-cases (bit_and mask (method_bit m) == 0)) [
  | inl e ↦ rw (e, allow_from_first ms mask)
  | inr e ↦ rw (e, allow_from_later ms mask (method_to_string m))
]

allow_none : allow_header_from_mask 0 ≡ listed (in_mask 0 order)
unfolding allow_header_from_mask listed in_mask method_bit method_index
allow_none = refl

-- The Allow header lists the names of exactly the methods whose bits are set in the mask, in the
-- order of `order`, with a comma and a blank between two; it is empty if there is none.
pub allow_header_from_mask-lists :
    (mask : ℕ) → allow_header_from_mask mask ≡ listed (in_mask mask order)
unfolding allow_header_from_mask
allow_header_from_mask-lists mask = elim (Bool-cases (mask == 0)) [
  | inl e ↦ rw ((==_iff mask 0).0 e) allow_none
  | inr e ↦ rw (e, allow_from_first order mask)
]
