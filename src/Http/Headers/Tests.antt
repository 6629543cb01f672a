-- ===== src/Http/Headers/Tests.antt =====
-- The theorems on header names and the header map at concrete inputs.
use visage_dvachevsky_tempre.Base.{
  ℕ, ◌^◌, ◌≡◌, ◌≢◌, refl, Bool, true, false, ltb, ltb→lt, All, ◌&&◌, some, [], ◌∷◌, Bytes, codes,
  bytes_eq, map, if◌then◌else◌, arith, ◌==◌, replicate, length-replicate,
}
use visage_dvachevsky_tempre.Http.Ci.{ci_equal, ascii_lower}
use visage_dvachevsky_tempre.Http.Ci.Laws.{IsPlain, is_plain, ci_equal_lem, ci_equal_collision}
use visage_dvachevsky_tempre.Http.Headers.{
  HeadersMap, bytes_text, reset_storage, view16, is_field, set_known, set_known_borrowed, get_known,
  set_unknown_borrowed, get_unknown,
}
use visage_dvachevsky_tempre.Http.Headers.Known.{get_known-set_known_borrowed, set_known_truncates}
use visage_dvachevsky_tempre.Http.Headers.Unknown.{get_unknown-set_unknown_borrowed}

both : (a b : Bool) → (a && b) ≡ true → (a ≡ true) × (b ≡ true)
both true b h = (refl, h)
both false b h = cc

are_plain : Bytes → Bool
are_plain [] = true
are_plain (c ∷ r) = ltb c 256 && is_plain c && are_plain r

are_plain→All : (s : Bytes) → are_plain s ≡ true → All IsPlain s
unfolding are_plain
are_plain→All [] h = tt
are_plain→All (c ∷ r) h =
    let (first, rest) = both (ltb c 256 && is_plain c) (are_plain r) h in
    let (small, plain) = both (ltb c 256) (is_plain c) first in
    ((ltb→lt c 256 small, plain), are_plain→All r rest)

plain_names :
    (are_plain (codes "Content-Disposition") ≡ true)
    × (are_plain (codes "content-disposition") ≡ true)
unfolding are_plain
plain_names = (refl, refl)

ci_equal_lem_example :
    ci_equal (codes "Content-Disposition") (codes "content-disposition")
    ≡ bytes_eq
        (map ascii_lower (codes "Content-Disposition"))
        (map ascii_lower (codes "content-disposition"))
ci_equal_lem_example =
    ci_equal_lem (codes "Content-Disposition") (codes "content-disposition")
      (are_plain→All (codes "Content-Disposition") plain_names.0)
      (are_plain→All (codes "content-disposition") plain_names.1)

ci_equal_collision_example : ci_equal (b'^' ∷ codes "a") (b'~' ∷ codes "a") ≡ true
ci_equal_collision_example = ci_equal_collision (codes "a") (omega arith)

-- A map that holds a Host.
abbrev one_header : HeadersMap Bytes
one_header = set_known_borrowed true 144 (codes "example.org") reset_storage

get_known-set_known_borrowed_example :
    get_known 144 (set_known_borrowed true 78 (codes "text/plain") one_header) ≡ (
      if is_field 78 && 78 == 144
      then some (view16 (codes "text/plain"))
      else get_known 144 one_header)
get_known-set_known_borrowed_example =
    get_known-set_known_borrowed 78 144 (codes "text/plain") one_header

abbrev long_value : Bytes
long_value = replicate (2 ^ 16) b'x'

set_known_truncates_example :
    get_known 78 (set_known true true 78 long_value one_header) ≢ some long_value
set_known_truncates_example =
    set_known_truncates 78 long_value one_header refl
      (omega (arith, length-replicate {A = ℕ} (2 ^ 16) b'x'))

get_unknown-set_unknown_borrowed_example :
    (get_unknown
        (codes "X-Trace")
        (set_unknown_borrowed true (codes "X-Trace") (codes "7") one_header)
      ≡ some (view16 (codes "7")))
    × (get_known 144 (set_unknown_borrowed false (codes "X-Trace") (codes "7") one_header)
        ≡ get_known 144 one_header)
get_unknown-set_unknown_borrowed_example =
    get_unknown-set_unknown_borrowed false (codes "X-Trace") (codes "7") 144 one_header
      (omega arith)
