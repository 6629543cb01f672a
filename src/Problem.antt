-- ===== src/Problem.antt =====
-- `struct problem_details` and its JSON text (core/include/katana/core/problem.hpp,
-- core/src/problem.cpp). The extensions, an unordered map, are a list in the order of iteration.
pub mod Escape
mod Tests
use Prim.Native.Nat.{bit_and}
use visage_dvachevsky_tempre.Base.{
  ℕ, ◌+◌, ◌/◌, Bool, true, false, Option, none, some, List, [], ◌∷◌, ◌++◌, Bytes, codes, length,
  get_or, ltb, ◌==◌, if◌then◌else◌,
}
use visage_dvachevsky_tempre.Digits.{to_chars}

pub record ProblemDetails : Type 0 where
  pub kind : Bytes
  pub title : Bytes
  pub status : ℕ
  pub detail : Option Bytes
  pub instance_uri : Option Bytes
  pub extensions : List (Bytes × Bytes)

-- `hex[(ch >> 4) & 0x0F]` and `hex[ch & 0x0F]`
abbrev pub hex_digits : Bytes
hex_digits = codes "0123456789abcdef"

-- `buf`
unfoldable pub hex_escape : ℕ → Bytes
hex_escape ch =
    codes "\\u00"
    ++ (get_or hex_digits (bit_and (ch / 16) 0x0f) 0 ∷ get_or hex_digits (bit_and ch 0x0f) 0 ∷ [])

unfoldable pub escape_byte : ℕ → Bytes
escape_byte ch =
    if ch == b'"'
    then b'\\' ∷ b'"' ∷ []
    else if ch == b'\\'
    then b'\\' ∷ b'\\' ∷ []
    else if ch == 0x08
    then b'\\' ∷ b'b' ∷ []
    else if ch == 0x0c
    then b'\\' ∷ b'f' ∷ []
    else if ch == b'\n'
    then b'\\' ∷ b'n' ∷ []
    else if ch == b'\r'
    then b'\\' ∷ b'r' ∷ []
    else if ch == b'\t'
    then b'\\' ∷ b't' ∷ []
    else if ltb ch 0x20
    then hex_escape ch
    else ch ∷ []

-- `append_json_escaped`, as the text that it appends.
unfoldable pub json_escaped : Bytes → Bytes
json_escaped [] = []
json_escaped (c ∷ r) = escape_byte c ++ json_escaped r

-- The comma before every field but the first.
abbrev comma : Bool → Bytes
comma first = if first then [] else b',' ∷ []

unfoldable pub append_json_string_field : Bytes → Bytes → Bytes → Bool → Bytes
append_json_string_field out key value first =
    out ++ comma first ++ b'"' ∷ [] ++ key ++ codes "\":\"" ++ json_escaped value ++ b'"' ∷ []

-- The status is not negative and fits the buffer of `to_chars`.
unfoldable pub append_json_int_field : Bytes → Bytes → ℕ → Bool → Bytes
append_json_int_field out key value first =
    out ++ comma first ++ b'"' ∷ [] ++ key ++ codes "\":" ++ to_chars 10 value

abbrev append_optional : Bytes → Bytes → Option Bytes → Bytes
append_optional out key value = elim value [
  | none ↦ out
  | some v ↦ append_json_string_field out key v false
]

unfoldable pub append_extensions : Bytes → List (Bytes × Bytes) → Bytes
append_extensions out [] = out
append_extensions out ((k, v) ∷ es) = append_extensions (append_json_string_field out k v false) es

unfoldable pub to_json : ProblemDetails → Bytes
to_json p =
    let typed = append_json_string_field (b'{' ∷ []) (codes "type") p.kind true in
    let titled = append_json_string_field typed (codes "title") p.title false in
    let numbered = append_json_int_field titled (codes "status") p.status false in
    let detailed = append_optional numbered (codes "detail") p.detail in
    let placed = append_optional detailed (codes "instance") p.instance_uri in
    append_extensions placed p.extensions ++ b'}' ∷ []

-- The factory functions: a status, a title and a detail, which an empty text leaves out.
abbrev pub problem_of : ℕ → Bytes → Bytes → ProblemDetails
problem_of status title detail = record {
  kind = codes "about:blank";
  title = title;
  status = status;
  detail = if length detail == 0 then none else some detail;
  instance_uri = none;
  extensions = [];
}

abbrev pub bad_request : Bytes → ProblemDetails
bad_request = problem_of 400 (codes "Bad Request")

abbrev pub unauthorized : Bytes → ProblemDetails
unauthorized = problem_of 401 (codes "Unauthorized")

abbrev pub forbidden : Bytes → ProblemDetails
forbidden = problem_of 403 (codes "Forbidden")

abbrev pub not_found : Bytes → ProblemDetails
not_found = problem_of 404 (codes "Not Found")

abbrev pub method_not_allowed : Bytes → ProblemDetails
method_not_allowed = problem_of 405 (codes "Method Not Allowed")

abbrev pub not_acceptable : Bytes → ProblemDetails
not_acceptable = problem_of 406 (codes "Not Acceptable")

abbrev pub unsupported_media_type : Bytes → ProblemDetails
unsupported_media_type = problem_of 415 (codes "Unsupported Media Type")

abbrev pub conflict : Bytes → ProblemDetails
conflict = problem_of 409 (codes "Conflict")

abbrev pub unprocessable_entity : Bytes → ProblemDetails
unprocessable_entity = problem_of 422 (codes "Unprocessable Entity")

abbrev pub internal_server_error : Bytes → ProblemDetails
internal_server_error = problem_of 500 (codes "Internal Server Error")

abbrev pub service_unavailable : Bytes → ProblemDetails
service_unavailable = problem_of 503 (codes "Service Unavailable")
