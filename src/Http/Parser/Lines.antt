-- ===== src/Http/Parser/Lines.antt =====
-- `parser::process_request_line`, `parser::process_header_line` and the continuation of a header
-- over several lines (core/src/http.cpp).
pub mod RequestLine
use visage_dvachevsky_tempre.Digits.{from_chars}
use visage_dvachevsky_tempre.Base.{
  ℕ, ◌+◌, ◌-◌, Bool, true, false, not, ◌&&◌, ◌||◌, Option, none, some, List, [], ◌∷◌, ◌++◌, Bytes,
  codes, bytes_eq, length, take, drop, leb, ltb, ◌==◌, if◌then◌else◌,
}
use visage_dvachevsky_tempre.Http.Method.{Method, parse_method, Result, ok}
use visage_dvachevsky_tempre.Http.Ci.{ci_equal}
use visage_dvachevsky_tempre.Http.Headers.{
  Field, set_known_borrowed, set_unknown_borrowed, get_known, get_unknown,
}
use visage_dvachevsky_tempre.Http.Parser.{
  View, in_buffer, owned, Env, Parser, refused, max_uri_length, max_header_count,
}
use visage_dvachevsky_tempre.Http.Parser.Buffer.{read_view, views}
use visage_dvachevsky_tempre.Http.Parser.Tables.{is_token_char}
use visage_dvachevsky_tempre.Http.Parser.Text.{
  slice, find_byte, is_ows, trim_front, trim_ows, contains_invalid_header_value,
  contains_invalid_uri_char,
}

-- The enumerators of `http::field` that the parser names.
abbrev pub field_content_length : Field
field_content_length = 70

abbrev pub field_host : Field
field_host = 144

abbrev pub field_transfer_encoding : Field
field_transfer_encoding = 315

unfoldable pub last_byte : ℕ → Bytes → ℕ
last_byte c [] = c
last_byte c (d ∷ r) = last_byte d r

-- The line is empty, or a blank stands at one of its ends.
unfoldable pub has_bad_edges : Bytes → Bool
has_bad_edges [] = true
has_bad_edges (c ∷ r) = is_ows c || is_ows (last_byte c r)

abbrev is_unknown : Method → Bool
is_unknown Method.unknown = true
is_unknown _ = false

-- From the URI on; `start` is the place of the line in the buffer.
unfoldable pub process_uri : ℕ → Bytes → ℕ → Parser → Parser × Result (Unit {0})
process_uri start line uri_start p = elim (find_byte b' ' (drop uri_start line)) [
  | none ↦ (p, refused)
  | some uri_len ↦
      let uri = slice uri_start uri_len line in
      let q = record p { request_uri = in_buffer p.generation (start + uri_start) uri_len } in
      if ltb max_uri_length (length uri)
      then (p, refused)
      else if contains_invalid_uri_char uri
      then (p, refused)
      else if bytes_eq (drop (uri_start + uri_len + 1) line) (codes "HTTP/1.1")
      then (q, ok tt)
      else (q, refused)
]

unfoldable pub process_request_line : ℕ → Bytes → Parser → Parser × Result (Unit {0})
process_request_line start line p =
    if has_bad_edges line then (p, refused) else elim (find_byte b' ' line) [
      | none ↦ (p, refused)
      | some method_end ↦
          let m = parse_method (take method_end line) in
          let q = record p { request_method = m } in
          if is_unknown m then (q, refused) else process_uri start line (method_end + 1) q
    ]

unfoldable pub all_token_chars : Bytes → Bool
all_token_chars [] = true
all_token_chars (c ∷ r) = is_token_char c && all_token_chars r

abbrev begins_with : ℕ → ℕ → Bytes → Bool
begins_with a b [] = false
begins_with a b (c ∷ r) = c == a || c == b

unfoldable pub is_host : Bytes → Bool
is_host name = length name == 4 && begins_with b'H' b'h' name && ci_equal name (codes "Host")

unfoldable pub is_content_length : Bytes → Bool
is_content_length name =
    length name == 14 && begins_with b'C' b'c' name && ci_equal name (codes "Content-Length")

-- `set_known_borrowed`, `last_header_field_` and `header_count_`.
unfoldable pub store_known : Env → Field → View → Parser → Parser
store_known env f value p = record p {
  request_headers = set_known_borrowed ⦃t = views env p⦄ env.arena f value p.request_headers;
  last_header_field = f;
  header_count = p.header_count + 1;
}

unfoldable pub store_unknown : Env → View → View → Parser → Parser
store_unknown env name value p = record p {
  request_headers = set_unknown_borrowed ⦃t = views env p⦄ env.arena name value p.request_headers;
  last_header_field = 0;
  last_header_name = some name;
  header_count = p.header_count + 1;
}

-- A header whose name and value have passed the checks, with the views of both.
unfoldable pub store_header : Env → Bytes → View → Bytes → View → Parser → Parser
store_header env name name_view value value_view p =
    let q = record p { last_header_field = 0; last_header_name = none } in
    if is_host name
    then store_known env field_host value_view q
    else if is_content_length name
    then (let len : ℕ = elim (from_chars 10 value) [ none ↦ q.content_length | some (v, _) ↦ v ] in
        store_known env field_content_length value_view (record q { content_length = len }))
    else (let f = env.string_to_field name in
        if f == 0 then store_unknown env name_view value_view q else store_known env f value_view q)

-- Where the value stands in the line, behind the colon and the blanks.
abbrev pub value_start : ℕ → Bytes → ℕ
value_start colon line =
    let rest = drop (colon + 1) line in colon + 1 + (length rest - length (trim_front is_ows rest))

-- `start` is the place of the line in the buffer.
unfoldable pub process_header_line : Env → ℕ → Bytes → Parser → Parser × Result (Unit {0})
process_header_line env start line p =
    if leb max_header_count p.header_count then (p, refused) else elim (find_byte b':' line) [
      | none ↦ (p, refused)
      | some colon ↦
          let name = take colon line in
          let value = trim_ows (drop (colon + 1) line) in
          let name_view = in_buffer p.generation start colon in
          let value_view = in_buffer p.generation (start + value_start colon line) (length value) in
          if colon == 0
          then (p, refused)
          else if not (all_token_chars name)
          then (p, refused)
          else if contains_invalid_header_value value
          then (p, refused)
          else (store_header env name name_view value value_view p, ok tt)
    ]

-- `headers_map::get(std::string_view)`
unfoldable pub get_by_name : Env → Parser → Bytes → Option View
get_by_name env p name =
    let f = env.string_to_field name in
    if f == 0
    then get_unknown ⦃t = views env p⦄ name p.request_headers
    else get_known f p.request_headers

-- A line of the header section that begins with a blank: it continues the last header. The copy is
-- made in the arena; without memory the line is passed over.
unfoldable pub fold_line : Env → Bytes → Parser → Parser × Result (Unit {0})
fold_line env line p = elim p.last_header_name [
  | none ↦ (p, refused)
  | some name ↦
      let current =
        if p.last_header_field == 0
        then get_by_name env p (read_view env p name)
        else get_known p.last_header_field p.request_headers in
      elim current [
        | none ↦ (p, refused)
        | some value ↦
            let folded = trim_ows (trim_front is_ows line) in
            let combined = owned (read_view env p value ++ b' ' ∷ folded) in
            let stored =
              if p.last_header_field == 0
              then set_unknown_borrowed ⦃t = views env p⦄ env.arena name combined p.request_headers
              else set_known_borrowed ⦃t = views env p⦄ env.arena p.last_header_field combined
                  p.request_headers in
            if contains_invalid_header_value folded
            then (p, refused)
            else if env.arena
            then (record p { request_headers = stored }, ok tt)
            else (p, ok tt)
      ]
]
