-- ===== src/Http/Message/Serialize.antt =====
-- `response::serialize_into`, `serialize_head_into` and `serialize_chunked` of core/src/http.cpp, as
-- the text that they leave in the output.
use visage_dvachevsky_tempre.Base.{
  ℕ, zero, suc, ◌+◌, ◌-◌, min, List, [], ◌∷◌, ◌++◌, Bytes, codes, bytes_eq, length, take, drop, ltb,
  if◌then◌else◌,
}
use visage_dvachevsky_tempre.Digits.{to_chars}
use visage_dvachevsky_tempre.Http.Headers.{iterate, contains_known}
use visage_dvachevsky_tempre.Http.Message.{HeaderEnv, Response, content_length}

abbrev pub crlf : Bytes
crlf = b'\r' ∷ b'\n' ∷ []

abbrev pub header_text : Bytes → Bytes → Bytes
header_text name value = name ++ codes ": " ++ value ++ crlf

-- `out.append` of each header.
unfoldable pub append_headers : Bytes → List (Bytes × Bytes) → Bytes
append_headers out [] = out
append_headers out ((name, value) ∷ hs) = append_headers (out ++ header_text name value) hs

abbrev pub status_text : Response → Bytes
status_text r = codes "HTTP/1.1 " ++ to_chars 10 r.status ++ b' ' ∷ [] ++ r.reason ++ crlf

-- The Content-Length, for a response that has none.
abbrev pub content_length_text : Response → Bytes
content_length_text r =
    if contains_known content_length r.headers
    then []
    else header_text (codes "Content-Length") (to_chars 10 (length r.body))

-- The loop of `serialize_chunked` from an offset on; the first number is the fuel.
unfoldable pub append_chunks : ℕ → Bytes → ℕ → Bytes → ℕ → Bytes
append_chunks zero out size body offset = out
append_chunks (suc fuel) out size body offset =
    let current = min size (length body - offset) in
    let rest =
      append_chunks fuel
        (out ++ to_chars 16 current ++ crlf ++ take current (drop offset body) ++ crlf) size body
        (offset + current) in
    if ltb offset (length body) then rest else out

unfoldable pub without_length : List (Bytes × Bytes) → List (Bytes × Bytes)
without_length [] = []
without_length ((name, value) ∷ hs) =
    let rest = without_length hs in
    if bytes_eq name (codes "Content-Length") then rest else (name, value) ∷ rest

-- One round of the loop for each byte of the body is enough.
unfoldable pub serialize_chunked : HeaderEnv → ℕ → Response → Bytes
serialize_chunked env size r =
    let hs = iterate env.field_to_string r.headers in
    let head =
      append_headers (status_text r) (without_length hs)
      ++ codes "Transfer-Encoding: chunked\r\n\r\n" in
    append_chunks (length r.body + 1) head size r.body 0 ++ codes "0\r\n\r\n"

unfoldable pub serialize_into : HeaderEnv → Response → Bytes
serialize_into env r =
    if r.chunked
    then serialize_chunked env 4096 r
    else append_headers (status_text r) (iterate env.field_to_string r.headers)
      ++ content_length_text r
      ++ crlf
      ++ r.body

unfoldable pub serialize_head_into : HeaderEnv → Response → Bytes
serialize_head_into env r =
    if r.chunked
    then serialize_chunked env 4096 r
    else append_headers (status_text r) (iterate env.field_to_string r.headers)
      ++ content_length_text r
      ++ crlf

unfoldable pub serialize : HeaderEnv → Response → Bytes
serialize env r = if r.chunked then serialize_chunked env 4096 r else serialize_into env r
