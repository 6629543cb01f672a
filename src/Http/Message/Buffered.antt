-- ===== src/Http/Message/Buffered.antt =====
-- `response::serialize_into(io_buffer&)` of core/src/http.cpp.
use visage_dvachevsky_tempre.Base.{
  ℕ, ◌+◌, ◌^◌, ◌<◌, ◌≡◌, refl, sym, ◌∙◌, ap, true, false, Option, none, some, List, [], ◌∷◌, ◌++◌,
  Bytes, codes, length, ◌==◌, if◌then◌else◌, arith, length-append, Bool-cases, if-true, if-false,
  inl, inr,
}
use mathlib.Core.Path.{subst}
use visage_dvachevsky_tempre.Digits.{to_chars, length-to_chars}
use visage_dvachevsky_tempre.Memory.{write_at}
use visage_dvachevsky_tempre.IoBuffer.{IoBuffer, Heap, append, writable_span, commit}
use visage_dvachevsky_tempre.IoBuffer.Room.{IsValid}
use visage_dvachevsky_tempre.IoBuffer.Laws.{
  Appended, SpanOk, append_lem, writable_span_lem, fill_span,
}
use visage_dvachevsky_tempre.Http.Headers.{iterate, contains_known}
use visage_dvachevsky_tempre.Http.Message.{HeaderEnv, Response, content_length}
use visage_dvachevsky_tempre.Http.Message.Serialize.{
  crlf, header_text, append_headers, status_text, content_length_text, serialize_chunked,
  serialize_into,
}

-- `headers_size`, over the headers and for the Content-Length.
unfoldable pub headers_size : List (Bytes × Bytes) → ℕ
headers_size [] = 0
headers_size ((name, value) ∷ hs) = length name + 2 + length value + 2 + headers_size hs

-- `content_length_value`, empty if the response has the header.
abbrev pub content_length_value : Response → Bytes
content_length_value r =
    if contains_known content_length r.headers then [] else to_chars 10 (length r.body)

abbrev pub content_length_size : Bytes → ℕ
content_length_size value = if length value == 0 then 0 else 14 + 2 + length value + 2

unfoldable pub total_size : HeaderEnv → Response → ℕ
total_size env r =
    9
    + length (to_chars 10 r.status)
    + 1
    + length r.reason
    + 2
    + (headers_size (iterate env.field_to_string r.headers)
        + content_length_size (content_length_value r))
    + 2
    + length r.body

-- The text of the successive `memcpy`s into the span.
unfoldable pub written_text : HeaderEnv → Response → Bytes
written_text env r =
    let value = content_length_value r in
    append_headers (status_text r) (iterate env.field_to_string r.headers)
    ++ (if length value == 0 then [] else header_text (codes "Content-Length") value)
    ++ crlf
    ++ r.body

-- The `memcpy`s behind one another from a position on.
abbrev pub write_span : Bytes → IoBuffer × ℕ → IoBuffer
write_span text (c, at') = record c { data' = write_at at' text c.data' }

abbrev written : Heap → Bytes → ℕ → IoBuffer → Option IoBuffer
written heap text n out = elim (writable_span heap n out) [
  | none ↦ none
  | some s ↦ some (commit n (write_span text s))
]

unfoldable pub serialize_into_buffer : Heap → HeaderEnv → Response → IoBuffer → Option IoBuffer
serialize_into_buffer heap env r out =
    if r.chunked
    then append heap (serialize_chunked env 4096 r) out
    else written heap (written_text env r) (total_size env r) out

length-header_text :
    (name value : Bytes) → length (header_text name value) ≡ length name + 2 + length value + 2
length-header_text name value = omega (
  arith,
  length-append name (codes ": "),
  length-append (name ++ codes ": ") value,
  length-append (name ++ codes ": " ++ value) crlf,
)

length-append_headers :
    (out : Bytes) (hs : List (Bytes × Bytes))
    → length (append_headers out hs) ≡ length out + headers_size hs
unfolding append_headers headers_size
length-append_headers out [] = omega arith
length-append_headers out ((name, value) ∷ hs) =
    length-append_headers (out ++ header_text name value) hs
    ∙ omega (arith, length-append out (header_text name value), length-header_text name value)

length-status_text :
    (r : Response)
    → length (status_text r) ≡ 9 + length (to_chars 10 r.status) + 1 + length r.reason + 2
length-status_text r =
    let version : Bytes = codes "HTTP/1.1 " in
    let code : Bytes = to_chars 10 r.status in
    omega (
      arith,
      length-append version code,
      length-append (version ++ code) (b' ' ∷ []),
      length-append (version ++ code ++ b' ' ∷ []) r.reason,
      length-append (version ++ code ++ b' ' ∷ [] ++ r.reason) crlf,
    )

-- The Content-Length that is counted and the one that is written.
length-length_text :
    (value : Bytes)
    → length (if length value == 0 then [] else header_text (codes "Content-Length") value)
      ≡ content_length_size value
length-length_text [] = refl
length-length_text (c ∷ value) =
    ground (arith, length-header_text (codes "Content-Length") (c ∷ value))

-- The size that is asked for is that of the text that is written.
total_size_lem : (env : HeaderEnv) (r : Response) → total_size env r ≡ length (written_text env r)
unfolding total_size written_text
total_size_lem env r =
    let value : Bytes = content_length_value r in
    let hs : List (Bytes × Bytes) = iterate env.field_to_string r.headers in
    let line : Bytes =
      if length value == 0 then [] else header_text (codes "Content-Length") value in
    let head : Bytes = append_headers (status_text r) hs in
    omega (
      arith,
      length-append_headers (status_text r) hs,
      length-status_text r,
      length-append head line,
      length-append (head ++ line) crlf,
      length-append (head ++ line ++ crlf) r.body,
      length-length_text value,
    )

shown_length :
    (digits : Bytes)
    → 0 < length digits
    → (if length digits == 0 then [] else header_text (codes "Content-Length") digits)
      ≡ header_text (codes "Content-Length") digits
shown_length [] h = absurd (omega arith)
shown_length (c ∷ digits) h = ground arith

written_length :
    (r : Response)
    → length r.body < 2 ^ 64
    → (let value = content_length_value r in
        if length value == 0 then [] else header_text (codes "Content-Length") value)
      ≡ content_length_text r
written_length r h = elim (Bool-cases (contains_known content_length r.headers)) [
  | inl e ↦ rw e
  | inr e ↦ rw e (
      shown_length (to_chars 10 (length r.body))
        (length-to_chars 10 (length r.body) (omega arith) (omega arith) h))
]

written_text_lem :
    (env : HeaderEnv) (r : Response)
    → length r.body < 2 ^ 64
    → r.chunked ≡ false
    → written_text env r ≡ serialize_into env r
unfolding written_text serialize_into
written_text_lem env r h c = rw c (
    ap
      (λ t.
        append_headers (status_text r) (iterate env.field_to_string r.headers)
        ++ t
        ++ crlf
        ++ r.body)
      (written_length r h))

chunked_text :
    (env : HeaderEnv) (r : Response)
    → r.chunked ≡ true
    → serialize_into env r ≡ serialize_chunked env 4096 r
unfolding serialize_into
chunked_text env r e = if-true _ _ e

written_after :
    (heap : Heap) (text : Bytes) (b : IoBuffer) (o : Option (IoBuffer × ℕ))
    → SpanOk heap text b o
    → Appended heap text b
        (elim o [ none ↦ none | some s ↦ some (commit (length text) (write_span text s)) ])
unfolding fill_span
written_after heap text b none s = s
written_after heap text b (some (c, at')) s = s.2

-- Written into a valid buffer, a response, chunked or not, is the same text as written into a string,
-- behind the bytes that were there, for a body below 2^64 bytes and a write position that stays below
-- 2^64 with the text; it throws only if the heap has no memory.
pub serialize_into_buffer-Appended :
    (heap : Heap) (env : HeaderEnv) (r : Response) (out : IoBuffer)
    → IsValid out
    → length r.body < 2 ^ 64
    → out.write_pos + length (serialize_into env r) < 2 ^ 64
    → Appended heap (serialize_into env r) out (serialize_into_buffer heap env r out)
unfolding serialize_into_buffer
serialize_into_buffer-Appended heap env r out v b h = elim (Bool-cases r.chunked) [
  | inl e ↦ subst (Appended heap (serialize_into env r) out) (sym (if-true _ _ e)) (
      subst (λ t. Appended heap t out (append heap (serialize_chunked env 4096 r) out))
        (sym (chunked_text env r e))
        (append_lem heap (serialize_chunked env 4096 r) out v
          (subst (λ t. out.write_pos + length t < 2 ^ 64) (chunked_text env r e) h)))
  | inr e ↦
      let text : written_text env r ≡ serialize_into env r = written_text_lem env r b e in
      let out_of : Bytes → Option IoBuffer = λ t. written heap t (length t) out in
      let filled : Appended heap (written_text env r) out (out_of (written_text env r)) =
        written_after heap (written_text env r) out
          (writable_span heap (length (written_text env r)) out)
          (writable_span_lem heap (written_text env r) out v
            (subst (λ t. out.write_pos + length t < 2 ^ 64) (sym text) h)) in
      let sized : Appended heap (written_text env r) out
          (written heap (written_text env r) (total_size env r) out) =
        subst
          (λ n. Appended heap (written_text env r) out (written heap (written_text env r) n out))
          (sym (total_size_lem env r)) filled in
      subst (Appended heap (serialize_into env r) out) (sym (if-false _ _ e)) (
        subst (λ t. Appended heap t out (written heap (written_text env r) (total_size env r) out))
          text sized)
]
