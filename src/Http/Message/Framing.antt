-- ===== src/Http/Message/Framing.antt =====
-- The framing that `serialize_chunked` and `serialize_into` of core/src/http.cpp give a response.
use mathlib.Core.Path.{subst}
use visage_dvachevsky_tempre.Base.{
  ℕ, zero, suc, ◌+◌, ◌-◌, ◌^◌, ◌≤◌, ◌<◌, min, ◌≡◌, refl, sym, ◌∙◌, ap, false, [], ◌++◌, Bytes,
  codes, some, length, take, drop, ltb, append_assoc, arith, Bool-cases, inl, inr, ltb→lt, lt→ltb,
  le→ltb, drop-drop, take-append-drop, length-take, length-drop, drop_all,
}
use visage_dvachevsky_tempre.Digits.{to_chars, from_chars, from_chars-to_chars}
use visage_dvachevsky_tempre.Http.Headers.{iterate, contains_known}
use visage_dvachevsky_tempre.Http.Message.{HeaderEnv, Response, content_length}
use visage_dvachevsky_tempre.Http.Message.Serialize.{
  crlf, header_text, content_length_text, append_headers, status_text, append_chunks,
  without_length, serialize_chunked, serialize_into, serialize_head_into,
}

-- A body in the chunked transfer coding, in chunks of at most `size` bytes.
pub data IsChunked (size : ℕ) : Bytes → Bytes → Type 0 where
  last : IsChunked size [] (codes "0\r\n\r\n")
  chunk :
      (line data' body text : Bytes)
      → from_chars 16 line ≡ some (length data', length line)
      → 0 < length data'
      → length data' ≤ size
      → IsChunked size body text
      → IsChunked size (data' ++ body) (line ++ crlf ++ data' ++ crlf ++ text)

-- The text of a loop from an offset on.
record Written (size : ℕ) (rest out written : Bytes) : Type 0 where
  text : Bytes
  behind : written ++ codes "0\r\n\r\n" ≡ out ++ text
  coded : IsChunked size rest text

behind_all :
    (out line body' text : Bytes)
    → out ++ line ++ crlf ++ body' ++ crlf ++ text ≡ out ++ (line ++ crlf ++ body' ++ crlf ++ text)
behind_all out line body' text = rw (
  append_assoc out line crlf,
  append_assoc out (line ++ crlf) body',
  append_assoc out (line ++ crlf ++ body') crlf,
  append_assoc out (line ++ crlf ++ body' ++ crlf) text,
)

add_chunk :
    (size current : ℕ) (out body written : Bytes)
    → 0 < current
    → current ≤ size
    → current ≤ length body
    → current < 2 ^ 64
    → Written size
        (drop current body)
        (out ++ to_chars 16 current ++ crlf ++ take current body ++ crlf)
        written
    → Written size body out written
add_chunk size current out body written p s l b r =
    let line : Bytes = to_chars 16 current in
    let size_of : length (take current body) ≡ current = omega (arith, length-take current body) in
    record {
      text = line ++ crlf ++ take current body ++ crlf ++ r.text;
      behind = r.behind ∙ behind_all out line (take current body) r.text;
      coded =
          subst (λ rest. IsChunked size rest (line ++ crlf ++ take current body ++ crlf ++ r.text))
            (take-append-drop current body)
            (chunk line (take current body) (drop current body) r.text
              (from_chars-to_chars 16 current (omega arith) (omega arith) b
                ∙ ap (λ n. some (n, length line)) (sym size_of))
              (omega (arith, size_of)) (omega (arith, size_of)) r.coded);
    }

append_chunks_ends :
    (fuel : ℕ) (out : Bytes) (size : ℕ) (body : Bytes) (offset : ℕ)
    → length body ≤ offset
    → append_chunks fuel out size body offset ≡ out
unfolding append_chunks
append_chunks_ends zero out size body offset h = refl
append_chunks_ends (suc fuel) out size body offset h = rw (le→ltb offset (length body) h)

append_chunks_goes_on :
    (fuel : ℕ) (out : Bytes) (size : ℕ) (body : Bytes) (offset current : ℕ)
    → offset < length body
    → current ≡ min size (length body - offset)
    → append_chunks (suc fuel) out size body offset
      ≡ append_chunks fuel
          (out ++ to_chars 16 current ++ crlf ++ take current (drop offset body) ++ crlf)
          size
          body
          (offset + current)
unfolding append_chunks
append_chunks_goes_on fuel out size body offset current h e = rw (lt→ltb offset (length body) h, e)

append_chunks-Written :
    (fuel : ℕ) (out : Bytes) (size : ℕ) (body : Bytes) (offset : ℕ)
    → 0 < size
    → length body < 2 ^ 64
    → offset ≤ length body
    → length body < offset + fuel
    → Written size (drop offset body) out (append_chunks fuel out size body offset)
append_chunks-Written zero out size body offset p w h f = absurd (omega arith)
append_chunks-Written (suc fuel) out size body offset p w h f =
    let current : ℕ = min size (length body - offset) in
    elim (Bool-cases (ltb offset (length body))) [
      | inl e ↦
          let some_left : offset < length body = ltb→lt offset (length body) e in
          let out' : Bytes =
            out ++ to_chars 16 current ++ crlf ++ take current (drop offset body) ++ crlf in
          let r : Written size (drop (offset + current) body) out'
              (append_chunks fuel out' size body (offset + current)) =
            append_chunks-Written fuel out' size body (offset + current) p w (omega arith)
              (omega arith) in
          let r' : Written size (drop current (drop offset body)) out'
              (append_chunks fuel out' size body (offset + current)) =
            subst (λ b. Written size b out' (append_chunks fuel out' size body (offset + current)))
              (drop-drop offset current body) r in
          rw (append_chunks_goes_on fuel out size body offset current some_left refl) (
            add_chunk size current out (drop offset body)
              (append_chunks fuel out' size body (offset + current)) (omega arith) (omega arith)
              (omega (arith, length-drop offset body)) (omega arith) r')
      | inr e ↦
          let none_left : length body ≤ offset = ground (arith, e) in
          let r : Written size [] out out = record {
            text = codes "0\r\n\r\n";
            behind = refl;
            coded = last;
          } in
          rw
            (
              append_chunks_ends (suc fuel) out size body offset none_left,
              drop_all offset body none_left,
            )
            r
    ]

-- The head of a chunked response: the status line, the headers but Content-Length, and
-- Transfer-Encoding.
abbrev pub chunked_head : HeaderEnv → Response → Bytes
chunked_head env r =
    append_headers (status_text r) (without_length (iterate env.field_to_string r.headers))
    ++ codes "Transfer-Encoding: chunked\r\n\r\n"

-- For a chunk size other than 0 and a body below 2^64 bytes, what `serialize_chunked` writes is the
-- head and behind it the body in the chunked coding: chunks that are not empty and have at most the
-- chunk size, each behind its size in digits that `from_chars` reads back in base 16, then the last
-- chunk; put together they are the body.
pub serialize_chunked-IsChunked :
    (env : HeaderEnv) (size : ℕ) (r : Response)
    → 0 < size
    → length r.body < 2 ^ 64
    → (text : Bytes) × (serialize_chunked env size r ≡ chunked_head env r ++ text)
      × IsChunked size r.body text
unfolding serialize_chunked
serialize_chunked-IsChunked env size r p w =
    let w : Written size r.body (chunked_head env r)
        (append_chunks (length r.body + 1) (chunked_head env r) size r.body 0) =
      append_chunks-Written (length r.body + 1) (chunked_head env r) size r.body 0 p w (omega arith)
        (omega arith) in
    (w.text, w.behind, w.coded)

no_length_text :
    (r : Response)
    → contains_known content_length r.headers ≡ false
    → content_length_text r ≡ header_text (codes "Content-Length") (to_chars 10 (length r.body))
no_length_text r e = ground (arith, e)

-- A response that is not chunked, has no Content-Length of its own and a body below 2^64 bytes is
-- written as its head and then the body. The head is what `serialize_head_into` writes; it ends with
-- a Content-Length header and the blank line, and `from_chars` reads the length of the body back from
-- that header.
pub serialize_into-framed :
    (env : HeaderEnv) (r : Response)
    → r.chunked ≡ false
    → contains_known content_length r.headers ≡ false
    → length r.body < 2 ^ 64
    → (before digits : Bytes) × (serialize_head_into env r
        ≡ before ++ header_text (codes "Content-Length") digits ++ crlf)
      × (serialize_into env r ≡ serialize_head_into env r ++ r.body)
      × (from_chars 10 digits ≡ some (length r.body, length digits))
unfolding serialize_into serialize_head_into
serialize_into-framed env r c n w = (
  append_headers (status_text r) (iterate env.field_to_string r.headers),
  to_chars 10 (length r.body),
  ground (arith, c, no_length_text r n),
  ground (arith, c),
  from_chars-to_chars 10 (length r.body) (omega arith) (omega arith) w,
)
