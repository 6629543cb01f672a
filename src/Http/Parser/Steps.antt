-- ===== src/Http/Parser/Steps.antt =====
-- The states of the parser: `parse_request_line_state` to `parse_chunk_trailer_state` of
-- core/src/http.cpp. Each returns the parser and the next state.
use visage_dvachevsky_tempre.Digits.{from_chars}
use visage_dvachevsky_tempre.Base.{
  ℕ, ◌+◌, ◌-◌, Bool, true, false, not, ◌||◌, Option, none, some, [], ◌∷◌, ◌++◌, Bytes, codes,
  length, take, get_or, leb, ltb, ◌==◌, if◌then◌else◌,
}
use visage_dvachevsky_tempre.Http.Method.{Result, ok, err}
use visage_dvachevsky_tempre.Http.Ci.{ci_equal}
use visage_dvachevsky_tempre.Http.Headers.{get_known}
use visage_dvachevsky_tempre.Http.Parser.{
  State, request_line, headers, body, chunk_size, chunk_data, chunk_trailer, complete, in_buffer,
  owned, Env, Parser, refused, memory, max_body_size,
}
use visage_dvachevsky_tempre.Http.Parser.Buffer.{read_view}
use visage_dvachevsky_tempre.Http.Parser.Text.{
  slice, find_crlf, find_byte, is_ows, trim_back, trim_ows, bytes_valid,
}
use visage_dvachevsky_tempre.Http.Parser.Lines.{
  field_content_length, field_transfer_encoding, process_request_line, process_header_line,
  fold_line,
}

-- The input that has not been parsed: `buffer_ + parse_pos_`, `buffer_size_ - parse_pos_` bytes.
abbrev pub unparsed : Parser → Bytes
unparsed p = slice p.parse_pos (p.buffer_size - p.parse_pos) (memory p)

-- `buffer_[i - 1]`, if there is such a byte.
abbrev pub byte_before : ℕ → Bytes → Option ℕ
byte_before i m = if i == 0 then none else some (get_or m (i - 1) 0)

-- The state after a step that may refuse.
abbrev then_state : Parser × Result (Unit {0}) → State → Parser × Result State
then_state (p, r) s = elim r [ ok _ ↦ (p, ok s) | err e ↦ (p, err e) ]

unfoldable pub parse_request_line_state : Parser → Parser × Result State
parse_request_line_state p = elim (find_crlf (unparsed p)) [
  | none ↦ (p, ok request_line)
  | some len ↦
      let q = record p { parse_pos = p.parse_pos + len + 2 } in
      if bytes_valid (byte_before p.parse_pos (memory p)) (take (len + 1) (unparsed p))
      then then_state (process_request_line p.parse_pos (take len (unparsed p)) q) headers
      else (p, refused)
]

-- The empty line that ends the header section.
unfoldable pub finish_headers : Env → Parser → Parser × Result State
finish_headers env p =
    let chunked : Bool = elim (get_known field_transfer_encoding p.request_headers) [
      | none ↦ false
      | some te ↦ ci_equal (read_view env p te) (codes "chunked")
    ] in
    if chunked
    then (record p { is_chunked = true }, ok chunk_size)
    else elim (get_known field_content_length p.request_headers) [
      | none ↦ (p, ok complete)
      | some cl ↦
          let view = trim_back is_ows (read_view env p cl) in
          elim (from_chars 10 view) [
            | none ↦ (p, refused)
            | some (val, count) ↦
                if not (count == length view) || ltb max_body_size val
                then (p, refused)
                else (record p { content_length = val }, ok body)
          ]
    ]

abbrev begins_blank : Bytes → Bool
begins_blank [] = false
begins_blank (c ∷ r) = is_ows c

unfoldable pub header_line : Env → ℕ → Bytes → Parser → Parser × Result State
header_line env start [] p = finish_headers env p
header_line env start (c ∷ r) p =
    if is_ows c
    then then_state (fold_line env (c ∷ r) p) headers
    else then_state (process_header_line env start (c ∷ r) p) headers

unfoldable pub parse_headers_state : Env → Parser → Parser × Result State
parse_headers_state env p = elim (find_crlf (unparsed p)) [
  | none ↦ (p, ok headers)
  | some len ↦
      let q = record p { parse_pos = p.parse_pos + len + 2 } in
      if bytes_valid (byte_before p.parse_pos (memory p)) (take (len + 1) (unparsed p))
      then header_line env p.parse_pos (take len (unparsed p)) q
      else (p, refused)
]

unfoldable pub parse_body_state : Parser → Parser × Result State
parse_body_state p =
    if leb p.content_length (p.buffer_size - p.parse_pos)
    then (
      record p {
        request_body = in_buffer p.generation p.parse_pos p.content_length;
        parse_pos = p.parse_pos + p.content_length;
      },
      ok complete,
    )
    else (p, ok body)

-- The text of a chunk-size line before a chunk extension.
unfoldable pub chunk_digits : Bytes → Bytes
chunk_digits line = trim_ows (elim (find_byte b';' line) [ none ↦ line | some n ↦ take n line ])

abbrev pub chunked_body_size : Parser → ℕ
chunked_body_size p = elim p.chunked_body [ none ↦ 0 | some b ↦ length b ]

-- A chunk size that has been read.
unfoldable pub enter_chunk : ℕ → Parser → Parser × Result State
enter_chunk val p =
    let q = record p { current_chunk_size = val } in
    if ltb max_body_size val
    then (p, refused)
    else if val == 0
    then (q, ok chunk_trailer)
    else if ltb (max_body_size - val) (chunked_body_size p)
    then (q, refused)
    else (q, ok chunk_data)

unfoldable pub parse_chunk_size_state : Parser → Parser × Result State
parse_chunk_size_state p = elim (find_crlf (unparsed p)) [
  | none ↦ (p, ok chunk_size)
  | some len ↦
      let q = record p { parse_pos = p.parse_pos + len + 2 } in
      let digits = chunk_digits (take len (unparsed p)) in
      elim (from_chars 16 digits) [
        | none ↦ (q, refused)
        | some (val, count) ↦ if count == length digits then enter_chunk val q else (q, refused)
      ]
]

-- `chunked_body_` after it has been asked for, null if the arena has no memory.
abbrev body_storage : Env → Parser → Option Bytes
body_storage env p = elim p.chunked_body [
  | some b ↦ some b
  | none ↦ if env.arena then some [] else none
]

unfoldable pub parse_chunk_data_state : Env → Parser → Parser × Result State
parse_chunk_data_state env p =
    let n = p.current_chunk_size in
    let here = unparsed p in
    if leb (n + 2) (p.buffer_size - p.parse_pos)
    then (if not (get_or here n 0 == b'\r') || not (get_or here (n + 1) 0 == b'\n')
        then (p, refused)
        else elim (body_storage env p) [
          | none ↦ (p, refused)
          | some b ↦ (
            record p { chunked_body = some (b ++ take n here); parse_pos = p.parse_pos + n + 2 },
            ok chunk_size,
          )
        ])
    else (p, ok chunk_data)

unfoldable pub parse_chunk_trailer_state : Parser → Parser × Result State
parse_chunk_trailer_state p = elim (find_crlf (unparsed p)) [
  | none ↦ (p, ok chunk_trailer)
  | some len ↦ (
    record p {
      parse_pos = p.parse_pos + len + 2;
      request_body = owned (elim p.chunked_body [ none ↦ [] | some b ↦ b ]);
    },
    ok complete,
  )
]

-- The `switch` of `parse_available`.
unfoldable pub parse_state : Env → State → Parser → Parser × Result State
parse_state env request_line p = parse_request_line_state p
parse_state env headers p = parse_headers_state env p
parse_state env body p = parse_body_state p
parse_state env chunk_size p = parse_chunk_size_state p
parse_state env chunk_data p = parse_chunk_data_state env p
parse_state env chunk_trailer p = parse_chunk_trailer_state p
parse_state env complete p = (p, ok complete)
