-- ===== src/Http/Parser/Live/Untouched.antt =====
-- What leaves the views of the parser and its allocation alone.
use visage_dvachevsky_tempre.Base.{
  ℕ, ◌+◌, ◌≡◌, sym, ◌∙◌, Bytes, take, arith, Option-cases, inl, inr,
}
use mathlib.Core.Path.{subst}
use visage_dvachevsky_tempre.Digits.{from_chars}
use visage_dvachevsky_tempre.Http.Method.{parse_method}
use visage_dvachevsky_tempre.Http.Parser.{Env, Parser}
use visage_dvachevsky_tempre.Http.Parser.Text.{find_crlf, find_byte}
use visage_dvachevsky_tempre.Http.Parser.Buffer.{compact_buffer}
use visage_dvachevsky_tempre.Http.Parser.Lines.{process_uri, process_request_line}
use visage_dvachevsky_tempre.Http.Parser.Steps.{
  unparsed, parse_request_line_state, finish_headers, parse_body_state, chunk_digits, enter_chunk,
  parse_chunk_size_state, parse_chunk_data_state, parse_chunk_trailer_state,
}
use visage_dvachevsky_tempre.Http.Parser.Live.{IsLiveName, MapLive, ViewsLive}

-- Two states of the parser with the same views and the same allocation.
pub record Untouched (p q : Parser) : Type 0 where
  pub generation : q.generation ≡ p.generation
  pub headers : q.request_headers ≡ p.request_headers
  pub last : q.last_header_name ≡ p.last_header_name

pub Untouched-ViewsLive : (g : ℕ) (p q : Parser) → Untouched p q → ViewsLive g p → ViewsLive g q
Untouched-ViewsLive g p q u l = record {
  current = u.generation ∙ l.current;
  headers = subst (MapLive g) (sym u.headers) l.headers;
  last = subst (IsLiveName g) (sym u.last) l.last;
}

process_uri-Untouched :
    (start : ℕ) (line : Bytes) (at' : ℕ) (p : Parser) → Untouched p (process_uri start line at' p).0
unfolding process_uri
process_uri-Untouched start line at' p = ground arith

process_request_line-Untouched :
    (start : ℕ) (line : Bytes) (p : Parser) → Untouched p (process_request_line start line p).0
unfolding process_request_line
process_request_line-Untouched start line p = elim (Option-cases (find_byte b' ' line)) [
  | inl e ↦ ground (arith, e)
  | inr (n, e) ↦ ground (
    arith,
    e,
    process_uri-Untouched start line (n + 1)
        (record p { request_method = parse_method (take n line) }),
  )
]

pub request_line-Untouched : (p : Parser) → Untouched p (parse_request_line_state p).0
unfolding parse_request_line_state
request_line-Untouched p = elim (Option-cases (find_crlf (unparsed p))) [
  | inl e ↦ ground (arith, e)
  | inr (n, e) ↦ ground (
    arith,
    e,
    process_request_line-Untouched p.parse_pos (take n (unparsed p))
        (record p { parse_pos = p.parse_pos + n + 2 }),
  )
]

pub finish_headers-Untouched : (env : Env) (p : Parser) → Untouched p (finish_headers env p).0
unfolding finish_headers
finish_headers-Untouched env p = ground arith

pub body-Untouched : (p : Parser) → Untouched p (parse_body_state p).0
unfolding parse_body_state
body-Untouched p = ground arith

enter_chunk-Untouched : (val : ℕ) (p : Parser) → Untouched p (enter_chunk val p).0
unfolding enter_chunk
enter_chunk-Untouched val p = ground arith

pub chunk_size-Untouched : (p : Parser) → Untouched p (parse_chunk_size_state p).0
unfolding parse_chunk_size_state
chunk_size-Untouched p = elim (Option-cases (find_crlf (unparsed p))) [
  | inl e ↦ ground (arith, e)
  | inr (n, e) ↦ elim (Option-cases (from_chars 16 (chunk_digits (take n (unparsed p))))) [
    | inl x ↦ ground (arith, e, x)
    | inr ((val, count), x) ↦
        ground
          (arith, e, x, enter_chunk-Untouched val (record p { parse_pos = p.parse_pos + n + 2 }))
  ]
]

pub chunk_data-Untouched : (env : Env) (p : Parser) → Untouched p (parse_chunk_data_state env p).0
unfolding parse_chunk_data_state
chunk_data-Untouched env p = ground arith

pub chunk_trailer-Untouched : (p : Parser) → Untouched p (parse_chunk_trailer_state p).0
unfolding parse_chunk_trailer_state
chunk_trailer-Untouched p = ground arith

pub compact_buffer-Untouched : (p : Parser) → Untouched p (compact_buffer p)
unfolding compact_buffer
compact_buffer-Untouched p = ground arith
