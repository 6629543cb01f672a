-- ===== src/Http/Parser/Invariant/Frames.antt =====
-- What the handling of a line leaves alone.
use visage_dvachevsky_tempre.Base.{
  ℕ, ◌+◌, ◌-◌, ◌≤◌, ◌<◌, ◌≡◌, some, [], ◌∷◌, Bytes, length, take, drop, arith, length-take,
  Option-cases, Bool-cases, inl, inr, ◌==◌, ◌&&◌,
}
use visage_dvachevsky_tempre.Http.Method.{parse_method}
use visage_dvachevsky_tempre.Http.Parser.{View, in_buffer, Env, Parser, memory, max_header_count}
use visage_dvachevsky_tempre.Http.Parser.Text.{find_crlf, find_byte, trim_ows}
use visage_dvachevsky_tempre.Http.Parser.Lines.{
  process_uri, process_request_line, process_header_line, fold_line, store_header, store_known,
  store_unknown, value_start,
}
use visage_dvachevsky_tempre.Http.Parser.Steps.{unparsed}

-- A CR LF that is found lies inside the text.
pub find_crlf_bound : (l : Bytes) (n : ℕ) → find_crlf l ≡ some n → n + 2 ≤ length l
unfolding find_crlf
find_crlf_bound [] n h = cc
find_crlf_bound (a ∷ []) n h = cc
find_crlf_bound (a ∷ b ∷ r) n h = elim (Bool-cases (a == b'\r' && b == b'\n')) [
  | inl y ↦ ground arith
  | inr no' ↦ elim (Option-cases (find_crlf (b ∷ r))) [
    | inl m ↦ ground arith
    | inr (m, e) ↦ ground (arith, find_crlf_bound (b ∷ r) m e)
  ]
]

pub length-unparsed : (p : Parser) → length (unparsed p) ≤ p.buffer_size - p.parse_pos
length-unparsed p =
    omega (arith, length-take (p.buffer_size - p.parse_pos) (drop p.parse_pos (memory p)))

-- Two states of the parser that differ in the request, the last header and the count of headers.
pub record Frame (p q : Parser) : Type 0 where
  pub state : q.state ≡ p.state
  pub buffer : q.buffer ≡ p.buffer
  pub generation : q.generation ≡ p.generation
  pub buffer_size : q.buffer_size ≡ p.buffer_size
  pub buffer_capacity : q.buffer_capacity ≡ p.buffer_capacity
  pub chunked_body : q.chunked_body ≡ p.chunked_body
  pub parse_pos : q.parse_pos ≡ p.parse_pos
  pub current_chunk_size : q.current_chunk_size ≡ p.current_chunk_size
  pub few_headers : p.header_count ≤ max_header_count → q.header_count ≤ max_header_count

process_uri-Frame :
    (start : ℕ) (line : Bytes) (at' : ℕ) (p : Parser) → Frame p (process_uri start line at' p).0
unfolding process_uri
process_uri-Frame start line at' p = ground arith

pub process_request_line-Frame :
    (start : ℕ) (line : Bytes) (p : Parser) → Frame p (process_request_line start line p).0
unfolding process_request_line
process_request_line-Frame start line p = elim (Option-cases (find_byte b' ' line)) [
  | inl e ↦ ground (arith, e)
  | inr (n, e) ↦ ground (
    arith,
    e,
    process_uri-Frame start line (n + 1) (record p { request_method = parse_method (take n line) }),
  )
]

store_header-Frame :
    (env : Env) (name : Bytes) (name_view : View) (value : Bytes) (value_view : View) (p : Parser)
    → p.header_count < max_header_count
    → Frame p (store_header env name name_view value value_view p)
unfolding store_header store_known store_unknown
store_header-Frame env name name_view value value_view p h = ground arith

pub process_header_line-Frame :
    (env : Env) (start : ℕ) (line : Bytes) (p : Parser)
    → Frame p (process_header_line env start line p).0
unfolding process_header_line
process_header_line-Frame env start line p = elim (Option-cases (find_byte b':' line)) [
  | inl e ↦ ground (arith, e)
  | inr (n, e) ↦ ground (
    arith,
    e,
    store_header-Frame env (take n line) (in_buffer p.generation start n)
        (trim_ows (drop (n + 1) line))
        (in_buffer p.generation (start + value_start n line)
          (length (trim_ows (drop (n + 1) line))))
        p,
  )
]

pub fold_line-Frame : (env : Env) (line : Bytes) (p : Parser) → Frame p (fold_line env line p).0
unfolding fold_line
fold_line-Frame env line p = ground arith
