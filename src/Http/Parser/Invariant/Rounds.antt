-- ===== src/Http/Parser/Invariant/Rounds.antt =====
-- Every state of the parser keeps the invariant, and never moves back.
use visage_dvachevsky_tempre.Base.{
  ℕ, ◌+◌, ◌≤◌, ◌≡◌, [], ◌∷◌, Bytes, take, arith, length-take, length-append, Option-cases, inl, inr,
}
use visage_dvachevsky_tempre.Http.Method.{Result, ok, err}
use visage_dvachevsky_tempre.Http.Parser.{
  State, request_line, headers, body, chunk_size, chunk_data, chunk_trailer, complete, Env, Parser,
}
use visage_dvachevsky_tempre.Http.Parser.Text.{find_crlf}
use visage_dvachevsky_tempre.Digits.{from_chars}
use visage_dvachevsky_tempre.Http.Parser.Steps.{
  unparsed, parse_request_line_state, finish_headers, header_line, parse_headers_state,
  parse_body_state, chunk_digits, enter_chunk, parse_chunk_size_state, parse_chunk_data_state,
  parse_chunk_trailer_state, parse_state,
}
use visage_dvachevsky_tempre.Http.Parser.Invariant.{IsValid}
use visage_dvachevsky_tempre.Http.Parser.Invariant.Frames.{
  find_crlf_bound, length-unparsed, process_request_line-Frame, process_header_line-Frame,
  fold_line-Frame,
}

-- After a step from `p`: a refusal leaves a valid parser, and a state that is returned may be
-- entered; the input is as long as before, and no parsed byte is parsed again.
abbrev pub After : Parser → Parser × Result State → Type 0
After p (q, ok s) =
    IsValid (record q { state = s }) × (p.parse_pos ≤ q.parse_pos) × (q.buffer_size ≡ p.buffer_size)
After p (q, err e) = IsValid q

request_line-After :
    (p : Parser) → p.state ≡ request_line → IsValid p → After p (parse_request_line_state p)
unfolding parse_request_line_state
request_line-After p h v = elim (Option-cases (find_crlf (unparsed p))) [
  | inl e ↦ ground (arith, e)
  | inr (n, e) ↦ ground (
    arith,
    e,
    length-unparsed p,
    find_crlf_bound (unparsed p) n e,
    process_request_line-Frame p.parse_pos (take n (unparsed p))
        (record p { parse_pos = p.parse_pos + n + 2 }),
  )
]

finish_headers-After :
    (env : Env) (p : Parser) → p.state ≡ headers → IsValid p → After p (finish_headers env p)
unfolding finish_headers
finish_headers-After env p h v = ground arith

header_line-After :
    (env : Env) (start : ℕ) (line : Bytes) (p : Parser)
    → p.state ≡ headers
    → IsValid p
    → After p (header_line env start line p)
unfolding header_line
header_line-After env start [] p h v = finish_headers-After env p h v
header_line-After env start (c ∷ r) p h v =
    ground (arith, fold_line-Frame env (c ∷ r) p, process_header_line-Frame env start (c ∷ r) p)

headers-After :
    (env : Env) (p : Parser) → p.state ≡ headers → IsValid p → After p (parse_headers_state env p)
unfolding parse_headers_state
headers-After env p h v = elim (Option-cases (find_crlf (unparsed p))) [
  | inl e ↦ ground (arith, e)
  | inr (n, e) ↦ ground (
    arith,
    e,
    length-unparsed p,
    find_crlf_bound (unparsed p) n e,
    header_line-After env p.parse_pos (take n (unparsed p))
        (record p { parse_pos = p.parse_pos + n + 2 }),
  )
]

body-After : (p : Parser) → p.state ≡ body → IsValid p → After p (parse_body_state p)
unfolding parse_body_state
body-After p h v = ground arith

enter_chunk-After :
    (val : ℕ) (p : Parser) → p.state ≡ chunk_size → IsValid p → After p (enter_chunk val p)
unfolding enter_chunk
enter_chunk-After val p h v = ground arith

chunk_size-After :
    (p : Parser) → p.state ≡ chunk_size → IsValid p → After p (parse_chunk_size_state p)
unfolding parse_chunk_size_state
chunk_size-After p h v = elim (Option-cases (find_crlf (unparsed p))) [
  | inl e ↦ ground (arith, e)
  | inr (n, e) ↦
      let q : Parser = record p { parse_pos = p.parse_pos + n + 2 } in
      elim (Option-cases (from_chars 16 (chunk_digits (take n (unparsed p))))) [
        | inl f ↦ ground (arith, e, f, length-unparsed p, find_crlf_bound (unparsed p) n e)
        | inr ((val, count), f) ↦ ground (
          arith,
          e,
          f,
          length-unparsed p,
          find_crlf_bound (unparsed p) n e,
          enter_chunk-After val q,
        )
      ]
]

chunk_data-After :
    (env : Env) (p : Parser)
    → p.state ≡ chunk_data
    → IsValid p
    → After p (parse_chunk_data_state env p)
unfolding parse_chunk_data_state
chunk_data-After env p h v = elim (Option-cases p.chunked_body) [
  | inl e ↦ ground (arith, e, length-take p.current_chunk_size (unparsed p))
  | inr (b, e) ↦ ground (
    arith,
    e,
    length-take p.current_chunk_size (unparsed p),
    length-append b (take p.current_chunk_size (unparsed p)),
  )
]

chunk_trailer-After : (p : Parser) → IsValid p → After p (parse_chunk_trailer_state p)
unfolding parse_chunk_trailer_state
chunk_trailer-After p v = elim (Option-cases (find_crlf (unparsed p))) [
  | inl e ↦ ground (arith, e)
  | inr (n, e) ↦ ground (arith, e, length-unparsed p, find_crlf_bound (unparsed p) n e)
]

-- The handler of the state that a valid parser is in leaves a valid parser, whether it refuses the
-- input or not; if it does not, the parser is valid in the state that it returns, the position has
-- not gone back and the input is as long as before.
pub parse_state-After :
    (env : Env) (s : State) (p : Parser) → p.state ≡ s → IsValid p → After p (parse_state env s p)
unfolding parse_state
parse_state-After env request_line p h v = request_line-After p h v
parse_state-After env headers p h v = headers-After env p h v
parse_state-After env body p h v = body-After p h v
parse_state-After env chunk_size p h v = chunk_size-After p h v
parse_state-After env chunk_data p h v = chunk_data-After env p h v
parse_state-After env chunk_trailer p h v = chunk_trailer-After p v
parse_state-After env complete p h v = ground arith
