-- ===== src/Http/Parser/Run.antt =====
-- `parser::parse_available`, `parser::commit_input` and `parser::parse` of core/src/http.cpp.
use visage_dvachevsky_tempre.Memory.{write_at}
use visage_dvachevsky_tempre.Base.{
  ℕ, zero, suc, ◌+◌, ◌-◌, ◌*◌, Bool, true, false, not, ◌&&◌, ◌||◌, none, some, [], ◌∷◌, Bytes,
  length, ltb, ◌==◌, if◌then◌else◌,
}
use visage_dvachevsky_tempre.Http.Method.{Result, ok, err}
use visage_dvachevsky_tempre.Http.Parser.{
  State, request_line, headers, body, chunk_data, complete, Env, Parser, refused, memory,
  max_header_size, max_body_size, compact_threshold,
}
use visage_dvachevsky_tempre.Http.Parser.Text.{slice, find_header_terminator, bytes_valid}
use visage_dvachevsky_tempre.Http.Parser.Steps.{byte_before, parse_state}
use visage_dvachevsky_tempre.Http.Parser.Buffer.{
  has_buffer, is_complete, compact_buffer, writable_input_span,
}

abbrev in_header_section : State → Bool
in_header_section request_line = true
in_header_section headers = true
in_header_section _ = false

abbrev in_body_data : State → Bool
in_body_data body = true
in_body_data chunk_data = true
in_body_data _ = false

-- The search for the end of the header section.
unfoldable pub scan_terminator : Parser → Parser
scan_terminator p =
    if p.header_end_pos == 0
    then (let start = if ltb 3 p.crlf_scan_pos then p.crlf_scan_pos - 3 else 0 in
        record p {
          header_end_pos = find_header_terminator (memory p) start p.buffer_size;
          crlf_scan_pos = p.buffer_size;
        })
    else p

-- The bytes that have come in since the last call, from the last one looked at.
unfoldable pub validate_input : Parser → Parser × Bool
validate_input p =
    let limit = if p.header_end_pos == 0 then p.buffer_size else p.header_end_pos in
    let start = p.validated_bytes - 1 in
    if bytes_valid (byte_before start (memory p)) (slice start (limit - start) (memory p))
    then (record p { validated_bytes = limit }, true)
    else (p, false)

abbrev exceeds_limits : Parser → Bool
exceeds_limits p =
    if in_body_data p.state
    then ltb (max_header_size + max_body_size) p.buffer_size
    else p.header_end_pos == 0 && ltb max_header_size p.buffer_size
      || not (p.header_end_pos == 0) && ltb max_header_size p.header_end_pos

-- The compaction when a round made no progress.
unfoldable pub compact_stalled : Parser → Parser
compact_stalled p =
    if ltb compact_threshold p.parse_pos || ltb (max_header_size * 2) p.buffer_size
    then compact_buffer p
    else p

-- What a call returns, or `stuck` when the fuel of its loop has run out.
pub data Outcome : Type 0 where
  returned : Result State → Outcome
  stuck : Outcome

-- What a round of the loop leaves: it goes on, or the call returns.
pub data Round : Type 0 where
  go_on : Parser → Round
  stop : Parser → Result State → Round

-- `old_parse_pos` is the position before the state was run.
unfoldable pub next_round : ℕ → Parser × Result State → Round
next_round old_parse_pos (q, err e) = stop q (err e)
next_round old_parse_pos (q, ok s) =
    let next = record q { state = s } in
    if q.parse_pos == old_parse_pos && not (is_complete s)
    then stop (compact_stalled next) (ok s)
    else go_on next

unfoldable pub parse_round : Env → Parser → Round
parse_round env p = next_round p.parse_pos (parse_state env p.state p)

unfoldable pub parse_loop : ℕ → Env → Parser → Parser × Outcome
parse_loop zero env p = (p, stuck)
parse_loop (suc fuel) env p = elim (is_complete p.state) [
  | true ↦ (p, returned (ok complete))
  | false ↦ elim (parse_round env p) [
    | stop q r ↦ (q, returned r)
    | go_on q ↦ parse_loop fuel env q
  ]
]

-- Every round but the last takes a byte or completes the request.
abbrev loop_fuel : Parser → ℕ
loop_fuel p = p.buffer_size + 2

unfoldable pub run_states : Env → Parser → Parser × Outcome
run_states env p =
    if exceeds_limits p then (p, returned refused) else parse_loop (loop_fuel p) env p

unfoldable pub parse_available : Env → Parser → Parser × Outcome
parse_available env p =
    if not (has_buffer p)
    then (p, returned refused)
    else if in_header_section p.state
    then (let (q, valid) = validate_input (scan_terminator p) in
        if valid then run_states env q else (q, returned refused))
    else run_states env p

unfoldable pub commit_input : Env → ℕ → Parser → Parser × Outcome
commit_input env bytes p =
    if not (has_buffer p)
    then (p, returned refused)
    else if ltb p.buffer_capacity p.buffer_size
    then (p, returned refused)
    else if ltb (p.buffer_capacity - p.buffer_size) bytes
    then (p, returned refused)
    else parse_available env (record p { buffer_size = p.buffer_size + bytes })

-- The `memcpy` of `parse` into the span that it was given.
unfoldable pub fill_input : Bytes → Parser → Parser
fill_input data' p = record p {
  buffer = elim p.buffer [ none ↦ none | some m ↦ some (write_at p.buffer_size data' m) ];
}

-- `parse` once it has been given a span, or refused one.
unfoldable pub commit_span : Env → Bytes → Parser × Result ℕ → Parser × Outcome
commit_span env data' (p, err e) = (p, returned (err e))
commit_span env data' (p, ok _) = commit_input env (length data') (fill_input data' p)

unfoldable pub parse : Env → Bytes → Parser → Parser × Outcome
parse env [] p = parse_available env p
parse env (b ∷ r) p = commit_span env (b ∷ r) (writable_input_span env (length (b ∷ r)) p)
