-- ===== src/Http/Parser/Live/Calls.antt =====
-- The calls of the parser read no freed memory while its views are live and its buffer is not replaced.
use visage_dvachevsky_tempre.Base.{
  ℕ, zero, suc, ◌+◌, ◌≡◌, refl, sym, [], ◌∷◌, Bytes, length, take, arith, Bool-cases, Option-cases,
  inl, inr,
}
use mathlib.Core.Path.{subst}
use visage_dvachevsky_tempre.Http.Method.{Result, ok, err}
use visage_dvachevsky_tempre.Http.Parser.{
  State, request_line, headers, body, chunk_size, chunk_data, chunk_trailer, complete, Env, Parser,
  no_headers, initial_buffer_capacity,
}
use visage_dvachevsky_tempre.Http.Parser.Text.{find_crlf}
use visage_dvachevsky_tempre.Http.Parser.Buffer.{
  is_complete, compact_buffer, writable_input_span, reserve_buffer, ensure_buffer_capacity,
  make_room, claim_room, new_parser, no_members,
}
use visage_dvachevsky_tempre.Http.Parser.Steps.{
  unparsed, header_line, parse_headers_state, parse_state, parse_chunk_data_state,
}
use visage_dvachevsky_tempre.Http.Parser.Run.{
  Outcome, returned, Round, go_on, stop, scan_terminator, validate_input, compact_stalled,
  next_round, parse_round, parse_loop, run_states, parse_available, commit_input, fill_input,
  commit_span, parse,
}
use visage_dvachevsky_tempre.Http.Headers.{reset_storage}
use visage_dvachevsky_tempre.Http.Parser.Invariant.{IsValid}
use visage_dvachevsky_tempre.Http.Parser.Invariant.Calls.{LoopOk}
use visage_dvachevsky_tempre.Http.Parser.Invariant.Input.{parse-LoopOk}
use visage_dvachevsky_tempre.Http.Parser.Live.{IsLiveName, MapLive, ViewsLive, with_freed}
use visage_dvachevsky_tempre.Http.Parser.Live.Lines.{
  finish_headers_same, fold_line_same, process_header_line_same,
}
use visage_dvachevsky_tempre.Http.Parser.Live.Untouched.{
  Untouched-ViewsLive, compact_buffer-Untouched,
}
use visage_dvachevsky_tempre.Http.Parser.Live.Kept.{parse_state-ViewsLive}
use visage_dvachevsky_tempre.Http.Parser.Live.Room.{
  reserve_buffer-SameTexts, writable_input_span-SameTexts,
}

module _ (f : ℕ → ℕ → ℕ → Bytes) (g : ℕ) (env : Env) where
  header_line_same :
      (start : ℕ) (line : Bytes) (p : Parser)
      → ViewsLive g p
      → header_line (with_freed f env) start line p ≡ header_line env start line p
  unfolding header_line
  header_line_same start [] p l = finish_headers_same f g env p l
  header_line_same start (c ∷ r) p l = ground (
    arith,
    fold_line_same f g env (c ∷ r) p l,
    process_header_line_same f g env start (c ∷ r) p l,
  )

  headers_same :
      (p : Parser)
      → ViewsLive g p
      → parse_headers_state (with_freed f env) p ≡ parse_headers_state env p
  unfolding parse_headers_state
  headers_same p l = elim (Option-cases (find_crlf (unparsed p))) [
    | inl e ↦ ground (arith, e)
    | inr (n, e) ↦ ground (
      arith,
      e,
      header_line_same p.parse_pos (take n (unparsed p))
          (record p { parse_pos = p.parse_pos + n + 2 })
          (record { current = l.current; headers = l.headers; last = l.last }),
    )
  ]

  parse_state_same :
      (s : State) (p : Parser)
      → ViewsLive g p
      → parse_state (with_freed f env) s p ≡ parse_state env s p
  unfolding parse_state parse_chunk_data_state
  parse_state_same request_line p l = refl
  parse_state_same headers p l = headers_same p l
  parse_state_same body p l = refl
  parse_state_same chunk_size p l = refl
  parse_state_same chunk_data p l = refl
  parse_state_same chunk_trailer p l = refl
  parse_state_same complete p l = refl

  compact_stalled-ViewsLive : (p : Parser) → ViewsLive g p → ViewsLive g (compact_stalled p)
  unfolding compact_stalled
  compact_stalled-ViewsLive p l =
      ground (arith, Untouched-ViewsLive g p (compact_buffer p) (compact_buffer-Untouched p) l)

  abbrev RoundLive : Round → Type 0
  RoundLive (go_on q) = ViewsLive g q
  RoundLive (stop q r) = ViewsLive g q

  next_round-RoundLive :
      (n : ℕ) (o : Parser × Result State) → ViewsLive g o.0 → RoundLive (next_round n o)
  unfolding next_round
  next_round-RoundLive n (q, err e) l = l
  next_round-RoundLive n (q, ok s) l =
      let next : ViewsLive g (record q { state = s }) = record {
        current = l.current;
        headers = l.headers;
        last = l.last;
      } in
      ground (arith, next, compact_stalled-ViewsLive (record q { state = s }) next)

  -- The same result whatever freed memory holds, and live views.
  abbrev Same : (Env → Parser × Outcome) → Type 0
  Same call = (call (with_freed f env) ≡ call env) × ViewsLive g (call env).0

  abbrev after : ℕ → Round → Env → Parser × Outcome
  after fuel r e = elim r [ stop q o ↦ (q, returned o) | go_on q ↦ parse_loop fuel e q ]

  after-Same :
      (fuel : ℕ)
      → ((q : Parser) → ViewsLive g q → Same (λ e. parse_loop fuel e q))
      → (r : Round) → RoundLive r
      → Same (after fuel r)
  after-Same fuel ih (stop q o) l = (refl, l)
  after-Same fuel ih (go_on q) l = ih q l

  parse_loop-Same : (fuel : ℕ) (p : Parser) → ViewsLive g p → Same (λ e. parse_loop fuel e p)
  unfolding parse_loop parse_round
  parse_loop-Same zero p l = (refl, l)
  parse_loop-Same (suc fuel) p l = elim (Bool-cases (is_complete p.state)) [
    | inl done ↦ rw (done, parse_loop) (refl, l)
    | inr open' ↦
        let same = parse_state_same p.state p l in
        let live = parse_state-ViewsLive g env p.state p l in
        let round = next_round-RoundLive p.parse_pos (parse_state env p.state p) live in
        let rest : Same (after fuel (next_round p.parse_pos (parse_state env p.state p))) =
          after-Same fuel (λ q lq. parse_loop-Same fuel q lq) _ round in
        rw (open', parse_loop, same) rest
  ]

  run_states-Same : (p : Parser) → ViewsLive g p → Same (λ e. run_states e p)
  unfolding run_states
  run_states-Same p l =
      let loop = parse_loop-Same (p.buffer_size + 2) p l in
      (ground (arith, loop.0), ground (arith, loop.1, l))

  checked-ViewsLive :
      (p : Parser) → ViewsLive g p → ViewsLive g (validate_input (scan_terminator p)).0
  unfolding validate_input scan_terminator
  checked-ViewsLive p l =
      Untouched-ViewsLive g p (validate_input (scan_terminator p)).0 (ground arith) l

  parse_available-Same : (p : Parser) → ViewsLive g p → Same (λ e. parse_available e p)
  unfolding parse_available
  parse_available-Same p l =
      let q : Parser = (validate_input (scan_terminator p)).0 in
      let checked : ViewsLive g q = checked-ViewsLive p l in
      let now = run_states-Same p l in
      let later = run_states-Same q checked in
      (ground (arith, now.0, later.0), ground (arith, now.1, later.1, checked, l))

  commit_input-Same : (n : ℕ) (p : Parser) → ViewsLive g p → Same (λ e. commit_input e n p)
  unfolding commit_input
  commit_input-Same n p l =
      let call =
        parse_available-Same (record p { buffer_size = p.buffer_size + n })
          (record { current = l.current; headers = l.headers; last = l.last }) in
      (ground (arith, call.0), ground (arith, call.1, l))

  fill_input-ViewsLive : (d : Bytes) (p : Parser) → ViewsLive g p → ViewsLive g (fill_input d p)
  unfolding fill_input
  fill_input-ViewsLive d p l = record { current = l.current; headers = l.headers; last = l.last }

  commit_span-Same :
      (d : Bytes) (o : Parser × Result ℕ) → ViewsLive g o.0 → Same (λ e. commit_span e d o)
  unfolding commit_span
  commit_span-Same d (p, err e) l = (refl, l)
  commit_span-Same d (p, ok n) l =
      commit_input-Same (length d) (fill_input d p) (fill_input-ViewsLive d p l)

writable-ViewsLive :
    (env : Env) (n : ℕ) (p : Parser)
    → ViewsLive p.generation p
    → (writable_input_span env n p).0.generation ≡ p.generation
    → ViewsLive p.generation (writable_input_span env n p).0
writable-ViewsLive env n p l same =
    let texts = writable_input_span-SameTexts env n p in
    Untouched-ViewsLive p.generation p (writable_input_span env n p).0
      (record { generation = same; headers = texts.headers; last = texts.last }) l

parse-Same :
    (f : ℕ → ℕ → ℕ → Bytes) (env : Env) (d : Bytes) (p : Parser)
    → ViewsLive p.generation p
    → (writable_input_span env (length d) p).0.generation ≡ p.generation
    → (parse (with_freed f env) d p ≡ parse env d p) × ViewsLive p.generation (parse env d p).0
unfolding parse writable_input_span make_room ensure_buffer_capacity reserve_buffer claim_room
parse-Same f env [] p l same = parse_available-Same f p.generation env p l
parse-Same f env (b ∷ r) p l same =
    commit_span-Same f p.generation env (b ∷ r) (writable_input_span env (length (b ∷ r)) p)
      (writable-ViewsLive env (length (b ∷ r)) p l same)

-- A call of `parse` on a valid parser that does not replace the buffer, when all views in the header
-- map and that of the last header's name are into that buffer or onto text that stays, returns, with a
-- state or a refusal, for every input; the parser is valid afterwards and its views still are such;
-- and the call reads nothing from freed memory: with any other contents of it the result is the same.
pub parse_returns :
    (f : ℕ → ℕ → ℕ → Bytes) (env : Env) (d : Bytes) (p : Parser)
    → IsValid p
    → ViewsLive p.generation p
    → (writable_input_span env (length d) p).0.generation ≡ p.generation
    → LoopOk (parse env d p)
      × ViewsLive p.generation (parse env d p).0
      × (parse (record env { freed = f }) d p ≡ parse env d p)
parse_returns f env d p v l same =
    let call = parse-Same f env d p l same in (parse-LoopOk env d p v, call.1, call.0)

no_headers-MapLive : (g : ℕ) → MapLive g no_headers
unfolding reset_storage
no_headers-MapLive g = omega arith

-- A new parser has no views into its buffer.
pub new_parser-ViewsLive : (env : Env) → ViewsLive (new_parser env).generation (new_parser env)
unfolding new_parser
new_parser-ViewsLive env =
    let texts = reserve_buffer-SameTexts env initial_buffer_capacity no_members in
    record {
      current = refl;
      headers = subst (MapLive _) (sym texts.headers) (no_headers-MapLive _);
      last = subst (IsLiveName _) (sym texts.last) tt;
    }
