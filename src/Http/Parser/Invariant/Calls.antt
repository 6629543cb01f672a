-- ===== src/Http/Parser/Invariant/Calls.antt =====
-- The calls of the parser keep the invariant, and its loop ends.
use visage_dvachevsky_tempre.Memory.{length-move_to_front}
use visage_dvachevsky_tempre.Base.{
  ℕ, zero, suc, ◌+◌, ◌-◌, ◌<◌, ◌≡◌, refl, ◌≢◌, false, arith, Option-cases, Bool-cases, inl, inr,
  if◌then◌else◌,
}
use visage_dvachevsky_tempre.Http.Method.{Result, ok, err}
use visage_dvachevsky_tempre.Http.Parser.{State, Env, Parser}
use visage_dvachevsky_tempre.Http.Parser.Buffer.{is_complete, compact_buffer}
use visage_dvachevsky_tempre.Http.Parser.Steps.{parse_state}
use visage_dvachevsky_tempre.Http.Parser.Run.{
  Outcome, returned, stuck, Round, go_on, stop, compact_stalled, parse_round, next_round,
  parse_loop, run_states, validate_input, scan_terminator, parse_available, commit_input,
}
use visage_dvachevsky_tempre.Http.Parser.Invariant.{IsValid}
use visage_dvachevsky_tempre.Http.Parser.Invariant.Rounds.{After, parse_state-After}

-- `compact_buffer` keeps the invariant.
pub compact_buffer-IsValid : (p : Parser) → IsValid p → IsValid (compact_buffer p)
unfolding compact_buffer
compact_buffer-IsValid p v = elim (Option-cases p.buffer) [
  | inl e ↦ ground (arith, e)
  | inr (m, e) ↦ ground (arith, e, length-move_to_front p.parse_pos (p.buffer_size - p.parse_pos) m)
]

compact_stalled-IsValid : (p : Parser) → IsValid p → IsValid (compact_stalled p)
unfolding compact_stalled
compact_stalled-IsValid p v = ground (arith, compact_buffer-IsValid p v)

-- The rounds that the loop may still make.
abbrev rounds : Parser → ℕ
rounds p = if is_complete p.state then 0 else p.buffer_size - p.parse_pos + 1

abbrev RoundOk : Parser → Round → Type 0
RoundOk p (go_on q) = IsValid q × (rounds q < rounds p) × (q.buffer_size ≡ p.buffer_size)
RoundOk p (stop q r) = IsValid q

next_round-RoundOk :
    (p : Parser) (o : Parser × Result State)
    → is_complete p.state ≡ false
    → IsValid p
    → After p o
    → RoundOk p (next_round p.parse_pos o)
unfolding next_round
next_round-RoundOk p (q, err e) open' v a = a
next_round-RoundOk p (q, ok s) open' v a =
    ground (arith, compact_stalled-IsValid (record q { state = s }))

abbrev pub LoopOk : Parser × Outcome → Type 0
LoopOk o = IsValid o.0 × (o.1 ≢ stuck)

after_round :
    (fuel : ℕ) (env : Env) (p : Parser)
    → ((q : Parser) → IsValid q → rounds q < fuel → LoopOk (parse_loop fuel env q))
    → rounds p < suc fuel
    → (r : Round) → RoundOk p r
    → LoopOk (elim r [ stop q o ↦ (q, returned o) | go_on q ↦ parse_loop fuel env q ])
after_round fuel env p ih h (stop q o) ok' = (ok', λ e. cc)
after_round fuel env p ih h (go_on q) (vq, less, size) = ih q vq (omega arith)

-- Started with more fuel than rounds, the loop returns, and leaves a valid parser.
parse_loop-LoopOk :
    (fuel : ℕ) (env : Env) (p : Parser)
    → IsValid p
    → rounds p < fuel
    → LoopOk (parse_loop fuel env p)
unfolding parse_loop parse_round
parse_loop-LoopOk zero env p v h = absurd (omega arith)
parse_loop-LoopOk (suc fuel) env p v h = elim (Bool-cases (is_complete p.state)) [
  | inl done ↦ rw (done, parse_loop) (v, λ e. cc)
  | inr open' ↦
      rw (open', parse_loop)
        (after_round fuel env p (λ q vq hq. parse_loop-LoopOk fuel env q vq hq) h
          (next_round p.parse_pos (parse_state env p.state p))
          (next_round-RoundOk p (parse_state env p.state p) open' v
            (parse_state-After env p.state p refl v)))
]

run_states-LoopOk : (env : Env) (p : Parser) → IsValid p → LoopOk (run_states env p)
unfolding run_states
run_states-LoopOk env p v =
    ground (arith, parse_loop-LoopOk (p.buffer_size + 2) env p v (ground arith))

scan_terminator-IsValid : (p : Parser) → IsValid p → IsValid (scan_terminator p)
unfolding scan_terminator
scan_terminator-IsValid p v = ground arith

validate_input-IsValid : (p : Parser) → IsValid p → IsValid (validate_input p).0
unfolding validate_input
validate_input-IsValid p v = ground arith

-- `parse_available` on a valid parser always returns, a state or a refusal, and the parser is valid
-- after it, refused input included.
pub parse_available-LoopOk : (env : Env) (p : Parser) → IsValid p → LoopOk (parse_available env p)
unfolding parse_available
parse_available-LoopOk env p v = ground (
  arith,
  run_states-LoopOk env p v,
  run_states-LoopOk env (validate_input (scan_terminator p)).0
      (validate_input-IsValid (scan_terminator p) (scan_terminator-IsValid p v)),
  validate_input-IsValid (scan_terminator p) (scan_terminator-IsValid p v),
)

-- `commit_input` on a valid parser always returns, a state or a refusal, for any number of bytes, and
-- the parser is valid after it.
pub commit_input-LoopOk :
    (env : Env) (bytes : ℕ) (p : Parser) → IsValid p → LoopOk (commit_input env bytes p)
unfolding commit_input
commit_input-LoopOk env bytes p v =
    ground (arith, parse_available-LoopOk env (record p { buffer_size = p.buffer_size + bytes }))
