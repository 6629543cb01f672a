-- ===== src/Http/Parser/Invariant/Messages.antt =====
-- The start of a parser, and the step from one message to the next.
use visage_dvachevsky_tempre.Memory.{move_to_front, take-append_exact, length-move_to_front}
use visage_dvachevsky_tempre.Base.{
  ℕ, ◌-◌, ◌≤◌, ◌≡◌, refl, length, take, drop, arith, length-take, length-drop, Option-cases, inl,
  inr, length-replicate,
}
use visage_dvachevsky_tempre.Http.Parser.{
  request_line, Env, Parser, memory, initial_buffer_capacity, max_buffer_size,
  retain_buffer_capacity,
}
use visage_dvachevsky_tempre.Http.Parser.Buffer.{
  reserve_buffer, maybe_shrink_buffer, reset_message_state, reset, prepare_for_next_request,
  new_parser, no_members,
}
use visage_dvachevsky_tempre.Http.Parser.Steps.{unparsed}
use visage_dvachevsky_tempre.Http.Parser.Invariant.{IsValid}
use visage_dvachevsky_tempre.Http.Parser.Invariant.Growth.{reserve_buffer-Reserved}

-- A new parser is valid, with or without memory for its buffer.
pub new_parser-IsValid : (env : Env) → IsValid (new_parser env)
unfolding new_parser
new_parser-IsValid env =
    (reserve_buffer-Reserved env initial_buffer_capacity no_members (omega arith) (omega arith)).0

-- A parser of which only the input buffer matters, between two messages.
reset_message_state-IsValid :
    (p : Parser)
    → length (memory p) ≡ p.buffer_capacity
    → p.buffer_capacity ≤ max_buffer_size
    → p.buffer_size ≤ p.buffer_capacity
    → IsValid (reset_message_state p)
unfolding reset_message_state
reset_message_state-IsValid p a b c = ground arith

maybe_shrink_empty :
    (env : Env) (p : Parser)
    → p.buffer_size ≡ 0
    → length (memory p) ≡ p.buffer_capacity
    → p.buffer_capacity ≤ max_buffer_size
    → let q = maybe_shrink_buffer env p in
      (length (memory q) ≡ q.buffer_capacity)
      × (q.buffer_capacity ≤ max_buffer_size)
      × (q.buffer_size ≡ 0)
      × (q.buffer_capacity ≤ retain_buffer_capacity)
unfolding maybe_shrink_buffer reserve_buffer
maybe_shrink_empty env p e a b = ground (arith, length-replicate initial_buffer_capacity env.junk)

-- After `reset` the parser is valid, every member but the buffer, its capacity and the count of its
-- allocations is as in a parser that has no members set, and the capacity is at most the one that is
-- retained.
pub reset-IsValid :
    (env : Env) (p : Parser)
    → IsValid p
    → IsValid (reset env p)
      × (reset env p ≡ record no_members {
        buffer = (reset env p).buffer;
        generation = (reset env p).generation;
        buffer_capacity = (reset env p).buffer_capacity;
      })
      × ((reset env p).buffer_capacity ≤ retain_buffer_capacity)
unfolding reset reset_message_state
reset-IsValid env p v =
    let facts = maybe_shrink_empty env (record p { buffer_size = 0 }) refl v.allocated v.bounded in
    (ground (arith, facts), ground (arith, facts), facts.3)

-- Between two requests on a connection nothing that was received is lost: what the finished request
-- left unparsed is the input of the next one, which starts in the first state.
pub unparsed-prepare_for_next_request :
    (p : Parser)
    → IsValid p
    → IsValid (prepare_for_next_request p)
      × (unparsed (prepare_for_next_request p) ≡ unparsed p)
      × ((prepare_for_next_request p).parse_pos ≡ 0)
      × ((prepare_for_next_request p).state ≡ request_line)
unfolding prepare_for_next_request reset_message_state move_to_front
unparsed-prepare_for_next_request p v = elim (Option-cases p.buffer) [
  | inl e ↦ ground (arith, e)
  | inr (m, e) ↦
      let n : ℕ = p.buffer_size - p.parse_pos in
      let held : length m ≡ p.buffer_capacity = ground (arith, e) in
      ground (
        arith,
        e,
        length-move_to_front p.parse_pos n m,
        take-append_exact n (take n (drop p.parse_pos m)) (drop n m)
            (omega (arith, length-take n (drop p.parse_pos m), length-drop p.parse_pos m)),
      )
]
