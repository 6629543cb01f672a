-- ===== src/Http/Parser/Invariant/Input.antt =====
-- The calls of the parser that take input: what is already there and not yet parsed stays, and new
-- input goes behind it.
use visage_dvachevsky_tempre.Memory.{move_to_front, take-append_exact, length-write_at}
use visage_dvachevsky_tempre.Base.{
  ℕ, ◌+◌, ◌-◌, ◌≤◌, ◌≡◌, Bool, true, [], ◌∷◌, Bytes, length, take, drop, arith, length-take,
  length-drop, drop-take, Option-cases, inl, inr, if◌then◌else◌,
}
use visage_dvachevsky_tempre.Http.Method.{Result, ok, err}
use visage_dvachevsky_tempre.Http.Parser.{Env, Parser, memory, refused}
use visage_dvachevsky_tempre.Http.Parser.Buffer.{
  has_buffer, make_room, claim_room, compact_buffer, writable_input_span,
}
use visage_dvachevsky_tempre.Http.Parser.Steps.{unparsed}
use visage_dvachevsky_tempre.Http.Parser.Run.{fill_input, commit_span, parse}
use visage_dvachevsky_tempre.Http.Parser.Invariant.{IsValid}
use visage_dvachevsky_tempre.Http.Parser.Invariant.Calls.{
  compact_buffer-IsValid, commit_input-LoopOk, parse_available-LoopOk, LoopOk,
}
use visage_dvachevsky_tempre.Http.Parser.Invariant.Growth.{
  input, Reserved, ensure_buffer_capacity-Reserved,
}

unparsed-input : (p : Parser) → unparsed p ≡ drop p.parse_pos (input p)
unparsed-input p = drop-take p.parse_pos p.buffer_size (memory p)

-- Compaction keeps the bytes that are not parsed yet, in order.
pub unparsed-compact_buffer : (p : Parser) → IsValid p → unparsed (compact_buffer p) ≡ unparsed p
unfolding compact_buffer move_to_front
unparsed-compact_buffer p v = elim (Option-cases p.buffer) [
  | inl e ↦ ground (arith, e)
  | inr (m, e) ↦
      let n : ℕ = p.buffer_size - p.parse_pos in
      let held : length m ≡ p.buffer_capacity = ground (arith, e) in
      ground (
        arith,
        e,
        take-append_exact n (take n (drop p.parse_pos m)) (drop n m)
            (omega (arith, length-take n (drop p.parse_pos m), length-drop p.parse_pos m)),
      )
]

-- What the calls that make room hand over.
abbrev pub Room : Parser → ℕ → Parser → Type 0
Room p desired q =
    IsValid q
    × (unparsed q ≡ unparsed p)
    × (q.buffer_size + desired ≤ q.buffer_capacity)
    × (has_buffer q ≡ true)

abbrev pub WritableOk : Parser → ℕ → Parser × Result ℕ → Type 0
WritableOk p desired (q, ok at') = Room p desired q × (at' ≡ q.buffer_size)
WritableOk p desired (q, err e) = IsValid q × (unparsed q ≡ unparsed p)

abbrev MadeRoom : Parser → ℕ → Parser × Bool → Type 0
MadeRoom p desired (q, done) =
    IsValid q × (unparsed q ≡ unparsed p) × (done ≡ true → Room p desired q)

Reserved-unparsed :
    (p : Parser) (c : ℕ) (o : Parser × Bool) → Reserved p c o → unparsed o.0 ≡ unparsed p
Reserved-unparsed p c o r = rw (unparsed-input o.0, unparsed-input p, r.1, r.3)

make_room-MadeRoom :
    (env : Env) (desired : ℕ) (p : Parser)
    → IsValid p
    → has_buffer p ≡ true
    → MadeRoom p desired (make_room env desired p)
unfolding make_room
make_room-MadeRoom env desired p v hb =
    let ensured =
      ensure_buffer_capacity-Reserved env (p.buffer_size + desired) p v hb (omega arith) in
    ground (arith, ensured, Reserved-unparsed p (p.buffer_size + desired) _ ensured)

claim_room-WritableOk :
    (env : Env) (desired : ℕ) (p : Parser)
    → IsValid p
    → has_buffer p ≡ true
    → WritableOk p desired (claim_room env desired p)
unfolding claim_room
claim_room-WritableOk env desired p v hb =
    let ensured =
      ensure_buffer_capacity-Reserved env (p.buffer_size + desired) p v hb (omega arith) in
    ground (arith, ensured, Reserved-unparsed p (p.buffer_size + desired) _ ensured)

has_buffer-compact_buffer : (p : Parser) → has_buffer (compact_buffer p) ≡ has_buffer p
unfolding compact_buffer
has_buffer-compact_buffer p = ground arith

make_and_claim :
    (env : Env) (desired : ℕ) (p q : Parser)
    → IsValid q
    → has_buffer q ≡ true
    → unparsed q ≡ unparsed p
    → WritableOk p desired (
        let (r, roomy) = make_room env desired q in
        if roomy then claim_room env desired r else (r, refused))
make_and_claim env desired p q v hb e =
    let made = make_room-MadeRoom env desired q v hb in
    ground (arith, made, claim_room-WritableOk env desired (make_room env desired q).0)

-- `writable_input_span` on a valid parser keeps the unparsed input, and what it returns is the place
-- behind the input, with the room that was asked for inside the allocation.
pub writable_input_span-WritableOk :
    (env : Env) (desired : ℕ) (p : Parser)
    → IsValid p
    → WritableOk p desired (writable_input_span env desired p)
unfolding writable_input_span
writable_input_span-WritableOk env desired p v = ground (
  arith,
  make_and_claim env desired p p v,
  make_and_claim env desired p (compact_buffer p) (compact_buffer-IsValid p v),
  has_buffer-compact_buffer p,
  unparsed-compact_buffer p v,
)

fill_input-IsValid :
    (d : Bytes) (p : Parser)
    → IsValid p
    → p.buffer_size + length d ≤ p.buffer_capacity
    → IsValid (fill_input d p)
unfolding fill_input
fill_input-IsValid d p v room = elim (Option-cases p.buffer) [
  | inl e ↦ ground (arith, e)
  | inr (m, e) ↦
      let held : length m ≡ p.buffer_capacity = ground (arith, e) in
      ground (arith, e, length-write_at p.buffer_size d m (omega arith))
]

commit_span-LoopOk :
    (env : Env) (d : Bytes) (p : Parser) (o : Parser × Result ℕ)
    → WritableOk p (length d) o
    → LoopOk (commit_span env d o)
unfolding commit_span
commit_span-LoopOk env d p (q, err e) w = ground arith
commit_span-LoopOk env d p (q, ok at') w =
    commit_input-LoopOk env (length d) (fill_input d q) (fill_input-IsValid d q w.0.0 w.0.2)

-- `parse` on a valid parser returns for every input and in every environment, a state or a refusal,
-- and leaves a valid parser.
pub parse-LoopOk : (env : Env) (d : Bytes) (p : Parser) → IsValid p → LoopOk (parse env d p)
unfolding parse
parse-LoopOk env [] p v = parse_available-LoopOk env p v
parse-LoopOk env (b ∷ r) p v =
    commit_span-LoopOk env (b ∷ r) p (writable_input_span env (length (b ∷ r)) p)
      (writable_input_span-WritableOk env (length (b ∷ r)) p v)
