-- ===== src/Http/Parser/Live/Room.antt =====
-- Making room in the buffer leaves the views of the parser as they are, if not what they show.
use visage_dvachevsky_tempre.Base.{ℕ, ◌+◌, ◌≡◌, ltb, if◌then◌else◌, arith}
use visage_dvachevsky_tempre.Http.Parser.{Env, Parser, refused, initial_buffer_capacity}
use visage_dvachevsky_tempre.Http.Parser.Buffer.{
  compact_buffer, writable_input_span, reserve_buffer, ensure_buffer_capacity, make_room,
  claim_room, grow_capacity, grow_fuel,
}
use visage_dvachevsky_tempre.Http.Parser.Live.Untouched.{compact_buffer-Untouched}

-- Two states of the parser with the same views, whatever became of the buffer.
pub record SameTexts (p q : Parser) : Type 0 where
  pub headers : q.request_headers ≡ p.request_headers
  pub last : q.last_header_name ≡ p.last_header_name

pub reserve_buffer-SameTexts :
    (env : Env) (n : ℕ) (p : Parser) → SameTexts p (reserve_buffer env n p).0
unfolding reserve_buffer
reserve_buffer-SameTexts env n p = ground arith

ensure_buffer_capacity-SameTexts :
    (env : Env) (n : ℕ) (p : Parser) → SameTexts p (ensure_buffer_capacity env n p).0
unfolding ensure_buffer_capacity
ensure_buffer_capacity-SameTexts env n p =
    let start : ℕ =
      if ltb 0 p.buffer_capacity then p.buffer_capacity else initial_buffer_capacity in
    let grown : ℕ = grow_capacity grow_fuel n start in
    ground (arith, reserve_buffer-SameTexts env (if ltb grown n then n else grown) p)

make_room-SameTexts : (env : Env) (n : ℕ) (p : Parser) → SameTexts p (make_room env n p).0
unfolding make_room
make_room-SameTexts env n p =
    ground (arith, ensure_buffer_capacity-SameTexts env (p.buffer_size + n) p)

claim_room-SameTexts : (env : Env) (n : ℕ) (p : Parser) → SameTexts p (claim_room env n p).0
unfolding claim_room
claim_room-SameTexts env n p =
    ground (arith, ensure_buffer_capacity-SameTexts env (p.buffer_size + n) p)

roomy-SameTexts :
    (env : Env) (n : ℕ) (p : Parser)
    → SameTexts p
        (let (q, roomy) = make_room env n p in if roomy then claim_room env n q else (q, refused)).0
roomy-SameTexts env n p =
    ground (arith, make_room-SameTexts env n p, claim_room-SameTexts env n (make_room env n p).0)

pub writable_input_span-SameTexts :
    (env : Env) (n : ℕ) (p : Parser) → SameTexts p (writable_input_span env n p).0
unfolding writable_input_span
writable_input_span-SameTexts env n p = ground (
  arith,
  roomy-SameTexts env n p,
  roomy-SameTexts env n (compact_buffer p),
  compact_buffer-Untouched p,
)
