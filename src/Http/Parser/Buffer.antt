-- ===== src/Http/Parser/Buffer.antt =====
-- The input buffer of `parser`: `compact_buffer`, `reserve_buffer`, `ensure_buffer_capacity`,
-- `maybe_shrink_buffer`, `writable_input_span`, `reset_message_state`, `reset` and
-- `prepare_for_next_request` of core/src/http.cpp.
use visage_dvachevsky_tempre.Memory.{move_to_front}
use visage_dvachevsky_tempre.Base.{
  ℕ, zero, suc, ◌+◌, ◌-◌, ◌*◌, ◌/◌, Bool, true, false, not, ◌&&◌, Option, none, some, [], ◌∷◌, ◌++◌,
  Bytes, length, take, replicate, leb, ltb, ◌==◌, if◌then◌else◌,
}
use visage_dvachevsky_tempre.Http.Method.{Method, Result, ok}
use visage_dvachevsky_tempre.Http.Headers.{HeaderText}
use visage_dvachevsky_tempre.Http.Parser.Text.{slice}
use visage_dvachevsky_tempre.Http.Parser.{
  State, request_line, complete, View, in_buffer, owned, no_headers, views_by, Env, Parser, refused,
  memory, max_buffer_size, initial_buffer_capacity, retain_buffer_capacity, compact_threshold,
}

-- The pairs that start below `n - 1` in the first `n` bytes.
unfoldable pub count_crlf : ℕ → Bytes → ℕ
count_crlf (suc (suc n)) (a ∷ b ∷ r) =
    (if a == b'\r' && b == b'\n' then 1 else 0) + count_crlf (suc n) (b ∷ r)
count_crlf _ _ = 0

abbrev less : ℕ → ℕ → ℕ
less n consumed = if ltb consumed n then n - consumed else 0

unfoldable pub compact_buffer : Parser → Parser
compact_buffer p =
    if leb p.buffer_size p.parse_pos
    then record p {
      buffer_size = 0;
      parse_pos = 0;
      validated_bytes = 0;
      header_end_pos = 0;
      crlf_scan_pos = 0;
      crlf_pairs = 0;
    }
    else if ltb (compact_threshold / 2) p.parse_pos
    then (let moved = move_to_front p.parse_pos (p.buffer_size - p.parse_pos) (memory p) in
        record p {
          buffer = elim p.buffer [ none ↦ none | some _ ↦ some moved ];
          buffer_size = p.buffer_size - p.parse_pos;
          parse_pos = 0;
          validated_bytes = less p.validated_bytes p.parse_pos;
          header_end_pos = less p.header_end_pos p.parse_pos;
          crlf_scan_pos = less p.crlf_scan_pos p.parse_pos;
          crlf_pairs = count_crlf (less p.crlf_scan_pos p.parse_pos) moved;
        })
    else p

abbrev pub has_buffer : Parser → Bool
has_buffer p = elim p.buffer [ none ↦ false | some _ ↦ true ]

unfoldable pub reserve_buffer : Env → ℕ → Parser → Parser × Bool
reserve_buffer env capacity p =
    if ltb max_buffer_size capacity
    then (p, false)
    else if leb capacity p.buffer_capacity && has_buffer p
    then (p, true)
    else if env.heap
    then (
      record p {
        buffer = some (
            take p.buffer_size (memory p)
            ++ replicate (capacity - length (take p.buffer_size (memory p))) env.junk);
        generation = p.generation + 1;
        buffer_capacity = capacity;
      },
      true,
    )
    else (p, false)

-- The doubling loop of `ensure_buffer_capacity`; the first number is the fuel.
unfoldable pub grow_capacity : ℕ → ℕ → ℕ → ℕ
grow_capacity zero required capacity = capacity
grow_capacity (suc fuel) required capacity =
    let rest = grow_capacity fuel required (capacity * 2) in
    if ltb capacity required
    then (if leb (max_buffer_size / 2) capacity then max_buffer_size else rest)
    else capacity

-- A capacity of at least 1 reaches the half of the bound in 24 rounds.
abbrev pub grow_fuel : ℕ
grow_fuel = 25

unfoldable pub ensure_buffer_capacity : Env → ℕ → Parser → Parser × Bool
ensure_buffer_capacity env required p =
    if ltb max_buffer_size required
    then (p, false)
    else if leb required p.buffer_capacity
    then (p, true)
    else let start =
        if ltb 0 p.buffer_capacity then p.buffer_capacity else initial_buffer_capacity in
      let grown = grow_capacity grow_fuel required start in
      reserve_buffer env (if ltb grown required then required else grown) p

unfoldable pub maybe_shrink_buffer : Env → Parser → Parser
maybe_shrink_buffer env p =
    if leb p.buffer_capacity retain_buffer_capacity
    then (if not (has_buffer p) && p.buffer_capacity == 0
        then (reserve_buffer env initial_buffer_capacity p).0
        else p)
    else (reserve_buffer env initial_buffer_capacity
        (record p { buffer = none; buffer_capacity = 0 })).0

abbrev pub is_complete : State → Bool
is_complete complete = true
is_complete _ = false

-- The second half of `writable_input_span`, after a compaction, if there was one.
unfoldable pub make_room : Env → ℕ → Parser → Parser × Bool
make_room env desired p =
    if ltb p.buffer_capacity p.buffer_size
    then (p, false)
    else if leb desired (p.buffer_capacity - p.buffer_size)
    then (p, true)
    else if ltb (max_buffer_size - p.buffer_size) desired
    then (p, false)
    else ensure_buffer_capacity env (p.buffer_size + desired) p

-- The last test of `writable_input_span`, which asks again for the same room.
unfoldable pub claim_room : Env → ℕ → Parser → Parser × Result ℕ
claim_room env desired p =
    if ltb (p.buffer_capacity - p.buffer_size) desired
    then (let (q, done) = ensure_buffer_capacity env (p.buffer_size + desired) p in
        if done then (q, ok q.buffer_size) else (q, refused))
    else (p, ok p.buffer_size)

-- The room for `desired` bytes behind the input, given by its place in the buffer.
unfoldable pub writable_input_span : Env → ℕ → Parser → Parser × Result ℕ
writable_input_span env desired p =
    if not (has_buffer p)
    then (p, refused)
    else if ltb max_buffer_size desired
    then (p, refused)
    else if ltb p.buffer_capacity p.buffer_size
    then (p, refused)
    else if leb desired (p.buffer_capacity - p.buffer_size)
    then (p, ok p.buffer_size)
    else let compacted =
        if ltb 0 p.parse_pos && not (is_complete p.state) then compact_buffer p else p in
      let (q, roomy) = make_room env desired compacted in
      if roomy then claim_room env desired q else (q, refused)

unfoldable pub reset_message_state : Parser → Parser
reset_message_state p = record p {
  state = request_line;
  request_method = Method.unknown;
  request_uri = owned [];
  request_body = owned [];
  request_headers = no_headers;
  parse_pos = 0;
  content_length = 0;
  current_chunk_size = 0;
  header_count = 0;
  chunked_body = none;
  last_header_field = 0;
  last_header_name = none;
  validated_bytes = 0;
  header_end_pos = 0;
  crlf_scan_pos = 0;
  crlf_pairs = 0;
  is_chunked = false;
}

unfoldable pub reset : Env → Parser → Parser
reset env p = reset_message_state (maybe_shrink_buffer env (record p { buffer_size = 0 }))

abbrev pub buffered_bytes : Parser → ℕ
buffered_bytes p = if ltb p.parse_pos p.buffer_size then p.buffer_size - p.parse_pos else 0

unfoldable pub prepare_for_next_request : Parser → Parser
prepare_for_next_request p =
    let remaining = buffered_bytes p in
    reset_message_state (
      if remaining == 0
      then record p { buffer_size = 0 }
      else if ltb 0 p.parse_pos
      then record p {
        buffer = elim p.buffer [
          | none ↦ none
          | some m ↦ some (move_to_front p.parse_pos remaining m)
        ];
        buffer_size = remaining;
      }
      else p)

-- The members of a parser before its constructor has asked for a buffer.
abbrev pub no_members : Parser
no_members = record {
  state = request_line;
  request_method = Method.unknown;
  request_uri = owned [];
  request_headers = no_headers;
  request_body = owned [];
  buffer = none;
  generation = 0;
  buffer_size = 0;
  buffer_capacity = 0;
  chunked_body = none;
  last_header_field = 0;
  last_header_name = none;
  parse_pos = 0;
  content_length = 0;
  current_chunk_size = 0;
  header_count = 0;
  validated_bytes = 0;
  header_end_pos = 0;
  crlf_scan_pos = 0;
  crlf_pairs = 0;
  is_chunked = false;
}

-- `parser(monotonic_arena*)`
unfoldable pub new_parser : Env → Parser
new_parser env = (reserve_buffer env initial_buffer_capacity no_members).0

-- What a view reads: nothing any more once the allocation that it points into has been replaced.
unfoldable pub deref : Parser → View → Option Bytes
deref p (in_buffer generation offset n) =
    if generation == p.generation then some (slice offset n (memory p)) else none
deref p (owned text) = some text

-- The bytes that are read through a view: those which its place in the buffer holds by now, or
-- whatever stands in the freed allocation.
unfoldable pub read_view : Env → Parser → View → Bytes
read_view env p (in_buffer generation offset n) =
    if generation == p.generation then slice offset n (memory p) else env.freed generation offset n
read_view env p (owned text) = text

abbrev pub views : Env → Parser → HeaderText View
views env p = views_by (read_view env p)
