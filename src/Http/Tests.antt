-- ===== src/Http/Tests.antt =====
-- The theorems on the HTTP layer at concrete inputs.
use visage_dvachevsky_tempre.Base.{
  ◌+◌, ◌-◌, ◌≤◌, ◌≡◌, ◌≢◌, refl, true, false, some, [], ◌++◌, Bytes, codes, length, if◌then◌else◌,
  arith, ltb, replicate, ℕ,
}
use visage_dvachevsky_tempre.Http.Method.{get, unknown, ok, method_to_string}
use visage_dvachevsky_tempre.Http.Parser.{
  request_line, body, in_buffer, Env, Parser, retain_buffer_capacity,
}
use visage_dvachevsky_tempre.Http.Parser.Text.{
  find_header_terminator, terminator_from, contains_invalid_uri_char,
}
use visage_dvachevsky_tempre.Http.Parser.Text.Search.{find_header_terminator_resumes}
use visage_dvachevsky_tempre.Http.Parser.Lines.{process_request_line}
use visage_dvachevsky_tempre.Http.Parser.Lines.RequestLine.{
  request_line_text, process_request_line-accepts, process_request_line_sound,
}
use visage_dvachevsky_tempre.Http.Parser.Buffer.{
  new_parser, reset, prepare_for_next_request, writable_input_span, has_buffer, reserve_buffer,
  no_members,
}
use visage_dvachevsky_tempre.Http.Parser.Steps.{unparsed, parse_state}
use visage_dvachevsky_tempre.Http.Parser.Run.{parse, parse_available}
use visage_dvachevsky_tempre.Http.Parser.Live.{ViewsLive}
use visage_dvachevsky_tempre.Http.Parser.Live.Calls.{parse_returns, new_parser-ViewsLive}
use visage_dvachevsky_tempre.Http.Parser.Invariant.{IsValid}
use visage_dvachevsky_tempre.Http.Parser.Invariant.Rounds.{After, parse_state-After}
use visage_dvachevsky_tempre.Http.Parser.Invariant.Calls.{LoopOk, parse_available-LoopOk}
use visage_dvachevsky_tempre.Http.Parser.Invariant.Input.{
  WritableOk, writable_input_span-WritableOk, parse-LoopOk,
}
use visage_dvachevsky_tempre.Http.Parser.Invariant.Messages.{
  new_parser-IsValid, reset-IsValid, unparsed-prepare_for_next_request,
}

abbrev test_env : Env
test_env = record {
  arena = true;
  heap = true;
  junk = 0;
  freed = λ _ _ _. [];
  string_to_field = λ _. 0;
}

abbrev fresh : Parser
fresh = new_parser test_env

abbrev get_text : Bytes
get_text = codes "GET /a HTTP/1.1\r\nHost: x\r\n\r\n"

-- A parser that has read a request, and the beginning of the next one.
abbrev used : Parser
used = (parse test_env (get_text ++ codes "PO") fresh).0

fresh-IsValid : IsValid fresh
fresh-IsValid = new_parser-IsValid test_env

used-IsValid : IsValid used
used-IsValid = (parse-LoopOk test_env (get_text ++ codes "PO") fresh fresh-IsValid).0

fresh_keeps_buffer :
    (writable_input_span test_env (length get_text) fresh).0.generation ≡ fresh.generation
unfolding writable_input_span new_parser reserve_buffer
fresh_keeps_buffer = refl

-- What freed memory holds instead of nothing.
abbrev garbage : ℕ → ℕ → ℕ → Bytes
garbage g offset n = codes "chunked"

parse_returns_example :
    LoopOk (parse test_env get_text fresh)
    × ViewsLive fresh.generation (parse test_env get_text fresh).0
    × (parse (record test_env { freed = garbage }) get_text fresh ≡ parse test_env get_text fresh)
parse_returns_example =
    parse_returns garbage test_env get_text fresh fresh-IsValid (new_parser-ViewsLive test_env)
      fresh_keeps_buffer

parse_available-LoopOk_example : LoopOk (parse_available test_env used)
parse_available-LoopOk_example = parse_available-LoopOk test_env used used-IsValid

unparsed-prepare_for_next_request_example :
    IsValid (prepare_for_next_request used)
    × (unparsed (prepare_for_next_request used) ≡ unparsed used)
    × ((prepare_for_next_request used).parse_pos ≡ 0)
    × ((prepare_for_next_request used).state ≡ request_line)
unparsed-prepare_for_next_request_example = unparsed-prepare_for_next_request used used-IsValid

reset-IsValid_example :
    IsValid (reset test_env used)
    × (reset test_env used ≡ record no_members {
      buffer = (reset test_env used).buffer;
      generation = (reset test_env used).generation;
      buffer_capacity = (reset test_env used).buffer_capacity;
    })
    × ((reset test_env used).buffer_capacity ≤ retain_buffer_capacity)
reset-IsValid_example = reset-IsValid test_env used used-IsValid

writable_input_span-WritableOk_example : WritableOk used 100 (writable_input_span test_env 100 used)
writable_input_span-WritableOk_example =
    writable_input_span-WritableOk test_env 100 used used-IsValid

fresh_buffer : has_buffer fresh ≡ true
unfolding new_parser reserve_buffer
fresh_buffer = refl

fresh_size : fresh.buffer_size ≡ 0
unfolding new_parser reserve_buffer
fresh_size = refl

fresh_room : fresh.buffer_size + length get_text ≤ fresh.buffer_capacity
unfolding new_parser reserve_buffer
fresh_room = omega arith

fresh_state : fresh.state ≡ request_line
unfolding new_parser reserve_buffer
fresh_state = refl

parse_state-After_example : After fresh (parse_state test_env request_line fresh)
parse_state-After_example = parse_state-After test_env request_line fresh fresh_state fresh-IsValid

plain_uri : contains_invalid_uri_char (codes "/a") ≡ false
unfolding contains_invalid_uri_char
plain_uri = refl

process_request_line-accepts_example :
    process_request_line 3 (request_line_text get (codes "/a")) fresh ≡ (
      record fresh {
        request_method = get;
        request_uri =
            in_buffer fresh.generation
              (3 + (length (method_to_string get) + 1))
              (length (codes "/a"));
      },
      ok tt,
    )
process_request_line-accepts_example =
    process_request_line-accepts 3 get (codes "/a") fresh (λ e. cc) (omega arith) plain_uri

abbrev after_line : Parser
after_line = record fresh {
  request_method = get;
  request_uri =
      in_buffer fresh.generation (3 + (length (method_to_string get) + 1)) (length (codes "/a"));
}

line_accepted :
    process_request_line 3 (request_line_text get (codes "/a")) fresh ≡ (after_line, ok tt)
line_accepted =
    process_request_line-accepts 3 get (codes "/a") fresh (λ e. cc) (omega arith) plain_uri

process_request_line_sound_example :
    (uri : Bytes) × (request_line_text get (codes "/a")
      ≡ request_line_text after_line.request_method uri)
    × (after_line.request_method ≢ unknown)
    × (length uri ≤ 2048)
    × (contains_invalid_uri_char uri ≡ false)
process_request_line_sound_example =
    process_request_line_sound 3 (request_line_text get (codes "/a")) fresh after_line line_accepted

no_end : find_header_terminator get_text 0 17 ≡ 0
unfolding find_header_terminator terminator_from
no_end = refl

find_header_terminator_resumes_example :
    find_header_terminator get_text (if ltb 3 17 then 17 - 3 else 0) 28
    ≡ find_header_terminator get_text 0 28
find_header_terminator_resumes_example =
    find_header_terminator_resumes get_text 17 28 (omega arith) (omega arith) no_end

-- A request whose header section ended at byte 3000, waiting for a body of 5 bytes.
abbrev waiting : Parser
waiting = record fresh {
  state = body;
  buffer = some (replicate 3000 0);
  buffer_size = 3000;
  buffer_capacity = 3000;
  parse_pos = 3000;
  content_length = 5;
  request_uri = in_buffer fresh.generation 4 2;
}
