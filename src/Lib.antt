-- ===== src/Lib.antt =====
-- Katana's HTTP core: the request parser, the header map, the response, the router and the problem
-- documents, the arena, the buffer and the timer of a connection, and the JSON routines that
-- generated handlers call, with what makes each of them correct.
--
-- A connection feeds bytes to `parser` (core/include/katana/core/http.hpp, core/src/http.cpp), which
-- fills a `request` whose headers are a `headers_map` (core/include/katana/core/http_headers.hpp).
-- The router (core/include/katana/core/router.hpp) splits the path, chooses a route, binds the
-- parameters and runs the middleware and the handler, which fill a `response`; an error becomes a
-- problem document (core/src/problem.cpp). The response is written as text, into a string or into
-- the `io_buffer` of the connection (core/src/io_buffer.cpp). A request's memory comes from a
-- `monotonic_arena` (core/src/arena.cpp). A reactor keeps the timeouts in a `wheel_timer`
-- (core/include/katana/core/wheel_timer.hpp). Handlers read and write JSON by
-- core/include/katana/core/serde.hpp.
--
-- Files and what they model, as functions on explicit states:
-- - Base: tests, lists, byte strings and tables that the others share.
-- - Digits: `std::to_chars` and `std::from_chars` for unsigned numbers.
-- - Http/Method: `method`, `parse_method`, `method_to_string`, the error codes and `result`.
-- - Http/Ci: `ci_equal` with its short, its vector and its scalar paths.
-- - Http/Headers: `headers_map`; Headers/Store is one store of it, an inline array and a chain of
--   chunks. Known, Unknown and Clear have the laws, Entries those of a store.
-- - Http/Parser: the members of `parser` and what it does not decide (`Env`). Tables and Text are
--   the tables and text routines, Buffer the buffer's management, Lines the request line and the
--   header lines, Steps one function for each `parse_..._state`, Run the loop and the calls `parse`,
--   `parse_available`, `commit_input`. Parser/Invariant states what holds between two calls
--   (`IsValid`), Parser/Live what it takes that no freed memory is read.
-- - Http/Message: `request`, `response` and the builder; Serialize has the serialisations into a
--   string, Buffered that into an `io_buffer`.
-- - Memory: copies inside an allocation, for the parser's buffer and `io_buffer`.
-- - IoBuffer: `io_buffer`; Room has the invariant and what makes room, Laws what each operation
--   does, Script sequences of calls.
-- - Arena: `monotonic_arena`; Laws has the invariant on its blocks and on what was handed out,
--   Search and Allocate keep it.
-- - Timer: `wheel_timer`. Valid is the invariant, Acquire, Visit and Advance keep it; Steps takes a
--   property through the loop of `advance_slot` with all that the callbacks do; Waits, Fires, Due
--   and Liveness follow one timer to its call, Deadline and Ticking are about the public operations.
-- - Serde: Cursor is `json_cursor`, Parse the values that it reads, Escape the escaping of strings,
--   Format the integers; Whitespace, Strings, Numbers, Escaped, Decimal and Arrays are about them.
-- - Problem: `problem_details`, `to_json` and the factories.
-- - Route: Params, Path, Pattern, Middleware, Allow and Dispatch are the classes of the router.
-- - Tests modules apply the theorems to concrete inputs.
--
-- Representation. A byte is a number, a string a list of them, and a view into the parser's buffer
-- names the allocation, the offset and the length: the URI, the body, the header names and values.
-- It is read where the parser reads it, from what the buffer then holds, or, when the allocation has
-- been freed, from what `Env` says is found there. A header map is over any such kind of text; that
-- of a response holds bytes. The parser's buffer is the whole allocation; the bytes behind the input
-- are there. A `field` is its enumerator's value. Handlers and middleware are
-- functions on the request, the parameters and the response. Status codes are not negative. A
-- callback of the timer is a name, and a script says which timers it adds and cancels when it runs;
-- the log of the callbacks is not part of the class. A cursor is the text that it has left.
--
-- Bounds and fuel. The parser's loop has the size of the input plus two as fuel: each round but the
-- last takes a byte or completes the request. The growth of the buffer has fuel for the doublings up
-- to its bound. The chunked serialisation has one round for each byte of the body and one more.
-- Sizes are natural numbers; the 16-bit lengths of the header map, the 64-bit range of `from_chars`,
-- the sums of `io_buffer`, the 32-bit indices and generations of the timer and the accumulator of
-- `parse_int64` wrap as they do in the code. The loops on blocks of 16 bytes have one round for each
-- block as fuel.
--
-- Parameters. Whether an allocation succeeds, what fresh and freed memory hold, and the table of header names
-- (`string_to_field`, `field_to_string` of core/src/http_field.cpp) are fields of `Env`, `HeaderEnv`
-- and `Heap`. Where the system puts a new block of the arena is an argument of `allocate`.
--
-- Not modelled: the moves of parser and header map, the AVX2 and NEON variants of the searches and
-- of the escaping, `parse_double` (floating point), the scatter-gather lists, a timer callback that
-- calls `tick`, the containers over the arena, the reactors, sockets and server, the JSON, YAML and
-- OpenAPI readers, queues and metrics.
pub mod Base
pub mod Digits
pub mod Memory
pub mod Arena
pub mod IoBuffer
pub mod Http
pub mod Problem
pub mod Route
pub mod Timer
pub mod Serde
