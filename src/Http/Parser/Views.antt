-- ===== src/Http/Parser/Views.antt =====
-- What becomes of the views into the buffer that a request holds when the buffer is compacted.
use visage_dvachevsky_tempre.Base.{◌≡◌, Bytes, length}
use visage_dvachevsky_tempre.Http.Parser.{Parser}
use visage_dvachevsky_tempre.Http.Parser.Run.{fill_input}

-- The buffer and the views of a parser, which a body leaves alone.
record SameViews (p q : Parser) : Type 0 where
  buffer : q.buffer ≡ p.buffer
  generation : q.generation ≡ p.generation
  uri : q.request_uri ≡ p.request_uri
  headers : q.request_headers ≡ p.request_headers

-- Input that fits into an empty buffer is written to its front.
filled : Bytes → Parser → Parser
filled d p = record (fill_input d p) { buffer_size = length d }
