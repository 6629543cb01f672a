-- ===== src/Http/Parser/Invariant.antt =====
-- What holds of the parser between any two calls: the positions lie inside the input, the input
-- inside the allocation, and the limits on headers and bodies are kept.
mod Frames
pub mod Rounds
pub mod Calls
pub mod Growth
pub mod Input
pub mod Messages
use visage_dvachevsky_tempre.Base.{ℕ, ◌+◌, ◌≤◌, ◌≡◌, length}
use visage_dvachevsky_tempre.Http.Parser.{
  State, body, chunk_data, Parser, memory, max_buffer_size, max_body_size, max_header_count,
}
use visage_dvachevsky_tempre.Http.Parser.Steps.{chunked_body_size}

pub record IsValid (p : Parser) : Type 0 where
  pub allocated : length (memory p) ≡ p.buffer_capacity
  pub bounded : p.buffer_capacity ≤ max_buffer_size
  pub fits : p.buffer_size ≤ p.buffer_capacity
  pub parsed : p.parse_pos ≤ p.buffer_size
  pub few_headers : p.header_count ≤ max_header_count
  pub small_chunks : chunked_body_size p ≤ max_body_size
  pub chunk_fits : p.state ≡ chunk_data → chunked_body_size p + p.current_chunk_size ≤ max_body_size
  pub small_body : p.state ≡ body → p.content_length ≤ max_body_size
