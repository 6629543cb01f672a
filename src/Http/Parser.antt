-- ===== src/Http/Parser.antt =====
-- `class parser` of core/include/katana/core/http.hpp and core/src/http.cpp: the state of the parser
-- and its environment. The operations stand in the modules below.
pub mod Tables
pub mod Text
pub mod Buffer
pub mod Lines
pub mod Steps
pub mod Run
pub mod Invariant
pub mod Views
pub mod Live
use visage_dvachevsky_tempre.Base.{ℕ, ◌+◌, ◌*◌, ◌%◌, ◌^◌, Bool, Option, none, some, List, [], Bytes}
use visage_dvachevsky_tempre.Http.Method.{Method, ErrorCode, Result, err}
use visage_dvachevsky_tempre.Http.Headers.{
  Field, HeadersMap, HeaderText, bytes_text, view16, reset_storage,
}

abbrev pub max_header_size : ℕ
max_header_size = 8192

abbrev pub max_body_size : ℕ
max_body_size = 10 * 1024 * 1024

abbrev pub max_uri_length : ℕ
max_uri_length = 2048

abbrev pub max_header_count : ℕ
max_header_count = 100

abbrev pub max_buffer_size : ℕ
max_buffer_size = max_header_size + max_body_size

abbrev pub initial_buffer_capacity : ℕ
initial_buffer_capacity = 16 * 1024

abbrev pub retain_buffer_capacity : ℕ
retain_buffer_capacity = 64 * 1024

abbrev pub compact_threshold : ℕ
compact_threshold = 2048

pub data State : Type 0 where
  request_line headers body chunk_size chunk_data chunk_trailer complete : State

-- A `std::string_view`: into the buffer (which allocation, the offset, the length), or onto a text
-- that stays where it is.
pub data View : Type 0 where
  in_buffer : ℕ → ℕ → ℕ → View
  owned : Bytes → View

-- A view as the header map stores it, its length in 16 bits.
abbrev pub cut_view : View → View
cut_view (in_buffer generation offset n) = in_buffer generation offset (n % 2 ^ 16)
cut_view (owned text) = owned (view16 text)

-- Views, given what each of them shows.
abbrev pub views_by : (View → Bytes) → HeaderText View
views_by read = record { empty = owned []; cut = cut_view; read = read }

abbrev pub no_headers : HeadersMap View
no_headers = reset_storage ⦃t = views_by (λ _. [])⦄

-- What the parser does not decide: whether the arena and the heap hand out memory, what a new
-- allocation holds, what is read through a view into an allocation that has been freed (which one, the
-- offset, the length), and `string_to_field`.
pub record Env : Type 0 where
  pub arena : Bool
  pub heap : Bool
  pub junk : ℕ
  pub freed : ℕ → ℕ → ℕ → Bytes
  pub string_to_field : Bytes → Field

-- The members of `parser`; those of `request_` have the prefix `request`. `buffer` is what
-- `buffer_` points to, `generation` counts its allocations, and `chunked_body` holds the first
-- `chunked_body_size_` bytes behind that pointer. The header map and `last_header_name`
-- hold views, which show what the buffer holds when they are read.
pub record Parser : Type 0 where
  pub state : State
  pub request_method : Method
  pub request_uri : View
  pub request_headers : HeadersMap View
  pub request_body : View
  pub buffer : Option Bytes
  pub generation : ℕ
  pub buffer_size : ℕ
  pub buffer_capacity : ℕ
  pub chunked_body : Option Bytes
  pub last_header_field : Field
  pub last_header_name : Option View
  pub parse_pos : ℕ
  pub content_length : ℕ
  pub current_chunk_size : ℕ
  pub header_count : ℕ
  pub validated_bytes : ℕ
  pub header_end_pos : ℕ
  pub crlf_scan_pos : ℕ
  pub crlf_pairs : ℕ
  pub is_chunked : Bool

-- Every refusal of the parser has this error code.
abbrev pub refused {ℓ} : {A : Type ℓ} → Result A
refused = err ErrorCode.invalid_fd

abbrev pub memory : Parser → Bytes
memory p = elim p.buffer [ none ↦ [] | some m ↦ m ]
