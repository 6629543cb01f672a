-- ===== src/Http/Message.antt =====
-- `struct request` and `struct response` of core/include/katana/core/http.hpp and the response's
-- operations in core/src/http.cpp. A status is not negative. Views are the texts that they show.
pub mod Serialize
pub mod Framing
pub mod Buffered
mod Tests
use visage_dvachevsky_tempre.Base.{
  ℕ, Bool, true, false, Option, none, some, Bytes, codes, bytes_eq, length, ◌==◌, if◌then◌else◌, [],
}
use visage_dvachevsky_tempre.Http.Method.{Method}
use visage_dvachevsky_tempre.Http.Headers.{
  Field, HeadersMap, bytes_text, set_known, set_known_borrowed, set_unknown, reset_storage, clear,
  get_known, get_unknown,
}
use visage_dvachevsky_tempre.Problem.{ProblemDetails, to_json}

-- What the responses need of code outside: whether the arena hands out memory for strings and for
-- chunks of entries, and the table of header names.
pub record HeaderEnv : Type 0 where
  pub strings : Bool
  pub chunks : Bool
  pub string_to_field : Bytes → Field
  pub field_to_string : Field → Bytes

-- `field::content_type` and `field::content_length`.
abbrev pub content_type : Field
content_type = 78

abbrev pub content_length : Field
content_length = 70

pub record Request : Type 0 where
  pub http_method : Method
  pub uri : Bytes
  pub headers : HeadersMap Bytes
  pub body : Bytes

pub record Response : Type 0 where
  pub status : ℕ
  pub reason : Bytes
  pub headers : HeadersMap Bytes
  pub body : Bytes
  pub chunked : Bool

abbrev pub new_response : Response
new_response = record {
  status = 200;
  reason = [];
  headers = reset_storage;
  body = [];
  chunked = false;
}

unfoldable pub canonical_reason_phrase : ℕ → Bytes
canonical_reason_phrase status =
    if status == 200
    then codes "OK"
    else if status == 201
    then codes "Created"
    else if status == 202
    then codes "Accepted"
    else if status == 204
    then codes "No Content"
    else if status == 304
    then codes "Not Modified"
    else if status == 400
    then codes "Bad Request"
    else if status == 401
    then codes "Unauthorized"
    else if status == 403
    then codes "Forbidden"
    else if status == 404
    then codes "Not Found"
    else if status == 405
    then codes "Method Not Allowed"
    else if status == 406
    then codes "Not Acceptable"
    else if status == 409
    then codes "Conflict"
    else if status == 415
    then codes "Unsupported Media Type"
    else if status == 422
    then codes "Unprocessable Entity"
    else if status == 429
    then codes "Too Many Requests"
    else if status == 500
    then codes "Internal Server Error"
    else if status == 503
    then codes "Service Unavailable"
    else codes "OK"

-- `headers_map::set_view`
unfoldable pub set_view : HeaderEnv → Bytes → Bytes → HeadersMap Bytes → HeadersMap Bytes
set_view env name value h =
    let f = env.string_to_field name in
    if f == 0
    then set_unknown env.strings env.chunks name value h
    else set_known env.strings env.chunks f value h

-- `headers_map::get(std::string_view)`
unfoldable pub get_view : HeaderEnv → Bytes → HeadersMap Bytes → Option Bytes
get_view env name h =
    let f = env.string_to_field name in if f == 0 then get_unknown name h else get_known f h

unfoldable pub set_header : HeaderEnv → Bytes → Bytes → Response → Response
set_header env name value r = record r { headers = set_view env name value r.headers }

unfoldable pub set_content_type : HeaderEnv → Bytes → HeadersMap Bytes → HeadersMap Bytes
set_content_type env kind h =
    if bytes_eq kind (codes "text/plain")
    then set_known_borrowed env.chunks content_type (codes "text/plain") h
    else if bytes_eq kind (codes "application/json")
    then set_known_borrowed env.chunks content_type (codes "application/json") h
    else if bytes_eq kind (codes "application/problem+json")
    then set_known_borrowed env.chunks content_type (codes "application/problem+json") h
    else set_known env.strings env.chunks content_type kind h

-- `response::reset`
unfoldable pub reset_response : Response → Response
reset_response r = record {
  status = 200;
  reason = [];
  headers = clear r.headers;
  body = [];
  chunked = false;
}

unfoldable pub with_status : ℕ → Response → Response
with_status s r = record r { status = s; reason = canonical_reason_phrase s }

abbrev reason_for : ℕ → Bytes → Bytes
reason_for status phrase = if length phrase == 0 then canonical_reason_phrase status else phrase

unfoldable pub assign_text : HeaderEnv → Bytes → Bytes → ℕ → Bytes → Response → Response
assign_text env text kind status phrase r =
    let cleared = reset_response r in
    record cleared {
      status = status;
      reason = reason_for status phrase;
      body = text;
      headers = set_content_type env kind cleared.headers;
    }

unfoldable pub assign_json : HeaderEnv → Bytes → ℕ → Bytes → Response → Response
assign_json env text status phrase r =
    let cleared = reset_response r in
    record cleared {
      status = status;
      reason = reason_for status phrase;
      body = text;
      headers = set_content_type env (codes "application/json") cleared.headers;
    }

unfoldable pub assign_error : HeaderEnv → ProblemDetails → Response → Response
assign_error env problem r =
    let cleared = reset_response r in
    record cleared {
      status = problem.status;
      reason = problem.title;
      body = to_json problem;
      headers = set_content_type env (codes "application/problem+json") cleared.headers;
    }

-- `response_builder`
abbrev pub builder_text : HeaderEnv → Bytes → ℕ → Response → Response
builder_text env text status r =
    assign_text env text (codes "text/plain") status (canonical_reason_phrase status) r

abbrev pub builder_json : HeaderEnv → Bytes → ℕ → Response → Response
builder_json env text status r = assign_json env text status (canonical_reason_phrase status) r

abbrev pub created_json : HeaderEnv → Bytes → Response → Response
created_json env text r = builder_json env text 201 r

abbrev pub no_content : Response → Response
no_content r = record (reset_response r) { status = 204; reason = canonical_reason_phrase 204 }

-- `response::ok`, `response::json` and `response::error`.
abbrev pub response_ok : HeaderEnv → Bytes → Bytes → Response
response_ok env text kind = assign_text env text kind 200 (codes "OK") new_response

abbrev pub response_json : HeaderEnv → Bytes → Response
response_json env text = response_ok env text (codes "application/json")

abbrev pub response_error : HeaderEnv → ProblemDetails → Response
response_error env problem = assign_error env problem new_response
