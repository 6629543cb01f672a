-- ===== src/Http/Method.antt =====
-- `enum class method`, `parse_method` and `method_to_string` (core/include/katana/core/http.hpp,
-- core/src/http.cpp), and the error codes of core/include/katana/core/result.hpp.
use visage_dvachevsky_tempre.Base.{
  ℕ, ◌≡◌, refl, Bytes, codes, bytes_eq, bytes_eq→eq, if◌then◌else◌, arith, ◌≢◌,
}

pub data Method : Type 0 where
  get post put del patch head options unknown : Method

pub data ErrorCode : Type 0 where
  ok_code epoll_create_failed epoll_ctl_failed epoll_wait_failed : ErrorCode
  invalid_fd reactor_stopped timeout not_found method_not_allowed : ErrorCode
  openapi_parse_error openapi_invalid_spec : ErrorCode

-- `result<T>`.
pub data Result {ℓ} (A : Type ℓ) : Type ℓ where
  ok : A → Result A
  err : ErrorCode → Result A

unfoldable pub parse_method : Bytes → Method
parse_method s =
    if bytes_eq s (codes "GET")
    then get
    else if bytes_eq s (codes "POST")
    then post
    else if bytes_eq s (codes "PUT")
    then put
    else if bytes_eq s (codes "DELETE")
    then del
    else if bytes_eq s (codes "PATCH")
    then patch
    else if bytes_eq s (codes "HEAD")
    then head
    else if bytes_eq s (codes "OPTIONS")
    then options
    else unknown

unfoldable pub method_to_string : Method → Bytes
method_to_string get = codes "GET"
method_to_string post = codes "POST"
method_to_string put = codes "PUT"
method_to_string del = codes "DELETE"
method_to_string patch = codes "PATCH"
method_to_string head = codes "HEAD"
method_to_string options = codes "OPTIONS"
method_to_string unknown = codes "UNKNOWN"

-- The enumerator's value.
unfoldable pub method_index : Method → ℕ
method_index get = 0
method_index post = 1
method_index put = 2
method_index del = 3
method_index patch = 4
method_index head = 5
method_index options = 6
method_index unknown = 7

-- Printing a method and parsing it back gives the method, the placeholder UNKNOWN included.
pub parse_method-method_to_string : (m : Method) → parse_method (method_to_string m) ≡ m
unfolding parse_method method_to_string bytes_eq
parse_method-method_to_string get = refl
parse_method-method_to_string post = refl
parse_method-method_to_string put = refl
parse_method-method_to_string del = refl
parse_method-method_to_string patch = refl
parse_method-method_to_string head = refl
parse_method-method_to_string options = refl
parse_method-method_to_string unknown = refl

-- A text that parses to a method other than `unknown` is exactly that method's name.
pub method_to_string-parse_method :
    (s : Bytes) → parse_method s ≢ unknown → s ≡ method_to_string (parse_method s)
unfolding parse_method method_to_string
method_to_string-parse_method s h = ground (
  arith,
  bytes_eq→eq s (codes "GET"),
  bytes_eq→eq s (codes "POST"),
  bytes_eq→eq s (codes "PUT"),
  bytes_eq→eq s (codes "DELETE"),
  bytes_eq→eq s (codes "PATCH"),
  bytes_eq→eq s (codes "HEAD"),
  bytes_eq→eq s (codes "OPTIONS"),
)

pub method_index-injective : (a b : Method) → method_index a ≡ method_index b → a ≡ b
unfolding method_index
method_index-injective a b h = ground arith
