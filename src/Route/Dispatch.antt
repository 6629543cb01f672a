-- ===== src/Route/Dispatch.antt =====
-- `class router` of core/include/katana/core/router.hpp: the two phases of `dispatch_with_info`, and
-- the responses for its errors.
pub mod Choice
pub mod Errors
use Prim.Native.Nat.{bit_or}
use visage_dvachevsky_tempre.Base.{
  ℕ, Bool, true, false, not, ◌&&◌, ◌||◌, Option, none, some, List, [], ◌∷◌, Bytes, codes, length,
  ltb, ◌==◌, if◌then◌else◌,
}
use visage_dvachevsky_tempre.Http.Method.{Method, ErrorCode, Result, ok, err}
use visage_dvachevsky_tempre.Http.Message.{
  HeaderEnv, Request, Response, new_response, set_header, assign_error,
}
use visage_dvachevsky_tempre.Problem.{not_found, method_not_allowed, internal_server_error}
use visage_dvachevsky_tempre.Route.Params.{PathParams}
use visage_dvachevsky_tempre.Route.Path.{split_path, strip_query}
use visage_dvachevsky_tempre.Route.Pattern.{PathPattern, match_segments, specificity_score}
use visage_dvachevsky_tempre.Route.Middleware.{Exchange, Handler, MiddlewareFn, Outcome, run}
use visage_dvachevsky_tempre.Route.Allow.{method_bit, allow_header_from_mask, is_same}

pub record RouteEntry : Type 0 where
  pub method : Method
  pub pattern : PathPattern
  pub handler : Handler
  pub middleware : List MiddlewareFn

pub record DispatchResult : Type 0 where
  pub route_error : ErrorCode
  pub has_error : Bool
  pub path_matched : Bool
  pub allowed_methods_mask : ℕ

-- `best_route`, `best_score` and `best_params`; nothing while `best_route` is null.
pub record Best : Type 0 where
  pub route : RouteEntry
  pub score : ℕ
  pub params : PathParams

-- The tests of phase 2, and those of phase 1, which also ask for the method.
abbrev pub path_matches : List Bytes → RouteEntry → Bool
path_matches parts e =
    length e.pattern.segments == length parts && (match_segments e.pattern parts []).0

abbrev pub route_matches : Method → List Bytes → RouteEntry → Bool
route_matches m parts e =
    length e.pattern.segments == length parts
    && is_same e.method m
    && (match_segments e.pattern parts []).0

abbrev pub candidate : List Bytes → RouteEntry → Best
candidate parts e = record {
  route = e;
  score = specificity_score e.pattern;
  params = (match_segments e.pattern parts []).1;
}

-- `!best_route || score > best_score`
abbrev pub is_better : Best → Option Best → Bool
is_better c none = true
is_better c (some b) = ltb b.score c.score

-- Phase 1, over the routes that are left.
unfoldable pub find_best : Method → List Bytes → Option Best → List RouteEntry → Option Best
find_best m parts best [] = best
find_best m parts best (e ∷ es) =
    find_best m parts
      (if route_matches m parts e && is_better (candidate parts e) best
        then some (candidate parts e)
        else best)
      es

-- Phase 2: whether the path is that of a route, and the mask of the methods.
unfoldable pub find_methods : List Bytes → Bool × ℕ → List RouteEntry → Bool × ℕ
find_methods parts (matched, mask) [] = (matched, mask)
find_methods parts (matched, mask) (e ∷ es) =
    find_methods parts
      (if path_matches parts e then (true, bit_or mask (method_bit e.method)) else (matched, mask))
      es

abbrev pub no_route : DispatchResult
no_route = record {
  route_error = ErrorCode.not_found;
  has_error = true;
  path_matched = false;
  allowed_methods_mask = 0;
}

abbrev pub wrong_method : ℕ → DispatchResult
wrong_method mask = record {
  route_error = ErrorCode.method_not_allowed;
  has_error = true;
  path_matched = true;
  allowed_methods_mask = mask;
}

abbrev pub of_handler : Outcome → DispatchResult × Exchange
of_handler (ok _, x) = (
  record {
    route_error = ErrorCode.ok_code;
    has_error = false;
    path_matched = false;
    allowed_methods_mask = 0;
  },
  x,
)
of_handler (err e, x) =
    (record { route_error = e; has_error = true; path_matched = true; allowed_methods_mask = 0 }, x)

unfoldable pub phase_two : List RouteEntry → List Bytes → Exchange → DispatchResult × Exchange
phase_two routes parts x =
    let (matched, mask) = find_methods parts (false, 0) routes in
    if matched then (wrong_method mask, x) else (no_route, x)

unfoldable pub dispatch_with_info : List RouteEntry → Request → Exchange → DispatchResult × Exchange
dispatch_with_info routes req x =
    let split = split_path (strip_query req.uri) in
    if split.overflow
    then (no_route, x)
    else elim (find_best req.http_method split.parts none routes) [
      | some b ↦
          of_handler (run b.route.middleware b.route.handler req (record x { params = b.params }))
      | none ↦ phase_two routes split.parts x
    ]

-- `dispatch` into a given response.
unfoldable pub dispatch : List RouteEntry → Request → Exchange → Result (Unit {0}) × Exchange
dispatch routes req x =
    let (info, y) = dispatch_with_info routes req x in
    (if info.has_error then err info.route_error else ok tt, y)

unfoldable pub map_route_error : HeaderEnv → ErrorCode → Response → Response
map_route_error env ErrorCode.not_found out = assign_error env (not_found []) out
map_route_error env ErrorCode.method_not_allowed out = assign_error env (method_not_allowed []) out
map_route_error env _ out = assign_error env (internal_server_error []) out

abbrev set_allow : HeaderEnv → Bytes → Response → Response
set_allow env allow out =
    if length allow == 0 then out else set_header env (codes "Allow") allow out

unfoldable pub map_dispatch_error : HeaderEnv → DispatchResult → Response → Response
map_dispatch_error env result out = elim result.route_error [
  | ErrorCode.method_not_allowed ↦
      set_allow env (allow_header_from_mask result.allowed_methods_mask)
        (assign_error env (method_not_allowed []) out)
  | _ ↦ map_route_error env result.route_error out
]

-- `dispatch_or_problem`
unfoldable pub dispatch_or_problem : HeaderEnv → List RouteEntry → Request → Exchange → Exchange
dispatch_or_problem env routes req x =
    let (info, y) = dispatch_with_info routes req x in
    if info.has_error then record y { out = map_dispatch_error env info y.out } else y

-- `router_handler::operator()`
unfoldable pub router_handler : HeaderEnv → List RouteEntry → Request → Response
router_handler env routes req =
    let x : Exchange = record { params = []; out = new_response } in
    (dispatch_or_problem env routes req x).out
