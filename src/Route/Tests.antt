-- ===== src/Route/Tests.antt =====
-- The theorems on the router at concrete inputs.
use visage_dvachevsky_tempre.Base.{
  ℕ, ◌≡◌, ◌↔◌, refl, true, false, none, List, [], ◌∷◌, ◌++◌, Bytes, codes, All, arith,
}
use visage_dvachevsky_tempre.Http.Method.{Method, get, post, ok}
use visage_dvachevsky_tempre.Http.Headers.{bytes_text, reset_storage}
use visage_dvachevsky_tempre.Http.Message.{Request, new_response}
use visage_dvachevsky_tempre.Route.Path.{split_path}
use visage_dvachevsky_tempre.Route.Path.Laws.{
  IsSegment, IsSplit, join_path, split_path-IsSplit, split_path-join_path,
}
use visage_dvachevsky_tempre.Route.Pattern.{
  PathPattern, accepted, add_segment, finish_literal, literal_from, from_literal, match_segments,
  literal, parameter,
}
use visage_dvachevsky_tempre.Route.Pattern.Literal.{IsPattern, from_literal-IsPattern}
use visage_dvachevsky_tempre.Route.Pattern.Match.{Fits, bindings, match_segments_iff}
use visage_dvachevsky_tempre.Route.Middleware.{Exchange, Handler, MiddlewareFn, run, run-append}
use visage_dvachevsky_tempre.Route.Allow.{allow_header_from_mask, listed, order}
use visage_dvachevsky_tempre.Route.Dispatch.{
  RouteEntry, find_best, find_methods, dispatch_with_info,
}
use visage_dvachevsky_tempre.Route.Dispatch.Choice.{IsChosen, find_best-IsChosen}
use visage_dvachevsky_tempre.Route.Dispatch.Errors.{
  Answers, offered, dispatch_with_info-Answers, allow_header-offered,
}

-- `/users/{id}`
abbrev user_pattern : PathPattern
user_pattern = record {
  segments =
      record { kind = literal; value = codes "users" }
      ∷ record { kind = parameter; value = codes "id" }
      ∷ [];
  param_names = codes "id" ∷ [];
  literal_count = 1;
}

user_parsed : from_literal (codes "/users/{id}") ≡ accepted user_pattern
unfolding from_literal literal_from add_segment finish_literal
user_parsed = refl

user_pattern-IsPattern : IsPattern user_pattern
user_pattern-IsPattern = from_literal-IsPattern (codes "/users/{id}") user_pattern user_parsed

from_literal-IsPattern_example : IsPattern user_pattern
from_literal-IsPattern_example =
    from_literal-IsPattern (codes "/users/{id}") user_pattern user_parsed

abbrev user_parts : List Bytes
user_parts = codes "users" ∷ codes "7" ∷ []

user-Fits : Fits user_pattern.segments user_parts
user-Fits = (refl, (omega arith, tt))

match_segments_iff_example :
    (((match_segments user_pattern user_parts []).0 ≡ true) ↔ Fits user_pattern.segments user_parts)
    × (Fits user_pattern.segments user_parts
        → match_segments user_pattern user_parts []
          ≡ (true, bindings user_pattern.segments user_parts))
match_segments_iff_example = match_segments_iff user_pattern user_parts user_pattern-IsPattern

user_segments : All IsSegment user_parts
user_segments = omega arith

split_path-IsSplit_example : IsSplit (split_path (codes "/a//b/"))
split_path-IsSplit_example = split_path-IsSplit (codes "/a//b/")

split_path-join_path_example :
    split_path (join_path user_parts) ≡ record { parts = user_parts; overflow = false }
split_path-join_path_example = split_path-join_path user_parts user_segments (omega arith)

abbrev answers : ℕ → Handler
answers s req x = (ok tt, record x { out = record x.out { status = s } })

-- A middleware that marks the response after the handler.
abbrev marks : MiddlewareFn
marks req x next = let (r, y) = next x in (r, record y { out = record y.out { chunked = true } })

abbrev routes : List RouteEntry
routes =
    record { method = get; pattern = user_pattern; handler = answers 200; middleware = marks ∷ [] }
    ∷ record { method = post; pattern = user_pattern; handler = answers 201; middleware = [] }
    ∷ []

abbrev request_of : Method → Request
request_of m = record {
  http_method = m;
  uri = codes "/users/7?full=1";
  headers = reset_storage;
  body = [];
}

abbrev start : Exchange
start = record { params = []; out = new_response }

run-append_example :
    (run ((marks ∷ []) ++ marks ∷ marks ∷ []) (answers 200) (request_of get) start
      ≡ run
          (marks ∷ [])
          (λ r y. marks r y (λ z. run (marks ∷ []) (answers 200) r z))
          (request_of get)
          start)
    × (run [] (answers 200) (request_of get) start ≡ answers 200 (request_of get) start)
run-append_example = run-append (marks ∷ []) (marks ∷ []) marks (answers 200) (request_of get) start

dispatch_with_info-Answers_example :
    Answers routes
      (request_of Method.del)
      start
      (dispatch_with_info routes (request_of Method.del) start)
dispatch_with_info-Answers_example = dispatch_with_info-Answers routes (request_of Method.del) start

find_best-IsChosen_example : IsChosen get user_parts routes (find_best get user_parts none routes)
find_best-IsChosen_example = find_best-IsChosen get user_parts routes

allow_header-offered_example :
    allow_header_from_mask (find_methods user_parts (false, 0) routes).1
    ≡ listed (offered user_parts routes order)
allow_header-offered_example = allow_header-offered user_parts routes
