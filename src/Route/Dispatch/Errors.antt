-- ===== src/Route/Dispatch/Errors.antt =====
-- What `dispatch_with_info` answers (core/include/katana/core/router.hpp): the route that it runs,
-- and the two errors of its own.
use mathlib.Core.Path.{subst}
use Prim.Native.Nat.{bit_or}
use visage_dvachevsky_tempre.Base.{
  ◌≤◌, ℕ, ◌<◌, ◌≡◌, refl, sym, ◌∙◌, ap, Bool, true, false, ◌&&◌, ◌||◌, not, none, List, [], ◌∷◌,
  Bytes, All, if◌then◌else◌, arith, Bool-cases, Option-cases, inl, inr,
}
use visage_dvachevsky_tempre.Http.Method.{
  Method, get, post, put, del, patch, head, options, unknown, method_index,
}
use visage_dvachevsky_tempre.Http.Message.{Request}
use visage_dvachevsky_tempre.Route.Path.Laws.{segment_count, split_path-overflow}
use visage_dvachevsky_tempre.Route.Path.{max_route_segments, split_path, strip_query}
use visage_dvachevsky_tempre.Route.Middleware.{Exchange, run}
use visage_dvachevsky_tempre.Route.Allow.{
  is_same, is_unknown, has_method, has_method-bit_or, bit_or-bound, method_bit, in_mask, listed,
  order, allow_header_from_mask, allow_header_from_mask-lists,
}
use visage_dvachevsky_tempre.Route.Dispatch.{
  RouteEntry, Best, DispatchResult, path_matches, route_matches, find_best, find_methods, no_route,
  wrong_method, of_handler, phase_two, dispatch_with_info,
}
use visage_dvachevsky_tempre.Route.Dispatch.Choice.{IsChoice, IsChosen, find_best-IsChosen}

-- Whether a route has the path, and whether one has it under a method, which is not `unknown`.
unfoldable pub is_path : List Bytes → List RouteEntry → Bool
is_path parts [] = false
is_path parts (e ∷ es) = path_matches parts e || is_path parts es

unfoldable pub offers : List Bytes → Method → List RouteEntry → Bool
offers parts m [] = false
offers parts m (e ∷ es) =
    (path_matches parts e && is_same e.method m && not (is_unknown m)) || offers parts m es

unfoldable pub offered : List Bytes → List RouteEntry → List Method → List Method
offered parts routes [] = []
offered parts routes (m ∷ ms) =
    if offers parts m routes then m ∷ offered parts routes ms else offered parts routes ms

-- What phase 2 has collected.
record Collected (parts : List Bytes) (routes : List RouteEntry) (matched : Bool) (mask : ℕ)
    (r : Bool × ℕ) : Type 0 where
  found : r.0 ≡ (matched || is_path parts routes)
  bound : r.1 < 128
  methods : (m : Method) → has_method r.1 m ≡ (has_method mask m || offers parts m routes)

or_assoc : (a b c : Bool) → (a || b || c) ≡ (a || (b || c))
or_assoc a b c = ground arith

or_false : (a : Bool) → (a || false) ≡ a
or_false a = ground arith

find_methods-Collected :
    (parts : List Bytes) (routes : List RouteEntry) (matched : Bool) (mask : ℕ)
    → mask < 128
    → Collected parts routes matched mask (find_methods parts (matched, mask) routes)
unfolding find_methods is_path offers
find_methods-Collected parts [] matched mask h = record {
  found = sym (or_false matched);
  bound = h;
  methods = λ m. sym (or_false (has_method mask m));
}
find_methods-Collected parts (e ∷ es) matched mask h = elim (Bool-cases (path_matches parts e)) [
  | inl y ↦
      let rest : Collected parts es true (bit_or mask (method_bit e.method))
          (find_methods parts (true, bit_or mask (method_bit e.method)) es) =
        find_methods-Collected parts es true (bit_or mask (method_bit e.method))
          (bit_or-bound mask e.method h) in
      let whole : Collected parts (e ∷ es) matched mask
          (find_methods parts (true, bit_or mask (method_bit e.method)) es) =
        record {
          found = ground (arith, rest.found, y);
          bound = rest.bound;
          methods = λ m. ground (arith, rest.methods m, has_method-bit_or mask e.method m h, y);
        } in
      subst (λ s. Collected parts (e ∷ es) matched mask (find_methods parts s es))
        (sym (ground (arith, y))) whole
  | inr n ↦
      let rest : Collected parts es matched mask (find_methods parts (matched, mask) es) =
        find_methods-Collected parts es matched mask h in
      let whole : Collected parts (e ∷ es) matched mask (find_methods parts (matched, mask) es) =
        record {
          found = ground (arith, rest.found, n);
          bound = rest.bound;
          methods = λ m. ground (arith, rest.methods m, n);
        } in
      subst (λ s. Collected parts (e ∷ es) matched mask (find_methods parts s es))
        (sym (ground (arith, n))) whole
]

-- What the router may answer a request, with the exchange that it leaves.
pub data Answers (routes : List RouteEntry) (req : Request) (x : Exchange)
    : DispatchResult × Exchange → Type 0 where
  too_long :
      max_route_segments < segment_count (strip_query req.uri) → Answers routes req x (no_route, x)
  runs :
      (b : Best)
      → segment_count (strip_query req.uri) ≤ max_route_segments
      → IsChoice req.http_method (split_path (strip_query req.uri)).parts routes b
      → Answers routes req x
          (of_handler (run b.route.middleware b.route.handler req (record x { params = b.params })))
  no_path :
      segment_count (strip_query req.uri) ≤ max_route_segments
      → is_path (split_path (strip_query req.uri)).parts routes ≡ false
      → Answers routes req x (no_route, x)
  other_method :
      (mask : ℕ)
      → segment_count (strip_query req.uri) ≤ max_route_segments
      → is_path (split_path (strip_query req.uri)).parts routes ≡ true
      → All
          (λ e. route_matches req.http_method (split_path (strip_query req.uri)).parts e ≡ false)
          routes
      → ((m : Method)
          → has_method mask m ≡ offers (split_path (strip_query req.uri)).parts m routes)
      → Answers routes req x (wrong_method mask, x)

no_mask : (m : Method) → has_method 0 m ≡ false
unfolding method_bit method_index
no_mask get = refl
no_mask post = refl
no_mask put = refl
no_mask del = refl
no_mask patch = refl
no_mask head = refl
no_mask options = refl
no_mask unknown = refl

phase_two-Answers :
    (routes : List RouteEntry) (req : Request) (x : Exchange)
    → segment_count (strip_query req.uri) ≤ max_route_segments
    → All
        (λ e. route_matches req.http_method (split_path (strip_query req.uri)).parts e ≡ false)
        routes
    → Answers routes req x (phase_two routes (split_path (strip_query req.uri)).parts x)
unfolding phase_two
phase_two-Answers routes req x o no_match =
    let parts : List Bytes = (split_path (strip_query req.uri)).parts in
    let found : Bool × ℕ = find_methods parts (false, 0) routes in
    let c : Collected parts routes false 0 found =
      find_methods-Collected parts routes false 0 (omega arith) in
    elim (Bool-cases (is_path parts routes)) [
      | inl y ↦
          subst (Answers routes req x) (sym (ground (arith, c.found, y)))
            (other_method found.1 o y no_match (λ m. ground (arith, c.methods m, no_mask m)))
      | inr n ↦ subst (Answers routes req x) (sym (ground (arith, c.found, n))) (no_path o n)
    ]

-- A request whose path has more than 16 segments gets `not_found`. Otherwise a route that has the
-- method and matches the path runs, the first of those with the highest score, with the parameters
-- that its pattern bound. If there is none, the answer is `method_not_allowed`, with the mask of
-- exactly the known methods under which a route has the path, if some route has it, and `not_found`
-- if not; in both cases the exchange is left as it was.
pub dispatch_with_info-Answers :
    (routes : List RouteEntry) (req : Request) (x : Exchange)
    → Answers routes req x (dispatch_with_info routes req x)
unfolding dispatch_with_info
dispatch_with_info-Answers routes req x =
    let parts : List Bytes = (split_path (strip_query req.uri)).parts in
    let chosen : IsChosen req.http_method parts routes
        (find_best req.http_method parts none routes) =
      find_best-IsChosen req.http_method parts routes in
    let counted = split_path-overflow (strip_query req.uri) in
    elim (Bool-cases (split_path (strip_query req.uri)).overflow) [
      | inl o ↦
          subst (Answers routes req x) (sym (ground (arith, o)))
            (too_long (ground (arith, o, counted)))
      | inr o ↦ elim (Option-cases (find_best req.http_method parts none routes)) [
        | inl n ↦ subst (Answers routes req x) (sym (ground (arith, o, n))) (
            phase_two-Answers routes req x (ground (arith, o, counted))
              (subst (IsChosen req.http_method parts routes) n chosen))
        | inr (b, y) ↦ subst (Answers routes req x) (sym (ground (arith, o, y))) (
            runs b (ground (arith, o, counted))
              (subst (IsChosen req.http_method parts routes) y chosen))
      ]
    ]

in_mask_same :
    (mask : ℕ) (parts : List Bytes) (routes : List RouteEntry)
    → ((m : Method) → has_method mask m ≡ offers parts m routes)
    → (ms : List Method) → in_mask mask ms ≡ offered parts routes ms
unfolding in_mask offered
in_mask_same mask parts routes h [] = refl
in_mask_same mask parts routes h (m ∷ ms) = ground (arith, h m, in_mask_same mask parts routes h ms)

-- The Allow header of a `method_not_allowed` lists the names of exactly the methods under which a
-- route has the path, in the order of `order`.
pub allow_header-offered :
    (parts : List Bytes) (routes : List RouteEntry)
    → allow_header_from_mask (find_methods parts (false, 0) routes).1
      ≡ listed (offered parts routes order)
allow_header-offered parts routes =
    let c : Collected parts routes false 0 (find_methods parts (false, 0) routes) =
      find_methods-Collected parts routes false 0 (omega arith) in
    allow_header_from_mask-lists (find_methods parts (false, 0) routes).1
    ∙ ap listed (
        in_mask_same (find_methods parts (false, 0) routes).1 parts routes
          (λ m. ground (arith, c.methods m, no_mask m)) order)
