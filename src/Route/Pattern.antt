-- ===== src/Route/Pattern.antt =====
-- `struct path_pattern` of core/include/katana/core/router.hpp: patterns from literals, matching and
-- the specificity score. `segments` and `param_names` hold the first `segment_count` and
-- `param_count` entries of the arrays.
pub mod Literal
pub mod Match
use visage_dvachevsky_tempre.Base.{
  ℕ, ◌+◌, ◌-◌, ◌*◌, Bool, true, false, not, ◌&&◌, ◌||◌, List, [], ◌∷◌, ◌++◌, Bytes, codes, bytes_eq,
  length, take, drop, leb, ltb, ◌==◌, if◌then◌else◌,
}
use visage_dvachevsky_tempre.Route.Params.{PathParams, max_path_params, add}
use visage_dvachevsky_tempre.Route.Path.{max_route_segments, SplitResult, split_path}

pub data SegmentKind : Type 0 where
  literal parameter : SegmentKind

pub record PathSegment : Type 0 where
  pub kind : SegmentKind
  pub value : Bytes

pub record PathPattern : Type 0 where
  pub segments : List PathSegment
  pub param_names : List Bytes
  pub literal_count : ℕ

abbrev pub empty_pattern : PathPattern
empty_pattern = record { segments = []; param_names = []; literal_count = 0 }

-- What `from_literal` throws while it is evaluated by the compiler.
pub data PatternError : Type 0 where
  empty_path no_leading_slash empty_segment too_many_segments : PatternError
  unterminated_parameter empty_parameter_name too_many_parameters : PatternError

pub data Parsed : Type 0 where
  accepted : PathPattern → Parsed
  thrown : PatternError → Parsed

abbrev pub last_byte : ℕ → Bytes → ℕ
last_byte c [] = c
last_byte c (d ∷ r) = last_byte d r

abbrev pub push_literal : Bytes → PathPattern → PathPattern
push_literal segment p = record p {
  segments = p.segments ++ record { kind = literal; value = segment } ∷ [];
  literal_count = p.literal_count + 1;
}

abbrev pub push_parameter : Bytes → PathPattern → PathPattern
push_parameter name p = record p {
  segments = p.segments ++ record { kind = parameter; value = name } ∷ [];
  param_names = p.param_names ++ name ∷ [];
}

-- The body of the loop, for the segment `raw[pos .. next_slash)`.
unfoldable pub add_segment : Bytes → PathPattern → Parsed
add_segment [] p = thrown empty_segment
add_segment (c ∷ r) p =
    if leb max_route_segments (length p.segments)
    then thrown too_many_segments
    else if c == b'{'
    then (if not (last_byte c r == b'}')
        then thrown unterminated_parameter
        else if leb (length (c ∷ r)) 2
        then thrown empty_parameter_name
        else if leb max_path_params (length p.param_names)
        then thrown too_many_parameters
        else accepted (push_parameter (take (length (c ∷ r) - 2) r) p))
    else accepted (push_literal (c ∷ r) p)

-- The end of the literal: there is nothing to add if a slash, or the leading one, came last.
unfoldable pub finish_literal : Bytes → PathPattern → Parsed
finish_literal [] p = accepted p
finish_literal (s ∷ segment) p = add_segment (s ∷ segment) p

-- The loop, over what is left of the literal, with the bytes of the segment that it is in.
unfoldable pub literal_from : Bytes → Bytes → PathPattern → Parsed
literal_from [] segment p = finish_literal segment p
literal_from (c ∷ r) segment p =
    let ended : Parsed = elim (add_segment segment p) [
      | accepted q ↦ literal_from r [] q
      | thrown e ↦ thrown e
    ] in
    let longer = literal_from r (segment ++ c ∷ []) p in if c == b'/' then ended else longer

unfoldable pub from_literal : Bytes → Parsed
from_literal [] = thrown empty_path
from_literal (c ∷ r) =
    if c == b'/' then literal_from r [] empty_pattern else thrown no_leading_slash

-- The loop of `match_segments`, over the segments of the pattern, the parts of the path and the
-- names that are left; what has been added to the parameters stays there after a mismatch.
unfoldable pub match_from :
    List PathSegment → List Bytes → List Bytes → PathParams → Bool × PathParams
match_from [] parts names out = (true, out)
match_from (s ∷ ss) [] names out = (false, out)
match_from (s ∷ ss) (actual ∷ parts) names out = elim s.kind [
  | literal ↦ if bytes_eq s.value actual then match_from ss parts names out else (false, out)
  | parameter ↦ if length actual == 0 then (false, out) else elim names [
    | [] ↦ match_from ss parts [] (add [] actual out)
    | n ∷ ns ↦ match_from ss parts ns (add n actual out)
  ]
]

unfoldable pub match_segments : PathPattern → List Bytes → PathParams → Bool × PathParams
match_segments p parts out =
    if length p.segments == 0 && length parts == 0
    then (true, out)
    else if length parts == length p.segments
    then match_from p.segments parts p.param_names out
    else (false, out)

unfoldable pub match : PathPattern → Bytes → PathParams → Bool × PathParams
match p path out =
    let split = split_path path in
    if length p.segments == 0 && (bytes_eq path (codes "/") || length path == 0)
    then (true, out)
    else if split.overflow
    then (false, out)
    else if length split.parts == length p.segments
    then match_segments p split.parts out
    else (false, out)

unfoldable pub specificity_score : PathPattern → ℕ
specificity_score p = p.literal_count * 16 + (max_route_segments - length p.param_names)
