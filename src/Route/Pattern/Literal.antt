-- ===== src/Route/Pattern/Literal.antt =====
-- What a pattern that `from_literal` accepts satisfies.
use visage_dvachevsky_tempre.Base.{
  ◌+◌, ◌-◌, ◌≤◌, ◌<◌, ◌≡◌, refl, List, [], ◌∷◌, ◌++◌, Bytes, length, take, All, length-append,
  length-take, ◌==◌, arith, Bool-cases, inl, inr, append-nil,
}
use mathlib.Core.Path.{subst}
use visage_dvachevsky_tempre.Route.Path.{max_route_segments}
use visage_dvachevsky_tempre.Route.Pattern.{
  literal, parameter, PathSegment, PathPattern, empty_pattern, Parsed, accepted, thrown,
  push_literal, push_parameter, add_segment, finish_literal, literal_from, from_literal,
}

-- The names of the parameters among the segments, in order.
abbrev pub names_of : List PathSegment → List Bytes
names_of [] = []
names_of (s ∷ ss) = elim s.kind [ literal ↦ names_of ss | parameter ↦ s.value ∷ names_of ss ]

names_of-append : (ss ts : List PathSegment) → names_of (ss ++ ts) ≡ names_of ss ++ names_of ts
names_of-append [] ts = refl
names_of-append (s ∷ ss) ts = ground (arith, names_of-append ss ts)

pub record IsPattern (p : PathPattern) : Type 0 where
  pub few : length p.segments ≤ max_route_segments
  pub names : p.param_names ≡ names_of p.segments
  pub counted : p.literal_count + length p.param_names ≡ length p.segments
  pub filled : All (λ (s : PathSegment). 0 < length s.value) p.segments

abbrev LiteralOk : Parsed → Type 0
LiteralOk (accepted p) = IsPattern p
LiteralOk (thrown e) = Unit {0}

filled-append :
    (ss : List PathSegment) (s : PathSegment)
    → All (λ (s : PathSegment). 0 < length s.value) ss
    → 0 < length s.value
    → All (λ (s : PathSegment). 0 < length s.value) (ss ++ s ∷ [])
filled-append [] s h hs = (hs, tt)
filled-append (t ∷ ss) s (ht, h) hs = (ht, filled-append ss s h hs)

push_literal-IsPattern :
    (v : Bytes) (p : PathPattern)
    → IsPattern p
    → 0 < length v
    → length p.segments < max_route_segments
    → IsPattern (push_literal v p)
push_literal-IsPattern v p h f l =
    let s : PathSegment = record { kind = literal; value = v } in
    record {
      few = omega (arith, length-append p.segments (s ∷ []));
      names = rw (names_of-append p.segments (s ∷ []), append-nil) h.names;
      counted = omega (arith, h.counted, length-append p.segments (s ∷ []));
      filled = filled-append p.segments s h.filled f;
    }

push_parameter-IsPattern :
    (v : Bytes) (p : PathPattern)
    → IsPattern p
    → 0 < length v
    → length p.segments < max_route_segments
    → IsPattern (push_parameter v p)
push_parameter-IsPattern v p h f l =
    let s : PathSegment = record { kind = parameter; value = v } in
    record {
      few = omega (arith, length-append p.segments (s ∷ []));
      names = rw (names_of-append p.segments (s ∷ []), h.names);
      counted = omega (
        arith,
        h.counted,
        length-append p.segments (s ∷ []),
        length-append p.param_names (v ∷ []),
      );
      filled = filled-append p.segments s h.filled f;
    }

add_segment-LiteralOk : (s : Bytes) (p : PathPattern) → IsPattern p → LiteralOk (add_segment s p)
unfolding add_segment
add_segment-LiteralOk [] p h = tt
add_segment-LiteralOk (c ∷ r) p h = ground (
  arith,
  push_literal-IsPattern (c ∷ r) p h (omega arith),
  push_parameter-IsPattern (take (length (c ∷ r) - 2) r) p h,
  length-take (length (c ∷ r) - 2) r,
)

next_segment :
    (r : Bytes) (o : Parsed)
    → LiteralOk o
    → ((q : PathPattern) → IsPattern q → LiteralOk (literal_from r [] q))
    → LiteralOk (elim o [ accepted q ↦ literal_from r [] q | thrown e ↦ thrown e ])
next_segment r (accepted q) h k = k q h
next_segment r (thrown e) h k = tt

finish_literal-LiteralOk :
    (s : Bytes) (p : PathPattern) → IsPattern p → LiteralOk (finish_literal s p)
unfolding finish_literal
finish_literal-LiteralOk [] p h = h
finish_literal-LiteralOk (b ∷ s) p h = add_segment-LiteralOk (b ∷ s) p h

literal_from-LiteralOk :
    (r s : Bytes) (p : PathPattern) → IsPattern p → LiteralOk (literal_from r s p)
unfolding literal_from
literal_from-LiteralOk [] s p h = finish_literal-LiteralOk s p h
literal_from-LiteralOk (c ∷ r) s p h = elim (Bool-cases (c == b'/')) [
  | inl e ↦
      rw (e, literal_from)
        (next_segment r (add_segment s p) (add_segment-LiteralOk s p h)
          (λ q k. literal_from-LiteralOk r [] q k))
  | inr e ↦ rw (e, literal_from) (literal_from-LiteralOk r (s ++ c ∷ []) p h)
]

empty-IsPattern : IsPattern empty_pattern
empty-IsPattern = record { few = omega arith; names = refl; counted = omega arith; filled = tt }

-- A pattern that `from_literal` accepts has at most 16 segments, none of them empty; each is counted
-- as a literal or has its parameter's name listed, in the order of the segments.
pub from_literal-IsPattern :
    (raw : Bytes) (p : PathPattern) → from_literal raw ≡ accepted p → IsPattern p
from_literal-IsPattern raw p h = subst LiteralOk h (ok_literal raw)
  where
    ok_literal : (raw : Bytes) → LiteralOk (from_literal raw)
    ok_literal [] = unfold from_literal in tt
    ok_literal (c ∷ r) =
        unfold from_literal in
        ground (arith, literal_from-LiteralOk r [] empty_pattern empty-IsPattern)
