-- ===== src/Route/Pattern/Match.antt =====
-- When a pattern matches the parts of a path, and what it binds.
use visage_dvachevsky_tempre.Base.{
  ◌+◌, ◌≤◌, ◌<◌, ◌≡◌, ◌↔◌, refl, ap, Bool, true, List, [], ◌∷◌, ◌++◌, Bytes, bytes_eq, bytes_eq→eq,
  bytes_eq_refl, length, All, length-append, arith, inl, inr, append-nil, append_assoc, ◌⊎◌,
}
use visage_dvachevsky_tempre.Route.Params.{PathParams, ParamEntry, max_path_params, add}
use visage_dvachevsky_tempre.Route.Path.Laws.{IsSegment, join_path, split_path-join_path}
use visage_dvachevsky_tempre.Route.Pattern.{
  SegmentKind, literal, parameter, PathSegment, PathPattern, match_from, match_segments, match,
}
use visage_dvachevsky_tempre.Route.Pattern.Literal.{names_of, IsPattern}

-- The parts fit the segments: a literal is its part, a parameter takes any part but the empty one.
abbrev pub Fits : List PathSegment → List Bytes → Type 0
Fits [] [] = Unit {0}
Fits [] (a ∷ as') = ⊥
Fits (s ∷ ss) [] = ⊥
Fits (s ∷ ss) (a ∷ as') =
    elim s.kind [ literal ↦ s.value ≡ a | parameter ↦ 0 < length a ] × Fits ss as'

-- The parts that the parameters stand for, with the parameters' names.
abbrev pub bindings : List PathSegment → List Bytes → List ParamEntry
bindings [] parts = []
bindings (s ∷ ss) [] = []
bindings (s ∷ ss) (a ∷ as') = elim s.kind [
  | literal ↦ bindings ss as'
  | parameter ↦ (s.value, a) ∷ bindings ss as'
]

kind_cases : (k : SegmentKind) → (k ≡ literal) ⊎ (k ≡ parameter)
kind_cases literal = inl refl
kind_cases parameter = inr refl

add_fits :
    (name value : Bytes) (out : PathParams)
    → length out < max_path_params
    → add name value out ≡ out ++ (name, value) ∷ []
unfolding add
add_fits name value out h = ground arith

literal_fits : (v a : Bytes) → bytes_eq v a ≡ true → v ≡ a
literal_fits v a h = bytes_eq→eq v a h

-- With the names in place and room for them, a match adds the bindings.
match_from_complete :
    (ss : List PathSegment) (parts : List Bytes) (out : PathParams)
    → Fits ss parts
    → length out + length (names_of ss) ≤ max_path_params
    → match_from ss parts (names_of ss) out ≡ (true, out ++ bindings ss parts)
unfolding match_from
match_from_complete [] [] out h l = rw append-nil
match_from_complete [] (a ∷ as') out h l = elim h [ ]
match_from_complete (s ∷ ss) [] out h l = elim h [ ]
match_from_complete (s ∷ ss) (a ∷ as') out h l = elim (kind_cases s.kind) [
  | inl k ↦ ground (arith, k, h, bytes_eq_refl a, match_from_complete ss as' out)
  | inr k ↦ ground (
    arith,
    k,
    h,
    add_fits s.value a out,
    length-append out ((s.value, a) ∷ []),
    append_assoc out ((s.value, a) ∷ []) (bindings ss as'),
    match_from_complete ss as' (out ++ (s.value, a) ∷ []),
  )
]

match_from_sound :
    (ss : List PathSegment) (parts names : List Bytes) (out : PathParams)
    → length parts ≡ length ss
    → (match_from ss parts names out).0 ≡ true
    → Fits ss parts
unfolding match_from
match_from_sound [] [] names out e h = tt
match_from_sound [] (a ∷ as') names out e h = absurd (omega arith)
match_from_sound (s ∷ ss) [] names out e h = absurd (omega arith)
match_from_sound (s ∷ ss) (a ∷ as') [] out e h = ground (
  arith,
  literal_fits s.value a,
  match_from_sound ss as' [] out,
  match_from_sound ss as' [] (add [] a out),
)
match_from_sound (s ∷ ss) (a ∷ as') (n ∷ ns) out e h = ground (
  arith,
  literal_fits s.value a,
  match_from_sound ss as' (n ∷ ns) out,
  match_from_sound ss as' ns (add n a out),
)

length-names_of : (ss : List PathSegment) → length (names_of ss) ≤ length ss
length-names_of [] = omega arith
length-names_of (s ∷ ss) = ground (arith, length-names_of ss)

Fits-length :
    (ss : List PathSegment) (parts : List Bytes) → Fits ss parts → length parts ≡ length ss
Fits-length [] [] h = refl
Fits-length [] (a ∷ as') h = elim h [ ]
Fits-length (s ∷ ss) [] h = elim h [ ]
Fits-length (s ∷ ss) (a ∷ as') h = omega (arith, Fits-length ss as' h.1)

Fits-empty :
    (ss : List PathSegment) (parts : List Bytes)
    → length ss ≡ 0
    → length parts ≡ 0
    → Fits ss parts × (bindings ss parts ≡ [])
Fits-empty [] [] e f = (tt, refl)
Fits-empty [] (a ∷ as') e f = absurd (omega arith)
Fits-empty (s ∷ ss) parts e f = absurd (omega arith)

match_segments_sound :
    (p : PathPattern) (parts : List Bytes) (out : PathParams)
    → (match_segments p parts out).0 ≡ true
    → Fits p.segments parts
unfolding match_segments
match_segments_sound p parts out h =
    ground (arith, Fits-empty p.segments parts, match_from_sound p.segments parts p.param_names out)

match_segments_complete :
    (p : PathPattern) (parts : List Bytes)
    → IsPattern p
    → Fits p.segments parts
    → match_segments p parts [] ≡ (true, bindings p.segments parts)
unfolding match_segments
match_segments_complete p parts h f = ground (
  arith,
  Fits-empty p.segments parts,
  Fits-length p.segments parts f,
  length-names_of p.segments,
  h.names,
  match_from_complete p.segments parts [] f (omega (arith, length-names_of p.segments, h.few)),
)

-- For a pattern that `from_literal` accepts, `match_segments` succeeds exactly on the parts that fit
-- its segments, and then the parameters are the parts that its parameters stand for, under their
-- names and in order.
pub match_segments_iff :
    (p : PathPattern) (parts : List Bytes)
    → IsPattern p
    → (((match_segments p parts []).0 ≡ true) ↔ Fits p.segments parts)
      × (Fits p.segments parts → match_segments p parts [] ≡ (true, bindings p.segments parts))
match_segments_iff p parts h = (
  (
    match_segments_sound p parts [],
    λ f. ap (λ (r : Bool × PathParams). r.0) (match_segments_complete p parts h f),
  ),
  match_segments_complete p parts h,
)

-- A path made of non-empty parts without slashes that fit an accepted pattern is matched by it, and
-- binds the parts that stand at the parameters.
pub match-join_path :
    (p : PathPattern) (parts : List Bytes)
    → IsPattern p
    → All IsSegment parts
    → Fits p.segments parts
    → match p (join_path parts) [] ≡ (true, bindings p.segments parts)
unfolding match
match-join_path p parts h segs f = ground (
  arith,
  split_path-join_path parts segs (omega (arith, Fits-length p.segments parts f, h.few)),
  Fits-length p.segments parts f,
  Fits-empty p.segments parts,
  match_segments_complete p parts h f,
)
