-- ===== src/Route/Path/Laws.antt =====
-- What splitting a path gives, and that it undoes joining.
use visage_dvachevsky_tempre.Base.{
  ℕ, ◌+◌, ◌≤◌, ◌<◌, ◌≡◌, ◌≢◌, refl, ap, ◌∙◌, Bool, true, false, ltb, if◌then◌else◌, List, [], ◌∷◌,
  ◌++◌, Bytes, length, All, All-append, length-append, ◌==◌, arith, Bool-cases, inl, inr,
  append-nil, append_assoc,
}
use visage_dvachevsky_tempre.Route.Path.{
  max_route_segments, SplitResult, Cursor, between, inside, split_from, split_path, strip_query,
}

abbrev pub HasNoSlash : Bytes → Type 0
HasNoSlash s = All (λ c. c ≢ b'/') s

abbrev pub IsSegment : Bytes → Type 0
IsSegment s = (0 < length s) × HasNoSlash s

-- The path of the segments, each behind a slash.
unfoldable pub join_path : List Bytes → Bytes
join_path [] = []
join_path (s ∷ ss) = b'/' ∷ (s ++ join_path ss)

abbrev CursorOk : Cursor → Type 0
CursorOk between = Unit {0}
CursorOk (inside s) = IsSegment s

-- What a result of the splitting satisfies.
pub record IsSplit (r : SplitResult) : Type 0 where
  pub segments : All IsSegment r.parts
  pub few : length r.parts ≤ max_route_segments
  pub full : r.overflow ≡ true → length r.parts ≡ max_route_segments

split_from-IsSplit :
    (k : Cursor) (p : Bytes) (parts : List Bytes)
    → CursorOk k
    → All IsSegment parts
    → length parts ≤ max_route_segments
    → IsSplit (split_from k p parts)
unfolding split_from
split_from-IsSplit between [] parts h a l = ground arith
split_from-IsSplit between (c ∷ r) parts h a l = elim (Bool-cases (c == b'/')) [
  | inl e ↦ rw (e, split_from) (split_from-IsSplit between r parts tt a l)
  | inr e ↦ rw (e, split_from) (split_from-IsSplit (inside (c ∷ [])) r parts (ground arith) a l)
]
split_from-IsSplit (inside s) [] parts h a l =
    ground (arith, length-append parts (s ∷ []), All-append IsSegment parts (s ∷ []) a (h, tt))
split_from-IsSplit (inside s) (c ∷ r) parts h a l = elim (Bool-cases (c == b'/')) [
  | inl e ↦ ground (
    arith,
    length-append parts (s ∷ []),
    split_from-IsSplit between r (parts ++ s ∷ []) tt
        (All-append IsSegment parts (s ∷ []) a (h, tt)),
  )
  | inr e ↦
      rw (e, split_from)
        (split_from-IsSplit (inside (s ++ c ∷ [])) r parts
          (
            omega (arith, length-append s (c ∷ [])),
            All-append (λ c. c ≢ b'/') s (c ∷ []) h.1 (ground arith, tt),
          )
          a l)
]

-- Every part that `split_path` returns is non-empty and has no slash, there are at most 16 of them,
-- and it reports an overflow only with 16 parts taken.
pub split_path-IsSplit : (p : Bytes) → IsSplit (split_path p)
unfolding split_path
split_path-IsSplit p = split_from-IsSplit between p [] tt tt (omega arith)

-- The segments that start in a path; the test says whether a slash stands in front of it.
unfoldable pub segments_from : Bool → Bytes → ℕ
segments_from behind_slash [] = 0
segments_from behind_slash (c ∷ r) =
    (if c == b'/' then 0 else if behind_slash then 1 else 0) + segments_from (c == b'/') r

-- The number of longest non-empty parts without a slash.
unfoldable pub segment_count : Bytes → ℕ
unfolding segments_from
segment_count p = segments_from true p

-- The segments from the cursor on, that of the cursor included.
abbrev from_cursor : Cursor → Bytes → ℕ
from_cursor between p = segments_from true p
from_cursor (inside s) p = 1 + segments_from false p

split_from-overflow :
    (k : Cursor) (p : Bytes) (parts : List Bytes)
    → length parts ≤ max_route_segments
    → (split_from k p parts).overflow ≡ ltb max_route_segments (length parts + from_cursor k p)
unfolding split_from segments_from
split_from-overflow between [] parts l = ground arith
split_from-overflow between (c ∷ r) parts l = elim (Bool-cases (c == b'/')) [
  | inl e ↦ ground (arith, e, split_from-overflow between r parts l)
  | inr e ↦ ground (arith, e, split_from-overflow (inside (c ∷ [])) r parts l)
]
split_from-overflow (inside s) [] parts l = ground arith
split_from-overflow (inside s) (c ∷ r) parts l = elim (Bool-cases (c == b'/')) [
  | inl e ↦
      ground
        (arith, e, length-append parts (s ∷ []), split_from-overflow between r (parts ++ s ∷ []))
  | inr e ↦ ground (arith, e, split_from-overflow (inside (s ++ c ∷ [])) r parts l)
]

-- An overflow is reported exactly for a path with more than 16 segments.
pub split_path-overflow :
    (p : Bytes) → (split_path p).overflow ≡ ltb max_route_segments (segment_count p)
unfolding split_path segment_count
split_path-overflow p =
    split_from-overflow between p [] (omega arith)
    ∙ ap (λ (n : ℕ). ltb max_route_segments n) (omega arith)

-- The bytes of a segment are collected, up to the slash or the end behind it.
split_from-segment :
    (s t : Bytes) (r : Bytes) (parts : List Bytes)
    → HasNoSlash t
    → split_from (inside s) (t ++ r) parts ≡ split_from (inside (s ++ t)) r parts
unfolding split_from
split_from-segment s [] r parts h = rw append-nil
split_from-segment s (c ∷ t) r parts (hc, ht) =
    rw (← append_assoc s (c ∷ []) t) (ground (arith, split_from-segment (s ++ c ∷ []) t r parts ht))

inside_join :
    (s : Bytes) (ss parts : List Bytes)
    → length parts < max_route_segments
    → split_from (inside s) (join_path ss) parts
      ≡ split_from between (join_path ss) (parts ++ s ∷ [])
unfolding join_path split_from
inside_join s [] parts l = ground arith
inside_join s (t ∷ ss) parts l = ground arith

split_from-join :
    (ss parts : List Bytes)
    → All IsSegment ss
    → length parts + length ss ≤ max_route_segments
    → split_from between (join_path ss) parts ≡ record { parts = parts ++ ss; overflow = false }
split_from-join [] parts h l = unfold join_path split_from in rw append-nil
split_from-join ([] ∷ ss) parts (h, hs) l = absurd (omega arith)
split_from-join ((c ∷ t) ∷ ss) parts (h, hs) l =
    enter
    ∙ split_from-segment (c ∷ []) t (join_path ss) parts h.1.1
    ∙ inside_join (c ∷ t) ss parts (omega arith)
    ∙ split_from-join ss (parts ++ (c ∷ t) ∷ []) hs
        (omega (arith, length-append parts ((c ∷ t) ∷ [])))
    ∙ regroup
  where
    enter :
        split_from between (join_path ((c ∷ t) ∷ ss)) parts
        ≡ split_from (inside (c ∷ [])) (t ++ join_path ss) parts
    enter = unfold join_path split_from in ground (arith, h.1.0)

    regroup :
        ◌≡◌ {A = SplitResult}
          (record { parts = (parts ++ (c ∷ t) ∷ []) ++ ss; overflow = false })
          (record { parts = parts ++ (c ∷ t) ∷ ss; overflow = false })
    regroup = rw (append_assoc parts ((c ∷ t) ∷ []) ss)

-- Splitting the path of at most 16 segments, each non-empty and free of slashes, gives them back.
pub split_path-join_path :
    (ss : List Bytes)
    → All IsSegment ss
    → length ss ≤ max_route_segments
    → split_path (join_path ss) ≡ record { parts = ss; overflow = false }
unfolding split_path
split_path-join_path ss h l = split_from-join ss [] h (omega arith)

-- The query string and the fragment are cut off: what `strip_query` leaves has neither mark, and on
-- a path without them, followed by nothing or by a query, it is that path.
pub strip_query_lem :
    (p q : Bytes)
    → All (λ c. (c ≢ b'?') × (c ≢ b'#')) p
    → (strip_query (p ++ b'?' ∷ q) ≡ p) × (strip_query (p ++ b'#' ∷ q) ≡ p) × (strip_query p ≡ p)
unfolding strip_query
strip_query_lem [] q h = (refl, refl, refl)
strip_query_lem (c ∷ p) q (hc, hp) = ground (arith, strip_query_lem p q hp)
