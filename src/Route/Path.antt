-- ===== src/Route/Path.antt =====
-- `path_pattern::split_path` and `router::strip_query` of core/include/katana/core/router.hpp.
pub mod Laws
use visage_dvachevsky_tempre.Base.{
  ℕ, Bool, true, false, ◌||◌, List, [], ◌∷◌, ◌++◌, Bytes, length, leb, ◌==◌, if◌then◌else◌,
}

abbrev pub max_route_segments : ℕ
max_route_segments = 16

-- `split_result`: the list holds the first `count` parts.
pub record SplitResult : Type 0 where
  pub parts : List Bytes
  pub overflow : Bool

-- Where the pointer of `split_path` stands: among slashes, or in a segment of which the bytes are
-- given.
pub data Cursor : Type 0 where
  between : Cursor
  inside : Bytes → Cursor

-- The end of a segment.
abbrev pub take_segment : Bytes → List Bytes → SplitResult → SplitResult
take_segment segment parts rest =
    if leb max_route_segments (length parts)
    then record { parts = parts; overflow = true }
    else rest

unfoldable pub split_from : Cursor → Bytes → List Bytes → SplitResult
split_from between [] parts = record { parts = parts; overflow = false }
split_from between (c ∷ r) parts =
    split_from (if c == b'/' then between else inside (c ∷ [])) r parts
split_from (inside segment) [] parts =
    take_segment segment parts (record { parts = parts ++ segment ∷ []; overflow = false })
split_from (inside segment) (c ∷ r) parts =
    let ended = split_from between r (parts ++ segment ∷ []) in
    let longer = split_from (inside (segment ++ c ∷ [])) r parts in
    if c == b'/' then take_segment segment parts ended else longer

unfoldable pub split_path : Bytes → SplitResult
unfolding split_from
split_path path = split_from between path []

unfoldable pub strip_query : Bytes → Bytes
strip_query [] = []
strip_query (c ∷ r) = if c == b'?' || c == b'#' then [] else c ∷ strip_query r
