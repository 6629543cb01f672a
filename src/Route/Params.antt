-- ===== src/Route/Params.antt =====
-- `struct path_params` of core/include/katana/core/router.hpp. The list holds the first `size_`
-- entries of the array.
use visage_dvachevsky_tempre.Base.{
  ℕ, ◌≤◌, Option, none, some, List, [], ◌∷◌, ◌++◌, Bytes, bytes_eq, length, length-append, ltb,
  if◌then◌else◌, arith,
}

abbrev pub max_path_params : ℕ
max_path_params = 16

abbrev pub ParamEntry : Type 0
ParamEntry = Bytes × Bytes

abbrev pub PathParams : Type 0
PathParams = List ParamEntry

unfoldable pub add : Bytes → Bytes → PathParams → PathParams
add name value ps = if ltb (length ps) max_path_params then ps ++ (name, value) ∷ [] else ps

unfoldable pub get : Bytes → PathParams → Option Bytes
get name [] = none
get name ((n, v) ∷ ps) = if bytes_eq n name then some v else get name ps

-- The parameters never outgrow the array, and one that fits goes behind the others.
pub length-add :
    (name value : Bytes) (ps : PathParams)
    → length ps ≤ max_path_params
    → length (add name value ps) ≤ max_path_params
unfolding add
length-add name value ps h = ground (arith, length-append ps ((name, value) ∷ []))
