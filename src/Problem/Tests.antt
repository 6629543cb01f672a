-- ===== src/Problem/Tests.antt =====
-- The theorem on the escaped text at a concrete input.
use visage_dvachevsky_tempre.Base.{Bytes, [], ◌∷◌, ◌++◌, codes, arith}
use visage_dvachevsky_tempre.Problem.{json_escaped}
use visage_dvachevsky_tempre.Problem.Escape.{Denotes, json_escaped-Denotes}

-- A text with a quote, a line feed and a control character.
abbrev awkward : Bytes
awkward = codes "say \"hi\"" ++ b'\n' ∷ 0x1f ∷ []

json_escaped-Denotes_example : Denotes (json_escaped awkward) awkward
json_escaped-Denotes_example = json_escaped-Denotes awkward (omega arith)
