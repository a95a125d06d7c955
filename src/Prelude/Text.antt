-- ===== src/Prelude/Text.antt =====
-- f-strings and `str.join` on native texts.
use Prim.Native.String.{String, ◌++◌}
use mathlib.Core.Path.{◌≡◌}
use mathlib.Core.List.{List, [], ◌∷◌}
use text.Mathlib.TextLemmas.{append_assoc}

-- An f-string is the texts between its braces and those that fill them, one after the other.
abbrev pub concat : List String → String
concat [] = ""
concat (s ∷ []) = s
concat (s ∷ t ∷ ts) = s ++ concat (t ∷ ts)

-- `sep.join(parts)`
abbrev pub join : String → List String → String
join sep [] = ""
join sep (s ∷ []) = s
join sep (s ∷ t ∷ ts) = s ++ (sep ++ join sep (t ∷ ts))

-- A separator inside a part cannot be told from one between two parts.
pub join_shift :
    (sep s t u w : String) (ts : List String)
    → join sep ((s ++ (sep ++ t)) ∷ u ∷ w ∷ ts) ≡ join sep (s ∷ (t ++ (sep ++ u)) ∷ w ∷ ts)
join_shift sep s t u w ts = simp append_assoc
