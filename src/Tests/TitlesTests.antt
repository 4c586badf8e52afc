-- ===== src/Tests/TitlesTests.antt =====
-- The title "a-bb-kim", and the positional "bb".
use ai_cli_utils.Prelude.{
  ℕ, ◌≡◌, refl, Bool, false, ◌&&◌, ◌||◌, Option, none, some, List, [], ◌∷◌, ◌++◌, any, eqb, leb,
  if◌then◌else◌,
}
use ai_cli_utils.Titles.{
  Text, unset, compose_kind, segment, label_only, dash, Parsing, parsed, int_raises, parse_title,
  classify_positional, label_kind,
}
use ai_cli_utils.Titles.Parsed.{Joined, Agrees, parse_title-Joined, classify_positional-Agrees}

-- the decimal digits, and the superscript two, which is no integer
abbrev digit : ℕ → Bool
digit c = (leb 48 c && leb c 57) || eqb c 178

abbrev value : Text → Option ℕ
value t = if any (λ c. eqb c 178) t then none else some 7

abbrev name_set : List Text
name_set = (107 ∷ 105 ∷ 109 ∷ []) ∷ []

abbrev stem : Text
stem = 97 ∷ []

abbrev label : Text
label = 98 ∷ 98 ∷ []

abbrev kim : Text
kim = 107 ∷ 105 ∷ 109 ∷ []

parse_example :
    parse_title digit value name_set (97 ∷ 45 ∷ 98 ∷ 98 ∷ 45 ∷ 107 ∷ 105 ∷ 109 ∷ []) stem
    ≡ some (parsed (record { stem = stem; label = some label; name = some kim; index = none }))
unfolding parse_title
parse_example = refl

raise_example : parse_title digit value name_set (97 ∷ 45 ∷ 178 ∷ []) stem ≡ some int_raises
unfolding parse_title
raise_example = refl

classify_example : classify_positional digit value name_set label ≡ label_kind label
unfolding classify_positional
classify_example = refl

compose_example : compose_kind (some label) none unset false ≡ segment label_only
unfolding compose_kind
compose_example = refl

parse_title-Joined_example :
    (p : Parsing) × ((parse_title digit value name_set (stem ++ dash ∷ (label ++ dash ∷ kim)) stem
        ≡ some p)
      × Joined digit value name_set stem label kim p)
parse_title-Joined_example = parse_title-Joined digit value name_set stem label kim refl

classify_positional-Agrees_example :
    (p : Parsing) × ((parse_title digit value name_set (stem ++ dash ∷ label) stem ≡ some p)
      × Agrees digit value name_set (classify_positional digit value name_set label) p)
classify_positional-Agrees_example = classify_positional-Agrees digit value name_set stem label refl
