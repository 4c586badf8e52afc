-- ===== src/Tests/NameListTests.antt =====
-- src/ai_cli/name_list.py on a few names.
use ai_cli_utils.Prelude.{◌≡◌, refl, ◌↔◌, true, false, [], ◌∷◌, In}
use ai_cli_utils.NameList.Edits.{one_edit_apart, OneEdit}
use ai_cli_utils.NameList.Edits.Sound.{one_edit_apart_iff}
use ai_cli_utils.NameList.Subset.{Text, one_edit_free_subset}
use ai_cli_utils.NameList.Subset.Greedy.{Independent, Near, one_edit_free_subset_maximal}

-- "ana", "nana", "anna" and "aan"
abbrev ana : Text
ana = b'a' ∷ b'n' ∷ b'a' ∷ []

abbrev nana : Text
nana = b'n' ∷ ana

abbrev anna : Text
anna = b'a' ∷ b'n' ∷ b'n' ∷ b'a' ∷ []

abbrev aan : Text
aan = b'a' ∷ b'a' ∷ b'n' ∷ []

apart :
    (one_edit_apart ana nana ≡ true)
    × (one_edit_apart ana aan ≡ true)
    × (one_edit_apart nana aan ≡ false)
    × (one_edit_apart ana ana ≡ false)
unfolding one_edit_apart
apart = (refl, refl, refl, refl)

-- "ana" has the most neighbours and is taken last
subset : one_edit_free_subset (ana ∷ nana ∷ aan ∷ nana ∷ []) ≡ aan ∷ nana ∷ []
unfolding one_edit_free_subset
subset = refl

one_edit_apart_iff_example : (one_edit_apart anna ana ≡ true) ↔ OneEdit anna ana
one_edit_apart_iff_example = one_edit_apart_iff anna ana

one_edit_free_subset_maximal_example :
    ((x : Text) → In x (one_edit_free_subset (ana ∷ nana ∷ [])) → In x (ana ∷ nana ∷ []))
    × Independent (one_edit_free_subset (ana ∷ nana ∷ []))
    × ((x : Text) → In x (ana ∷ nana ∷ []) → Near x (one_edit_free_subset (ana ∷ nana ∷ [])))
one_edit_free_subset_maximal_example = one_edit_free_subset_maximal (ana ∷ nana ∷ [])
