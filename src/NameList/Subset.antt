-- ===== src/NameList/Subset.antt =====
-- `one_edit_free_subset` of src/ai_cli/name_list.py.
pub mod Greedy
use ai_cli_utils.Prelude.{
  ℕ, Bool, true, false, ◌&&◌, ◌||◌, List, [], ◌∷◌, ◌++◌, length, any, keep, sort_by, list_eq, eqb,
  ltb, if◌then◌else◌,
}
use ai_cli_utils.NameList.Edits.{one_edit_apart}

abbrev pub Text : Type 0
Text = List ℕ

-- `name in texts`
abbrev pub member : Text → List Text → Bool
member name texts = any (λ other. list_eq name other) texts

-- `set(names)`: each name once
abbrev pub dedup : List Text → List Text
dedup [] = []
dedup (x ∷ xs) = let rest = dedup xs in if member x rest then rest else x ∷ rest

-- the order of Python's texts: code point by code point
abbrev pub text_le : Text → Text → Bool
text_le [] b = true
text_le (x ∷ a) [] = false
text_le (x ∷ a) (y ∷ b) = ltb x y || eqb x y && text_le a b

-- `{other for other in pool if one_edit_apart(name, other)}`
unfoldable pub neighbours : List Text → Text → List Text
unfolding one_edit_apart
neighbours pool name = keep (one_edit_apart name) pool

-- the key `(len(neighbours[item]), item)`
abbrev pub key_le : List Text → Text → Text → Bool
key_le pool a b =
    let m = length (neighbours pool a) in
    let n = length (neighbours pool b) in ltb m n || eqb m n && text_le a b

-- the loop over the ordered pool
unfoldable pub greedy : List Text → List Text → List Text → List Text → List Text
unfolding neighbours
greedy pool [] chosen excluded = chosen
greedy pool (name ∷ rest) chosen excluded =
    let passed = greedy pool rest chosen excluded in
    let picked = greedy pool rest (chosen ++ name ∷ []) (name ∷ neighbours pool name ++ excluded) in
    if member name excluded then passed else picked

unfoldable pub one_edit_free_subset : List Text → List Text
unfolding greedy
one_edit_free_subset names =
    let pool = sort_by text_le (dedup names) in
    sort_by text_le (greedy pool (sort_by (key_le pool) pool) [] [])
