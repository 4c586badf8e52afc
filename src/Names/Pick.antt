-- ===== src/Names/Pick.antt =====
-- The picker of session names: `name_candidates` and `pick_name` of src/ai_cli/session_naming.py.
-- A frozen set is a list whose order and repetitions are not looked at.
pub mod Candidates
pub mod Tiers
pub mod Top
pub mod Picked
use Prim.Native.String.{compare, ◌++◌ as append}
use text.Mathlib.Text.{starts_with, is_le}
use ai_cli_utils.Prelude.{
  ℕ, ◌+◌, String, Bool, true, false, not, ◌&&◌, ◌||◌, Option, none, some, List, [], ◌∷◌, ◌++◌, map,
  all, any, keep, length, distinct, sort_by, eqb, leb, ltb, ◌==◌, if◌then◌else◌,
}
use ai_cli_utils.NameList.Edits.{one_edit_apart}
use ai_cli_utils.Sessions.Recipe.{codes}
use ai_cli_utils.Rows.{lower}

abbrev pub text_in : String → List String → Bool
text_in s ts = any (λ t. s == t) ts

-- `len(text)`, in code points
abbrev pub size : String → ℕ
size s = length (codes s)

-- the order of texts: code point by code point
abbrev pub text_le : String → String → Bool
text_le a b = is_le (compare a b)

-- `_NAME_SEGMENT_RE` and `_TOKEN_RE` of name_registry.py: `[a-z]+`
abbrev pub is_token : String → Bool
is_token name = not (name == "") && all lower (codes name)

pub record PickRequest : Type 0 where
  pub generated : List String
  pub held : List String
  pub held_titles : List String
  pub stem : String
  pub title_prefix : String
  pub repo_alias : String
  pub min_length : ℕ
  pub max_length : ℕ
  pub letters : List ℕ
  pub pick_floor : ℕ
  pub reserved_words : List String
  pub denylist : List String
  pub manual : List String
  pub passes_static : Option (String → Bool)
  pub max_edit_distance : ℕ

-- `_prefix_pair`
unfoldable pub prefix_pair : String → List String → String → Bool
prefix_pair title held_titles stem =
    any
      (λ held.
        not (held == title)
        && starts_with held (append stem "-")
        && (starts_with held title || starts_with title held))
      held_titles

-- the filters, in their order
pub data Filter : Type 0 where
  outside_limits denylisted failing_static held_already near_held reserved_word prefix_title :
      Filter

-- `manual` of `name_candidates`: the names added by hand that are not generated
abbrev pub by_hand : PickRequest → List String
by_hand r = keep (λ name. not (text_in name r.generated)) r.manual

-- `request.passes_static and request.passes_static(name)`
abbrev pub passes : Option (String → Bool) → String → Bool
passes none name = false
passes (some test) name = test name

abbrev pub one_edit : String → String → Bool
one_edit a b = one_edit_apart (codes a) (codes b)

-- the filter that removes a name, if one does
unfoldable pub removed_by : PickRequest → String → Option Filter
unfolding prefix_pair
removed_by r name =
    if not (is_token name) || not (leb r.min_length (size name) && leb (size name) r.max_length)
    then some outside_limits
    else if text_in name r.denylist
    then some denylisted
    else if text_in name (by_hand r) && not (passes r.passes_static name)
    then some failing_static
    else if text_in name r.held
    then some held_already
    else if not (eqb r.max_edit_distance 0) && any (one_edit name) r.held
    then some near_held
    else if text_in name r.reserved_words
    then some reserved_word
    else if prefix_pair (append r.title_prefix name) r.held_titles r.stem
    then some prefix_title
    else none

abbrev pub is_free : Option Filter → Bool
is_free none = true
is_free (some f) = false

abbrev pub filters : List (Option Filter) → List Filter
filters [] = []
filters (none ∷ fs) = filters fs
filters (some f ∷ fs) = f ∷ filters fs

-- `sorted(request.generated | manual)`
abbrev pub considered : PickRequest → List String
considered r = sort_by text_le (distinct ◌==◌ (r.generated ++ by_hand r))

-- `name_candidates`: the free names, and for each removed name the filter that removed it
unfoldable pub name_candidates : PickRequest → List String × List Filter
unfolding removed_by
name_candidates r = (
  keep (λ name. is_free (removed_by r name)) (considered r),
  filters (map (removed_by r) (considered r)),
)

-- `_tier_key`: how many of the letters the name has, and whether it starts with the first letter
abbrev pub code_in : ℕ → List ℕ → Bool
code_in c cs = any (eqb c) cs

abbrev pub Tier : Type 0
Tier = ℕ × Bool

-- `next((char for char in repo_alias.lower() if "a" <= char <= "z"), "")`, and a name that starts
-- with it
abbrev pub first_code : List ℕ → Option ℕ
first_code [] = none
first_code (c ∷ cs) = some c

abbrev pub begins : Option ℕ → List ℕ → Bool
begins none cs = true
begins (some first) [] = false
begins (some first) (c ∷ cs) = eqb c first

abbrev pub tier_key : String → List ℕ → Option ℕ → Tier
tier_key name letters first =
    (length (keep (λ c. code_in c letters) (distinct eqb (codes name))), begins first (codes name))

-- `_tier_label` of a key, where `decimal` writes a number
abbrev pub tier_label : (ℕ → String) → String → Tier → String
tier_label decimal name (contained, starts) = append "len" (
    append (decimal (size name))
      (append "/" (append (decimal contained) (append "/" (if starts then "first" else "other")))))

abbrev pub bool_eq : Bool → Bool → Bool
bool_eq true b = b
bool_eq false b = not b

abbrev pub tier_eq : Tier → Tier → Bool
tier_eq (m, a) (n, b) = eqb m n && bool_eq a b

-- the order of tuples, the greater first
abbrev pub tier_ge : Tier → Tier → Bool
tier_ge (m, a) (n, b) = ltb n m || eqb m n && (a || not b)

-- the loop over `ranked`
unfoldable pub run_of_tiers :
    (String → Tier) → ℕ → List String → List Tier → List String → List String
run_of_tiers key floor names [] run = run
run_of_tiers key floor names (tier ∷ tiers) run =
    let longer = run ++ keep (λ name. tier_eq (key name) tier) names in
    let rest = run_of_tiers key floor names tiers longer in
    if leb floor (length longer) then longer else rest

-- `min(len(name) for name in candidates)`, from the first on
abbrev pub shortest : ℕ → List String → ℕ
shortest n [] = n
shortest n (name ∷ names) = let m = shortest n names in if leb (size name) m then size name else m

pub record NamePick : Type 0 where
  pub name : String
  pub tier : Tier
  pub run_size : ℕ
  pub free_at_length : ℕ
  pub free_total : ℕ

-- `str.lower` and `rng.choice`
module _ (lower_case : String → String) (choice : List String → String) where
  abbrev pub at_length : ℕ → List String → List String
  at_length n names = keep (λ name. eqb (size name) n) names

  abbrev pub key_of : PickRequest → String → Tier
  key_of r name =
      tier_key name r.letters (first_code (keep lower (codes (lower_case r.repo_alias))))

  -- the run of top tiers of the names of one length
  unfoldable pub top_run : PickRequest → List String → List String
  unfolding run_of_tiers
  top_run r names =
      run_of_tiers (key_of r) r.pick_floor names
        (sort_by tier_ge (distinct tier_eq (map (key_of r) names))) []

  abbrev pub picked_from : PickRequest → List String → List String → NamePick
  picked_from r candidates names =
      let run = top_run r names in
      let chosen = choice (sort_by text_le run) in
      record {
        name = chosen;
        tier = key_of r chosen;
        run_size = length run;
        free_at_length = length names;
        free_total = length candidates;
      }

  -- `pick_name`, which raises when every name is filtered out
  abbrev pub pick_from : PickRequest → List String → Option NamePick
  pick_from r [] = none
  pick_from r (c ∷ cs) = some (picked_from r (c ∷ cs) (at_length (shortest (size c) cs) (c ∷ cs)))

  unfoldable pub pick_name : PickRequest → Option NamePick
  unfolding name_candidates top_run
  pick_name r = pick_from r (name_candidates r).0
