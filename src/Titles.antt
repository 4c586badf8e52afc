-- ===== src/Titles.antt =====
-- Human-readable session titles: src/ai_cli/session_title.py, over texts as lists of code points.
pub mod Parsed
use ai_cli_utils.Prelude.{
  ℕ, suc, Bool, true, false, not, ◌&&◌, ◌||◌, Option, none, some, List, [], ◌∷◌, ◌++◌, all, any,
  drop, length, list_eq, eqb, if◌then◌else◌,
}

abbrev pub Text : Type 0
Text = List ℕ

-- "-"
abbrev pub dash : ℕ
dash = 45

-- `not text`
abbrev pub is_empty : Text → Bool
is_empty [] = true
is_empty (c ∷ cs) = false

-- a text that is given, and is not empty
abbrev pub given : Option Text → Bool
given none = false
given (some t) = not (is_empty t)

-- `--with-name`, `--no-name` or neither
pub data Flag : Type 0 where
  with_name no_name unset : Flag

pub data Segment : Type 0 where
  picked custom_name label_only : Segment

pub data TitleError : Type 0 where
  conflicting no_last_segment : TitleError

pub data Composed : Type 0 where
  segment : Segment → Composed
  refused : TitleError → Composed

abbrev pub is_no : Flag → Bool
is_no no_name = true
is_no _ = false

-- `flag == "with" or (flag is None and policy == "keep")`
abbrev pub wants_name : Flag → Bool → Bool
wants_name with_name keeps = true
wants_name no_name keeps = false
wants_name unset keeps = keeps

-- `compose_kind`, where `keeps` is `policy == "keep"`
unfoldable pub compose_kind : Option Text → Option Text → Flag → Bool → Composed
compose_kind label custom flag keeps =
    if is_no flag && given custom
    then refused conflicting
    else if is_no flag && not (given label)
    then refused no_last_segment
    else if given custom
    then segment custom_name
    else if not (given label)
    then segment picked
    else if wants_name flag keeps
    then segment picked
    else segment label_only

-- `text.rpartition("-")`: what stands before and after the last dash, if there is one
abbrev pub before_dash : ℕ → Text → Option (Text × Text) → Option (Text × Text)
before_dash c cs (some (head, tail)) = some (c ∷ head, tail)
before_dash c cs none = if eqb c dash then some ([], cs) else none

unfoldable pub rpartition : Text → Option (Text × Text)
rpartition [] = none
rpartition (c ∷ cs) = before_dash c cs (rpartition cs)

-- what `rpartition` puts before and after when there is no dash
abbrev pub parts : Text → Option (Text × Text) → Text × Text
parts t none = ([], t)
parts t (some p) = p

-- `text.rsplit("-", 1)[-1]`
unfoldable pub last_segment : Text → Text
unfolding rpartition
last_segment t = (parts t (rpartition t)).1

abbrev pub member : Text → List Text → Bool
member t ts = any (λ other. list_eq t other) ts

pub data LabelError : Type 0 where
  ends_in_index ends_in_name : LabelError

pub data Positional : Type 0 where
  empty_kind : Positional
  slot_kind label_kind : Text → Positional
  title_kind : Text → Text → Positional

pub record ParsedTitle : Type 0 where
  pub stem : Text
  pub label : Option Text
  pub name : Option Text
  pub index : Option ℕ

-- `head or None`
abbrev pub nonempty : Text → Option Text
nonempty [] = none
nonempty (c ∷ cs) = some (c ∷ cs)

-- a title is parsed, or `int` raises on its last segment
pub data Parsing : Type 0 where
  parsed : ParsedTitle → Parsing
  int_raises : Parsing

-- a title whose last segment is digits, from what `int` makes of them
abbrev pub parse_index : Text → Text → Option ℕ → Parsing
parse_index stem head none = int_raises
parse_index stem head (some i) =
    parsed (record { stem = stem; label = nonempty head; name = none; index = some i })

abbrev pub is_prefix : Text → Text → Bool
is_prefix [] t = true
is_prefix (c ∷ cs) [] = false
is_prefix (c ∷ cs) (d ∷ ds) = eqb c d && is_prefix cs ds

-- `is_digit` says what `str.isdigit` says of a code point, `to_int` is `int`, which raises on
-- some texts that are all digits (as superscripts are), `names` the name set
module _ (is_digit : ℕ → Bool) (to_int : Text → Option ℕ) (names : List Text) where
  abbrev pub all_digits : Text → Bool
  all_digits t = not (is_empty t) && all is_digit t

  -- `check_label`: the error that it raises
  unfoldable pub check_label : Text → Option LabelError
  unfolding last_segment
  check_label label =
      if all_digits (last_segment label)
      then some ends_in_index
      else if member (last_segment label) names
      then some ends_in_name
      else none

  unfoldable pub classify_positional : Text → Positional
  unfolding last_segment
  classify_positional clean =
      if is_empty clean
      then empty_kind
      else if all_digits clean || all_digits (last_segment clean)
      then slot_kind clean
      else if member (last_segment clean) names
      then title_kind clean (last_segment clean)
      else label_kind clean

  -- `parse_title` from the split of what follows the stem
  abbrev pub parse_segments : Text → Text → Text × Text → Parsing
  parse_segments stem rest (head, tail) =
      if all_digits tail
      then parse_index stem head (to_int tail)
      else if member tail names
      then parsed (record { stem = stem; label = nonempty head; name = some tail; index = none })
      else parsed (record { stem = stem; label = some rest; name = none; index = none })

  abbrev pub parse_rest : Text → Text → Parsing
  parse_rest stem rest =
      if is_empty rest
      then parsed (record { stem = stem; label = none; name = none; index = none })
      else parse_segments stem rest (parts rest (rpartition rest))

  unfoldable pub parse_title : Text → Text → Option Parsing
  unfolding rpartition
  parse_title title stem =
      if not (list_eq title stem) && not (is_prefix (stem ++ dash ∷ []) title)
      then none
      else some (parse_rest stem (drop (suc (length stem)) title))
