-- ===== src/Tests/NamesTests.antt =====
-- A registry of names with one row, and the sessions that reserve in it.
use text.Mathlib.Text.{starts_with}
use ai_cli_utils.Prelude.{
  ℕ, ◌≡◌, refl, ◌↔◌, ◌⊎◌, inl, String, Bool, true, false, Option, none, some, List, [], ◌∷◌, ◌++◌,
  In, All, arith,
}
use ai_cli_utils.Value.Dicts.{Dict, value_eq}
use ai_cli_utils.Value.{end}
use ai_cli_utils.NameList.Edits.{one_edit_apart}
use ai_cli_utils.Rows.{session_row, spare_row, label_row, row_problem}
use ai_cli_utils.Names.Number.{name_number, name_number-inj}
use ai_cli_utils.Names.Pick.{PickRequest, NamePick, name_candidates, pick_name}
use ai_cli_utils.Names.Pick.Candidates.{Free, name_candidates-Free}
use ai_cli_utils.Names.Pick.Picked.{Picked, pick_name-Picked}
use ai_cli_utils.Names.Snapshot.{
  Snapshot, Policy, published, Outcome, ok, err, Change, Build, apply_writes,
}
use ai_cli_utils.Names.Transact.{Ref, Race, answered, transact}
use ai_cli_utils.Names.Transact.Calm.{Decided, transact-Decided}
use ai_cli_utils.Names.Reserve.{Surroundings, Slot, Reservation, reserve_picked}
use ai_cli_utils.Names.Segment.{last_segment}
use ai_cli_utils.Names.ByHand.{manual_writes, reserve_hand_chosen, reserve_label}
use ai_cli_utils.Names.Reserve.Own.{Own}
use ai_cli_utils.Names.Reserve.Kept.{
  OneRow, reserve_picked-Own, reserve_hand_chosen-Own, reserve_label-Own,
}
use ai_cli_utils.Names.Reserve.Apart.{Apart, reserve_picked-Apart}

abbrev ba : List ℕ
ba = 98 ∷ 97 ∷ []

name_number-inj_example : ba ≡ ba
name_number-inj_example =
    name_number-inj ba ba ((omega arith, omega arith), ((omega arith, omega arith), tt))
      ((omega arith, omega arith), ((omega arith, omega arith), tt)) refl

-- "ba" is 2 * 27 + 1
number_example : name_number (98 ∷ 97 ∷ []) ≡ 55
unfolding name_number
number_example = refl

abbrev pub first_of : List String → String
first_of [] = ""
first_of (name ∷ names) = name

pub first_of_chosen : (names : List String) (c : String) → In c names → In (first_of names) names
first_of_chosen [] c m = absurd m
first_of_chosen (name ∷ names) c m = inl refl

abbrev pub around : Surroundings
around = record {
  is_absolute = λ text. starts_with text "/";
  lower_case = λ text. text;
  choice = first_of;
  alias_words = "ai" ∷ [];
  non_names = "zoom" ∷ [];
  decimal = λ n. "1";
  display = λ value. "";
  writer = "ai 1";
  now = "noon";
}

abbrev pub rules : Policy
rules = record {
  min_name_length = 3;
  max_name_length = 4;
  pick_floor = 1;
  offline_spares = 1;
  max_edit_distance = 1;
  denylist = "bad" ∷ [];
  extra_words = [];
  keep_names = [];
  letters_of = λ alias. none;
}

abbrev pub kim_row : Dict
kim_row = spare_row "ai 1" "kim" "m" "other" "noon"

abbrev pub shelf : Snapshot
shelf = record {
  rows = ("kim", kim_row) ∷ [];
  manual = [];
  migrations = [];
  names = some ("kim" ∷ "tim" ∷ "ann" ∷ "rob" ∷ "eve" ∷ "olga" ∷ "bad" ∷ []);
  generation = published rules;
}

abbrev pub seat : Slot
seat = record {
  repo = "ai";
  repo_alias = "a";
  host_alias = "m";
  label = none;
  machine = "mac";
  client = "claude";
  worktree = true;
}

abbrev wish : PickRequest
wish = record {
  generated = "kim" ∷ "tim" ∷ "ann" ∷ "bad" ∷ [];
  held = "kim" ∷ [];
  held_titles = [];
  stem = "a-m";
  title_prefix = "a-m-";
  repo_alias = "a";
  min_length = 3;
  max_length = 4;
  letters = 97 ∷ [];
  pick_floor = 1;
  reserved_words = [];
  denylist = "bad" ∷ [];
  manual = [];
  passes_static = none;
  max_edit_distance = 1;
}

candidates_example : (name_candidates wish).0 ≡ "ann" ∷ []
unfolding name_candidates one_edit_apart
candidates_example = refl

name_candidates-Free_example : In "ann" (name_candidates wish).0 ↔ Free wish "ann"
name_candidates-Free_example = name_candidates-Free wish "ann"

pick_name-Picked_example :
    ((p : NamePick) × ((pick_name (λ s. s) first_of wish ≡ some p)
        × Picked (λ s. s) first_of wish p))
    ⊎ ((pick_name (λ s. s) first_of wish ≡ none) × ((c : String) → ¬ Free wish c))
pick_name-Picked_example = pick_name-Picked (λ s. s) first_of wish first_of_chosen

abbrev pub nothing_changed : Change Reservation
nothing_changed = record {
  writes = [];
  result = record {
    name = "";
    title = "";
    row = end;
    spares_added = [];
    added_to_database = false;
  };
}

-- the change that an operation answers
abbrev pub made : Outcome (Option (Change Reservation)) → Change Reservation
made (err e) = nothing_changed
made (ok none) = nothing_changed
made (ok (some change)) = change

abbrev pub has_change : Outcome (Option (Change Reservation)) → Bool
has_change (err e) = false
has_change (ok none) = false
has_change (ok (some change)) = true

pub has_change-made :
    (o : Outcome (Option (Change Reservation))) → has_change o ≡ true → o ≡ ok (some (made o))
has_change-made (err e) h = cc
has_change-made (ok none) h = cc
has_change-made (ok (some change)) h = refl

abbrev picks : Build Reservation
picks = reserve_picked around seat [] none none

abbrev first_change : Change Reservation
first_change = made (picks shelf)

picked_example : first_change.result.name ≡ "ann"
unfolding reserve_picked one_edit_apart spare_row row_problem session_row value_eq
picked_example = refl

picks_found : has_change (picks shelf) ≡ true
unfolding reserve_picked one_edit_apart spare_row row_problem session_row value_eq
picks_found = refl

picks_example : picks shelf ≡ ok (some first_change)
picks_example = has_change-made (picks shelf) picks_found

reserve_picked-Own_example : All (Own around "mac" shelf) first_change.writes
reserve_picked-Own_example =
    reserve_picked-Own around first_of_chosen seat [] none none shelf first_change picks_example

abbrev after_first : Snapshot
after_first = apply_writes first_change.writes shelf

abbrev second_change : Change Reservation
second_change = made (picks after_first)

second_found : has_change (picks after_first) ≡ true
unfolding apply_writes reserve_picked one_edit_apart spare_row row_problem session_row value_eq
second_found = refl

second_example : picks after_first ≡ ok (some second_change)
second_example = has_change-made (picks after_first) second_found

second_name_example : second_change.result.name ≡ "rob"
unfolding apply_writes reserve_picked one_edit_apart spare_row row_problem session_row value_eq
second_name_example = refl

reserve_picked-Apart_example :
    Apart around first_of_chosen shelf first_change.writes second_change.writes
reserve_picked-Apart_example =
    reserve_picked-Apart around first_of_chosen seat seat [] [] none none none none shelf
      first_change second_change picks_example second_example

abbrev by_hand_change : Change Reservation
by_hand_change = made (reserve_hand_chosen around "zed" seat true "new" "me" [] shelf)

by_hand_found : has_change (reserve_hand_chosen around "zed" seat true "new" "me" [] shelf) ≡ true
unfolding reserve_hand_chosen one_edit_apart row_problem session_row value_eq spare_row
by_hand_found = refl

by_hand_example :
    reserve_hand_chosen around "zed" seat true "new" "me" [] shelf ≡ ok (some by_hand_change)
by_hand_example =
    has_change-made (reserve_hand_chosen around "zed" seat true "new" "me" [] shelf) by_hand_found

reserve_hand_chosen-Own_example :
    OneRow around "mac" "zed"
      (manual_writes around by_hand_change.result.added_to_database "zed" "me" "new")
      shelf
      by_hand_change
reserve_hand_chosen-Own_example =
    reserve_hand_chosen-Own around "zed" seat true "new" "me" [] shelf by_hand_change
      by_hand_example

abbrev label_change : Change Reservation
label_change = made (reserve_label around seat "work" shelf)

label_found : has_change (reserve_label around seat "work" shelf) ≡ true
unfolding reserve_label row_problem label_row value_eq
label_found = refl

label_example : reserve_label around seat "work" shelf ≡ ok (some label_change)
label_example = has_change-made (reserve_label around seat "work" shelf) label_found

reserve_label-Own_example : OneRow around "mac" (last_segment "work") [] shelf label_change
reserve_label-Own_example = reserve_label-Own around seat "work" shelf label_change label_example

-- a first attempt that another writer overtakes, and a second that nobody does
abbrev overtaken : Race
overtaken = record {
  before = [];
  fetch_fails = false;
  between = first_change.writes ∷ [];
  push = answered;
}

abbrev calm : Race
calm = record { before = []; fetch_fails = false; between = []; push = answered }

abbrev base : Ref
base = record { tip = 7; content = shelf }

transact-Decided_example : Decided picks (transact picks ((overtaken ∷ []) ++ calm ∷ []) base).0
transact-Decided_example =
    transact-Decided picks (overtaken ∷ []) calm [] base ((refl, refl), tt) ((refl, refl), refl)

abbrev raced : Outcome (Option (Change Reservation)) × Ref
raced = transact picks (overtaken ∷ calm ∷ []) base
