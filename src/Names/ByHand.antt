-- ===== src/Names/ByHand.antt =====
-- Names chosen by hand, labels, and the list of the names that were added: the operations of
-- src/ai_cli/name_registry.py that do not pick.
use ai_cli_utils.Prelude.{
  String, Bool, true, false, not, ◌&&◌, Option, none, some, List, [], ◌∷◌, any, eqb, if◌then◌else◌,
}
use ai_cli_utils.Value.{num, str, field, end}
use ai_cli_utils.Value.Dicts.{Dict}
use ai_cli_utils.Rows.{LabelRow, session_row, label_row, opt}
use ai_cli_utils.Names.Segment.{last_segment}
use ai_cli_utils.Names.Pick.{prefix_pair, one_edit, text_in, is_token}
use ai_cli_utils.Names.Snapshot.{
  Snapshot, Policy, Verdict, held, confusable, word, unknown, limits, free, write_refused,
  hand_refused, Outcome, ok, err, ◌>>=◌, Write, put_row, put_entry, drop_entry, manual_shelf, Build,
  policy, available, is_held, held_tokens, held_titles, is_common_word, out_of_limits, keys,
}
use ai_cli_utils.Names.Reserve.{
  Surroundings, Slot, Reservation, dashed, stem, title_for, worktree_for, checked_row, row_for,
}

module _ (env : Surroundings) where
  open env use {is_absolute, writer, now}

  -- `check_hand_chosen`, without the reasons; first for a name that nobody holds
  abbrev pub verdict_unheld : Policy → Snapshot → String → Slot → List String → Verdict
  verdict_unheld p s name slot words =
      if is_token name
        && (not (eqb p.max_edit_distance 0) && any (one_edit name) (held_tokens s []))
      then confusable
      else if is_token name && prefix_pair (title_for slot name) (held_titles s []) (stem slot)
      then confusable
      else if is_token name && is_common_word name p words
      then word
      else if not (text_in name (available s))
      then unknown
      else if out_of_limits name p
      then limits
      else free

  abbrev pub verdict_in : Policy → Snapshot → String → Slot → List String → Verdict
  verdict_in p s name slot words =
      if is_held name s then held else verdict_unheld p s name slot words

  unfoldable pub check_hand_chosen : Snapshot → String → Slot → List String → Outcome Verdict
  unfolding policy is_held held_tokens held_titles title_for stem available out_of_limits
      prefix_pair
  check_hand_chosen s name slot words = do p ← policy s; ok (verdict_in p s name slot words)

  -- whether the name is added, once it may be reserved
  abbrev pub admit_hand_chosen : Bool → String → Policy → Verdict → Outcome Bool
  admit_hand_chosen add name p free = ok false
  admit_hand_chosen false name p unknown = err (hand_refused unknown)
  admit_hand_chosen true name p unknown =
      if out_of_limits name p then err (hand_refused limits) else ok true
  admit_hand_chosen add name p v = err (hand_refused v)

  -- `_manual_record`
  abbrev pub manual_record : String → String → String → Option String → Dict
  manual_record name added_by via reason = field "schema" (num 1) (
      field "name" (str name) (
        field "added_by" (str added_by)
          (field "added_at" (str now) (field "via" (str via) (field "reason" (opt reason) end)))))

  abbrev pub manual_writes : Bool → String → String → String → List Write
  manual_writes false name added_by via = []
  manual_writes true name added_by via =
      put_entry manual_shelf name (manual_record name added_by via none) ∷ []

  -- `build` of `reserve_hand_chosen`
  unfoldable pub reserve_hand_chosen :
      String → Slot → Bool → String → String → List String → Build Reservation
  unfolding policy check_hand_chosen out_of_limits title_for worktree_for checked_row
  reserve_hand_chosen name slot add via added_by words s = do
    verdict ← check_hand_chosen s name slot words
    p ← policy s
    added ← admit_hand_chosen add name p verdict
    row ← checked_row env (
        session_row writer
          (row_for env slot name (title_for slot name) (if added then "manual" else "custom") none)
          now)
    ok (
        some (record {
          writes = put_row name row ∷ manual_writes added name added_by via;
          result = record {
            name = name;
            title = title_for slot name;
            row = row;
            spares_added = [];
            added_to_database = added;
          };
        }))

  abbrev pub label_row_for : Slot → String → LabelRow
  label_row_for slot label = record {
    token = last_segment label;
    title = dashed (stem slot) label;
    repo = slot.repo;
    repo_alias = slot.repo_alias;
    host_alias = slot.host_alias;
    label = label;
    machine = slot.machine;
    client = slot.client;
    worktree = worktree_for slot (dashed (stem slot) label);
  }

  -- `build` of `reserve_label`
  unfoldable pub reserve_label : Slot → String → Build Reservation
  unfolding is_held stem worktree_for checked_row last_segment
  reserve_label slot label s =
      let token = last_segment label in
      if is_held token s then err (hand_refused held) else (do
        row ← checked_row env (label_row writer (label_row_for slot label) now)
        ok (
            some (record {
              writes = put_row token row ∷ [];
              result = record {
                name = token;
                title = dashed (stem slot) label;
                row = row;
                spares_added = [];
                added_to_database = false;
              };
            })))

  -- `build` of `add_name` and of `remove_name`
  unfoldable pub add_name : String → String → Option String → List String → Build (Unit {0})
  unfolding policy out_of_limits available
  add_name name added_by reason words s = do
    p ← policy s
    if out_of_limits name p
        then err (hand_refused limits)
        else if is_common_word name p words
        then err (hand_refused word)
        else if text_in name (available s)
        then ok none
        else ok (
            some (record {
              writes =
                  put_entry manual_shelf name (manual_record name added_by "add-name" reason) ∷ [];
              result = tt;
            }))

  unfoldable pub remove_name : String → Build (Unit {0})
  unfolding is_held
  remove_name name s =
      if is_held name s
      then err write_refused
      else if text_in name (keys s.manual)
      then ok (some (record { writes = drop_entry manual_shelf name ∷ []; result = tt }))
      else err write_refused
