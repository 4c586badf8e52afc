-- ===== src/Names/Ledger.antt =====
-- The ledger of renames: the migrations of src/ai_cli/name_registry.py.
pub mod Chosen
pub mod Undone
use ai_cli_utils.Prelude.{
  ℕ, String, Bool, true, false, not, ◌&&◌, ◌||◌, Option, none, some, List, [], ◌∷◌, ◌++◌, ◌==◌,
  if◌then◌else◌,
}
use ai_cli_utils.Value.{arr, Items, num, null, str, field, end, find, get, put, is_text}
use ai_cli_utils.Value.Dicts.{Dict, PyValue, value_eq}
use ai_cli_utils.Value.Files.{lookup}
use ai_cli_utils.Rows.{session_row}
use ai_cli_utils.Names.Segment.{last_segment}
use ai_cli_utils.Names.Pick.{pick_name, tier_label}
use ai_cli_utils.Names.Snapshot.{
  Snapshot, Verdict, free, write_refused, hand_refused, missing_key, Outcome, ok, err, ◌>>=◌, Write,
  put_row, drop_row, put_entry, drop_entry, migration_shelf, Change, Build,
}
use ai_cli_utils.Names.Reserve.{
  Surroundings, Slot, Reservation, pick_request, pick, require_pick, title_for, worktree_for,
  row_for, checked_row,
}
use ai_cli_utils.Names.ByHand.{check_hand_chosen}

module _ (env : Surroundings) where
  open env use {is_absolute, writer, now}

  -- `migration_record`
  unfoldable pub migration_record : String → String → String → String → Dict
  migration_record old_title new_title machine client = field "schema" (num 1) (
      field "old_title" (str old_title) (
        field "new_title" (str new_title) (
          field "machine" (str machine) (
            field "client" (str client) (
              field "status" (str "intent") (
                field "started_at" (str now)
                  (field "completed_at" null (field "writer" (str writer) end))))))))

  abbrev pub require_free : Verdict → Outcome (Unit {0})
  require_free free = ok tt
  require_free v = err (hand_refused v)

  -- the name and the label of its tier: picked, or chosen by hand
  abbrev pub choose_name :
      Slot → Option String → Option ℕ → List String → Snapshot → Outcome (String × Option String)
  choose_name slot none max_length words s = do
    request ← pick_request env s slot [] max_length (some words)
    p ← require_pick env (pick env request)
    ok (p.name, some (tier_label env.decimal p.name p.tier))
  choose_name slot (some name) max_length words s = do
    verdict ← check_hand_chosen env s name slot words
    allowed ← require_free verdict
    ok (name, none)

  -- `build` of `reserve_for_migration`
  unfoldable pub reserve_for_migration :
      Slot → String → Option String → Option ℕ → List String → Build Reservation
  unfolding pick_request pick_name check_hand_chosen title_for worktree_for checked_row
      migration_record
  reserve_for_migration slot old_title name max_length words s = do
    chosen ← choose_name slot name max_length words s
    row ← checked_row env (
        session_row writer (row_for env slot chosen.0 (title_for slot chosen.0) "migrated" chosen.1)
          now)
    ok (
        some (record {
          writes =
              put_row chosen.0 row
              ∷ put_entry migration_shelf old_title
                  (migration_record old_title (title_for slot chosen.0) slot.machine slot.client)
              ∷ [];
          result = record {
            name = chosen.0;
            title = title_for slot chosen.0;
            row = row;
            spares_added = [];
            added_to_database = false;
          };
        }))

  -- `record["new_title"]`, and `str` of it
  abbrev pub required : Option PyValue → Outcome PyValue
  required none = err missing_key
  required (some v) = ok v

  abbrev pub as_text : PyValue → String
  as_text (str t) = t
  as_text v = env.display v

  abbrev pub token_of : PyValue → String
  token_of title = last_segment (as_text title)

  abbrev pub titled : Dict → PyValue → Bool
  titled row title = value_eq (get "title" row) title

  abbrev pub owned : Dict → String → Bool
  owned row machine = is_text (get "machine" row) machine

  -- the old row, where it is still this machine's
  abbrev pub drop_old : String → PyValue → String → Option Dict → List Write
  drop_old token title machine none = []
  drop_old token title machine (some row) =
      if titled row title && owned row machine then drop_row token ∷ [] else []

  -- `build` of `complete_migration`, from the new row on
  abbrev pub complete_row :
      String
      → String
      → Dict
      → PyValue
      → Option Dict
      → Snapshot
      → Outcome (Option (Change (Unit {0})))
  complete_row old_title machine entry title none s = err write_refused
  complete_row old_title machine entry title (some row) s =
      if not (titled row title) then err write_refused else (do
        active ← checked_row env (put "recovery" null (put "state" (str "active") row))
        ok (
            some (record {
              writes =
                  put_entry migration_shelf old_title
                    (put "completed_at" (str now) (put "status" (str "complete") entry))
                  ∷ put_row (token_of title) active
                  ∷ drop_old (last_segment old_title) (str old_title) machine
                      (lookup (last_segment old_title) s.rows);
              result = tt;
            })))

  abbrev pub complete_entry :
      String → String → Option Dict → Snapshot → Outcome (Option (Change (Unit {0})))
  complete_entry old_title machine none s = err write_refused
  complete_entry old_title machine (some entry) s =
      if is_text (get "status" entry) "complete"
      then ok none
      else if not (owned entry machine)
      then err write_refused
      else (do
        title ← required (find "new_title" entry)
        complete_row old_title machine entry title (lookup (token_of title) s.rows) s)

  unfoldable pub complete_migration : String → String → Build (Unit {0})
  unfolding checked_row value_eq last_segment
  complete_migration old_title machine s =
      complete_entry old_title machine (lookup old_title s.migrations) s

  -- `build` of `release_failed_migration`
  abbrev pub release_entry :
      String → String → Option Dict → Snapshot → Outcome (Option (Change (Unit {0})))
  release_entry old_title machine none s = err write_refused
  release_entry old_title machine (some entry) s =
      if not (is_text (get "status" entry) "intent") || not (owned entry machine)
      then err write_refused
      else (do
        title ← required (find "new_title" entry)
        ok (
            some (record {
              writes =
                  drop_entry migration_shelf old_title
                  ∷ drop_old (token_of title) title machine (lookup (token_of title) s.rows);
              result = tt;
            })))

  unfoldable pub release_failed_migration : String → String → Build (Unit {0})
  unfolding value_eq last_segment
  release_failed_migration old_title machine s =
      release_entry old_title machine (lookup old_title s.migrations) s

  -- `build` of `mark_migration_incomplete`
  abbrev pub hold_row : String → Items ℕ → Option Dict → Outcome (Option (Change (Unit {0})))
  hold_row token survivors none = err write_refused
  hold_row token survivors (some row) = do
    marked ←
        checked_row env
          (put "recovery" (arr survivors) (put "state" (str "migration-incomplete") row))
    ok (some (record { writes = put_row token marked ∷ []; result = tt }))

  abbrev pub hold_entry :
      String → Items ℕ → Option Dict → Snapshot → Outcome (Option (Change (Unit {0})))
  hold_entry machine survivors none s = err write_refused
  hold_entry machine survivors (some entry) s =
      if not (owned entry machine) then err write_refused else (do
        title ← required (find "new_title" entry)
        hold_row (token_of title) survivors (lookup (token_of title) s.rows))

  unfoldable pub mark_migration_incomplete : String → String → Items ℕ → Build (Unit {0})
  unfolding checked_row last_segment
  mark_migration_incomplete old_title machine survivors s =
      hold_entry machine survivors (lookup old_title s.migrations) s
