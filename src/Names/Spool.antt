-- ===== src/Names/Spool.antt =====
-- Spares that are taken while the registry is unreachable, and the spool of their activations, in
-- src/ai_cli/name_registry.py. The lock of the spool excludes other writers of it.
pub mod Taken
pub mod Published
use Prim.Native.String.{compare}
use text.Mathlib.Text.{is_le}
use ai_cli_utils.Prelude.{
  ℕ, String, Bool, true, false, not, ◌&&◌, ◌||◌, Option, none, some, List, [], ◌∷◌, all, any, keep,
  is_some, sort_by, eqb, ltb, ◌==◌, if◌then◌else◌,
}
use ai_cli_utils.Value.{str, obj, field, end, find, get, put, is_text}
use ai_cli_utils.Value.Dicts.{Dict, value_eq}
use ai_cli_utils.Value.Files.{lookup, store_file, unlink}
use ai_cli_utils.Rows.{Activation, activate_spare, row_fields}
use ai_cli_utils.Rows.Sound.{activation_fields}
use ai_cli_utils.Names.Pick.{text_in, size, text_le}
use ai_cli_utils.Names.Snapshot.{
  Snapshot, Outcome, ok, err, ◌>>=◌, write_refused, missing_key, spares_exhausted, put_row, Change,
  Build, rows_of, keys, Entries,
}
use ai_cli_utils.Names.Reserve.{
  Surroundings, Slot, Reservation, title_for, worktree_for, checked_row,
}
use ai_cli_utils.Names.Ledger.{as_text, owned}

-- `{key: value for key, value in entry.items() if key != dropped}`
abbrev pub without_key : String → Dict → Dict
without_key dropped end = end
without_key dropped (field k v rest) =
    let others = without_key dropped rest in if k == dropped then others else field k v others

module _ (env : Surroundings) where
  open env use {is_absolute, now}

  abbrev pub token_in : Dict → String
  token_in row = as_text env (get "token" row)

  -- the order of `(len(row["token"]), row["token"])`
  abbrev pub spare_le : Dict → Dict → Bool
  spare_le a b =
      ltb (size (token_in a)) (size (token_in b))
      || eqb (size (token_in a)) (size (token_in b)) && text_le (token_in a) (token_in b)

  unfoldable pub free_spares : String → Snapshot → Entries → List Dict
  unfolding rows_of
  free_spares machine s spool =
      sort_by spare_le
        (keep (λ row. not (text_in (token_in row) (keys spool))) (rows_of machine "spare" s))

  abbrev pub activation_for : Slot → String → Activation
  activation_for slot token = record {
    title = title_for slot token;
    repo = slot.repo;
    repo_alias = slot.repo_alias;
    label = slot.label;
    client = slot.client;
    worktree = worktree_for slot (title_for slot token);
  }

  abbrev pub taken_row : Slot → Dict → Dict
  taken_row slot spare = activate_spare spare (activation_for slot (token_in spare)) now

  abbrev pub take_first : Slot → Entries → List Dict → Outcome (Reservation × Entries)
  take_first slot spool [] = err spares_exhausted
  take_first slot spool (spare ∷ others) = do
    row ← checked_row env (taken_row slot spare)
    ok (
      record {
        name = token_in spare;
        title = title_for slot (token_in spare);
        row = row;
        spares_added = [];
        added_to_database = false;
      },
      store_file (token_in row) (put "op" (str "activate") row) spool,
    )

  unfoldable pub take_spare : Slot → Snapshot → Entries → Outcome (Reservation × Entries)
  unfolding free_spares title_for worktree_for activate_spare checked_row
  take_spare slot s spool = take_first slot spool (free_spares slot.machine s spool)

  -- `build` of `publish_spool` for one entry
  abbrev pub only_activated : Dict → Dict → Bool
  only_activated row activation =
      all (λ key. value_eq (get key row) (get key activation) || text_in key activation_fields)
        row_fields

  -- a key that is missing raises
  abbrev pub lacks : Dict → String → Bool
  lacks row key = not (is_some (find key row))

  abbrev pub misses : Dict → Dict → Bool
  misses row activation = any (λ key. lacks row key || lacks activation key) row_fields

  abbrev pub publish_row :
      String → String → Dict → Option Dict → Outcome (Option (Change (Unit {0})))
  publish_row machine token activation none = err write_refused
  publish_row machine token activation (some row) =
      if value_eq (obj row) (obj activation)
      then ok none
      else if lacks row "kind"
      then err missing_key
      else if not (is_text (get "kind" row) "spare")
      then err write_refused
      else if lacks row "machine"
      then err missing_key
      else if not (owned env row machine)
      then err write_refused
      else if misses row activation
      then err missing_key
      else if not (only_activated row activation)
      then err write_refused
      else (do
        checked ← checked_row env activation
        ok (some (record { writes = put_row token checked ∷ []; result = tt })))

  unfoldable pub publish_entry : String → String → Dict → Build (Unit {0})
  unfolding value_eq checked_row
  publish_entry machine token entry s =
      publish_row machine token (without_key "op" entry) (lookup token s.rows)
