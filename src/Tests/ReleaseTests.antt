-- ===== src/Tests/ReleaseTests.antt =====
-- A rename that fails, a spare that is taken and rows that are released.
use ai_cli_utils.Prelude.{
  ◌≡◌, refl, sym, ap, subst, ◌∙◌, inl, inr, String, Bool, true, false, Option, none, some, some-inj,
  [], ◌∷◌,
}
use ai_cli_utils.Value.{get, put, str}
use ai_cli_utils.Value.Dicts.{Dict, value_eq}
use ai_cli_utils.Value.Files.{lookup}
use ai_cli_utils.NameList.Edits.{one_edit_apart}
use ai_cli_utils.Rows.{session_row, spare_row, row_problem, activate_spare, SessionRow}
use ai_cli_utils.Names.Snapshot.{
  Build, drop_row, put_row, Snapshot, Outcome, ok, err, Change, apply_writes, Entries,
}
use ai_cli_utils.Names.Reserve.{Reservation}
use ai_cli_utils.Names.Reserve.{title_for, worktree_for}
use ai_cli_utils.Names.Ledger.{as_text, reserve_for_migration}
use ai_cli_utils.Names.Ledger.Undone.{Undone, reserve_for_migration-Undone}
use ai_cli_utils.Names.Release.{
  Probes, absent, Report, reports, transacts, reconcile_plan, reconcile_build, reconcile,
}
use ai_cli_utils.Names.Release.ByName.{
  release_build, release_name, ReleasedByName, release_name-Released,
}
use ai_cli_utils.Names.Release.Found.{ContentsTold}
use ai_cli_utils.Names.Release.Tested.{Reconciled, reconcile-Allowed}
use ai_cli_utils.Names.Spool.{take_spare, taken_row, without_key, publish_entry}
use ai_cli_utils.Names.Spool.Published.{Activates, publish_entry-Activates}
use ai_cli_utils.Names.Spool.Taken.{TakeAnswer, take_spare-Taken}
use ai_cli_utils.Tests.NamesTests.{
  around, shelf, seat, first_of_chosen, made, has_change, has_change-made,
}

abbrev rename : Outcome (Option (Change Reservation))
rename = reserve_for_migration around seat "a-m-old" none none [] shelf

rename_found : has_change rename ≡ true
unfolding reserve_for_migration one_edit_apart spare_row row_problem session_row value_eq
rename_found = refl

reserve_for_migration-Undone_example :
    Undone around "a-m-old" "mac" shelf (apply_writes (made rename).writes shelf)
reserve_for_migration-Undone_example =
    reserve_for_migration-Undone around first_of_chosen seat "a-m-old" none none [] shelf
      (made rename) (has_change-made rename rename_found)

-- this machine has one spare
abbrev stocked : Snapshot
stocked = record shelf { rows = ("eve", spare_row "ai 1" "eve" "m" "mac" "noon") ∷ [] }

take_spare-Taken_example : TakeAnswer around seat stocked []
take_spare-Taken_example = take_spare-Taken around seat stocked []

taken_name : Outcome (Reservation × Entries) → String
taken_name (ok (r, spool)) = r.name
taken_name (err e) = ""

taken_example : taken_name (take_spare around seat stocked []) ≡ "eve"
unfolding taken_name take_spare spare_row row_problem value_eq activate_spare
taken_example = refl

-- a session whose worktree and transcript are gone
abbrev gone_session : SessionRow
gone_session = record {
  name = "zed";
  title = "a-m-zed";
  repo = "ai";
  repo_alias = "a";
  host_alias = "m";
  label = none;
  machine = "mac";
  client = "claude";
  source = "picked";
  tier = none;
  worktree = none;
}

abbrev zed_row : Dict
zed_row = session_row "ai 1" gone_session "noon"

abbrev used : Snapshot
used = record shelf { rows = ("zed", zed_row) ∷ [] }

abbrev no_traces : Probes
no_traces = record {
  path_exists = λ row. false;
  repo_is_dir = λ row. true;
  registered = λ row. some false;
  transcript = λ row. some absent;
}

abbrev title_blob : Dict → String
title_blob row = as_text around (get "title" row)

told : ContentsTold around no_traces title_blob "mac" used used
told token a b (inl e) l same = sym (
    some-inj (
      sym (subst (λ t. lookup t used.rows ≡ some b) (ap (λ x. x.0) e) l)
      ∙ ap some (sym (ap (λ x. x.1) e))))
told token a b (inr m) l same = absurd m

abbrev releasing : Build Report
releasing = reconcile_build around no_traces title_blob "mac" "m" (("zed", "a-m-zed") ∷ [], []) []

runs :
    reconcile around no_traces title_blob "mac" false none "m" used used [] []
    ≡ ok (transacts releasing)
unfolding reconcile reconcile_plan session_row value_eq
runs = refl

-- a title that no row has ends without a transaction
nothing_to_release :
    reconcile around no_traces title_blob "mac" false (some "other") "m" used used [] []
    ≡ ok (reports (record { released = []; spares_released = []; spares_added = [] }))
unfolding reconcile reconcile_plan session_row value_eq
nothing_to_release = refl

abbrev reported : Outcome (Option (Change Report)) → Change Report
reported (ok (some change)) = change
reported (ok none) = record {
  writes = [];
  result = record { released = []; spares_released = []; spares_added = [] };
}
reported (err e) = record {
  writes = [];
  result = record { released = []; spares_released = []; spares_added = [] };
}

abbrev has_report : Outcome (Option (Change Report)) → Bool
has_report (ok (some change)) = true
has_report (ok none) = false
has_report (err e) = false

has_report-reported :
    (o : Outcome (Option (Change Report))) → has_report o ≡ true → o ≡ ok (some (reported o))
has_report-reported (ok (some change)) h = refl
has_report-reported (ok none) h = cc
has_report-reported (err e) h = cc

abbrev release : Outcome (Option (Change Report))
release = releasing used

release_found : has_report release ≡ true
unfolding reconcile_build one_edit_apart session_row spare_row row_problem value_eq
release_found = refl

released_example : (reported release).result.released ≡ "zed" ∷ []
unfolding reconcile_build one_edit_apart session_row spare_row row_problem value_eq
released_example = refl

reconcile-Allowed_example :
    Reconciled around no_traces title_blob "mac" first_of_chosen false none used used []
      (reported release)
reconcile-Allowed_example =
    reconcile-Allowed around no_traces title_blob "mac" first_of_chosen false none used used used []
      [] "m" releasing (reported release) told runs (has_report-reported release release_found)

-- the activation of the spare, and its entry of the spool
abbrev activation : Dict
activation = taken_row around seat (spare_row "ai 1" "eve" "m" "mac" "noon")

abbrev entry : Dict
entry = put "op" (str "activate") activation

abbrev activating : Change (Unit {0})
activating = record { writes = put_row "eve" (without_key "op" entry) ∷ []; result = tt }

publishes : publish_entry around "mac" "eve" entry stocked ≡ ok (some activating)
unfolding publish_entry spare_row row_problem value_eq activate_spare title_for worktree_for
publishes = refl

publish_entry-Activates_example :
    Activates around "mac" "eve" (without_key "op" entry) stocked activating.writes
publish_entry-Activates_example =
    publish_entry-Activates around "mac" "eve" entry stocked activating publishes

-- the row of the session is released by its name
abbrev by_name : Build (Unit {0})
by_name = release_build around no_traces title_blob "mac" "zed" (title_blob zed_row)

allowed_by_name : release_name around no_traces title_blob "mac" "zed" used ≡ ok by_name
unfolding release_name session_row
allowed_by_name = refl

abbrev dropping : Change (Unit {0})
dropping = record { writes = drop_row "zed" ∷ []; result = tt }

dropped_by_name : by_name used ≡ ok (some dropping)
unfolding session_row
dropped_by_name = refl

release_name-Released_example :
    ReleasedByName around no_traces title_blob "mac" "zed" used used dropping.writes
release_name-Released_example =
    release_name-Released around no_traces title_blob "mac" "zed" used used by_name dropping
      allowed_by_name dropped_by_name
