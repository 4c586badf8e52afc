-- ===== src/Names/Release.antt =====
-- Releasing names that are not used any more: `reconcile` of src/ai_cli/name_registry.py.
pub mod ByName
pub mod Found
pub mod Tested
use ai_cli_utils.Prelude.{
  ℕ, String, Bool, true, false, not, ◌&&◌, ◌||◌, Option, none, some, List, [], ◌∷◌, ◌++◌, map, keep,
  any, leb, sort_by, ◌==◌, if◌then◌else◌, is_some,
}
use ai_cli_utils.Value.{get, find, is_text}
use ai_cli_utils.Value.Dicts.{Dict, PyValue, value_eq, truthy}
use ai_cli_utils.Value.Files.{lookup}
use ai_cli_utils.Names.Pick.{text_in, size, text_le}
use ai_cli_utils.Names.Snapshot.{
  Snapshot, Policy, Outcome, ok, err, ◌>>=◌, write_refused, Write, put_row, drop_row, Change, Build,
  policy, rows_of, held_tokens, values, keys, Entries,
}
use ai_cli_utils.Names.Reserve.{Surroundings, Slot, spare_writes, checked_row}
use ai_cli_utils.Names.Ledger.{as_text, owned}

-- what a test of a worktree or of a transcript finds
pub data Presence : Type 0 where
  present absent unsure : Presence

-- what the tests ask this machine about a row that names a worktree: whether its path exists,
-- whether its repository is a directory, whether `git worktree list` fails or lists the path, and
-- what the store of the row's client says of a transcript; a client without a store says nothing
pub record Probes : Type 0 where
  pub path_exists : Dict → Bool
  pub repo_is_dir : Dict → Bool
  pub registered : Dict → Option Bool
  pub transcript : Dict → Option Presence

-- `Absence`
pub record Absence : Type 0 where
  pub worktree_found : Presence
  pub transcript_found : Presence

abbrev pub is_absent : Presence → Bool
is_absent present = false
is_absent absent = true
is_absent unsure = false

abbrev pub releasable : Absence → Bool
releasable a = is_absent a.worktree_found && is_absent a.transcript_found

-- `_renaming` and `_over_limits`
unfoldable pub renaming : Snapshot → Dict → Bool
unfolding value_eq
renaming s row =
    any
      (λ entry.
        is_text (get "status" entry) "intent"
        && (value_eq (get "title" row) (get "old_title" entry)
            || value_eq (get "title" row) (get "new_title" entry)))
      (values s.migrations)

abbrev pub over_limits : String → Policy → Bool
over_limits name p = not (leb p.min_name_length (size name) && leb (size name) p.max_name_length)

module _ (probes : Probes) where
  -- `probe_absence`
  abbrev pub listed_worktree : Option Bool → Presence
  listed_worktree none = unsure
  listed_worktree (some true) = present
  listed_worktree (some false) = absent

  abbrev pub worktree_state : Dict → Presence
  worktree_state row =
      if not (truthy (get "worktree" row)) || not (truthy (get "repo" row))
      then absent
      else if probes.path_exists row
      then present
      else if probes.repo_is_dir row
      then listed_worktree (probes.registered row)
      else absent

  abbrev pub transcript_state : Option Presence → Presence
  transcript_state none = unsure
  transcript_state (some state) = state

  unfoldable pub probe_absence : Dict → Absence
  probe_absence row = record {
    worktree_found = worktree_state row;
    transcript_found = transcript_state (probes.transcript row);
  }

pub record Report : Type 0 where
  pub released : List String
  pub spares_released : List String
  pub spares_added : List String

-- `sorted` of texts
abbrev pub sorted : List String → List String
sorted = sort_by text_le

-- a pass ends with a report, or goes on with a transaction
pub data Next : Type 0 where
  reports : Report → Next
  transacts : Build Report → Next

-- a token with the blob that its row had when it was read
abbrev pub Marked : Type 0
Marked = String × String

abbrev pub tokens : List Marked → List String
tokens [] = []
tokens ((token, blob) ∷ rest) = token ∷ tokens rest

-- `blob` is the ID that the registry gives to the content of a row
module _ (env : Surroundings) (probes : Probes) (blob : Dict → String) (machine : String) where
  -- `title is None or row.get("title") == title`
  abbrev pub wanted : Option String → Dict → Bool
  wanted none row = true
  wanted (some title) row = is_text (get "title" row) title

  abbrev pub is_spare : Dict → Bool
  is_spare row = is_text (get "kind" row) "spare"

  abbrev pub incomplete : Dict → Bool
  incomplete row = is_text (get "state" row) "migration-incomplete"

  -- the rows that may be released, each with its blob
  unfoldable pub is_candidate : Option String → Snapshot → Dict → Bool
  unfolding renaming probe_absence
  is_candidate title tested row =
      owned env row machine
      && not (is_spare row)
      && wanted title row
      && not (incomplete row)
      && not (renaming tested row)
      && releasable (probe_absence probes row)

  unfoldable pub candidates_in : Option String → Snapshot → Entries → List Marked
  unfolding is_candidate
  candidates_in title tested [] = []
  candidates_in title tested ((token, row) ∷ rest) =
      let others = candidates_in title tested rest in
      if is_candidate title tested row then (token, blob row) ∷ others else others

  abbrev pub same_blob : Option Dict → String → Bool
  same_blob none b = false
  same_blob (some row) b = blob row == b

  -- whether a row is still what it was when it was read
  abbrev pub unchanged : Snapshot → Marked → Bool
  unchanged s (token, b) = same_blob (lookup token s.rows) b

  -- the spares of this machine that nobody has taken and that the limits do not allow any more
  abbrev pub blob_at : Option Dict → String
  blob_at none = ""
  blob_at (some row) = blob row

  unfoldable pub spares_in : Snapshot → Entries → Policy → List Dict → List Marked
  spares_in s spool p [] = []
  spares_in s spool p (row ∷ rows) =
      let others = spares_in s spool p rows in
      let token = as_text env (get "token" row) in
      if not (text_in token (keys spool)) && over_limits token p
      then (token, blob_at (lookup token s.rows)) ∷ others
      else others

  abbrev pub spare_plan : Option String → Snapshot → Entries → Outcome (List Marked)
  spare_plan (some title) s spool = ok []
  spare_plan none s spool = do p ← policy s; ok (spares_in s spool p (rows_of machine "spare" s))

  -- what `reconcile` has found before it writes: the rows and the spares to release
  unfoldable pub reconcile_plan :
      Option String → Snapshot → Snapshot → Entries → Outcome (List Marked × List Marked)
  unfolding candidates_in spares_in policy rows_of
  reconcile_plan title tested s spool = do
    spares ← spare_plan title s spool
    ok (keep (unchanged s) (candidates_in title tested tested.rows), spares)

  -- whether a row that was found may still be released from the tip
  abbrev pub row_ready : Snapshot → String → Option Dict → Bool
  row_ready tip b none = false
  row_ready tip b (some row) =
      blob row == b && owned env row machine && not (incomplete row) && not (renaming tip row)

  abbrev pub ready : Snapshot → Marked → Bool
  ready tip (token, b) = row_ready tip b (lookup token tip.rows)

  abbrev pub spare_row_ready : Entries → Policy → String → String → Option Dict → Bool
  spare_row_ready spool p token b none = false
  spare_row_ready spool p token b (some row) =
      is_spare row
      && blob row == b
      && owned env row machine
      && not (text_in token (keys spool))
      && over_limits token p

  abbrev pub spare_ready : Snapshot → Entries → Policy → Marked → Bool
  spare_ready tip spool p (token, b) = spare_row_ready spool p token b (lookup token tip.rows)

  abbrev pub without : List String → Entries → Entries
  without gone [] = []
  without gone ((token, row) ∷ rest) =
      let others = without gone rest in if text_in token gone then others else (token, row) ∷ others

  abbrev pub drops : List String → List Write
  drops [] = []
  drops (token ∷ rest) = drop_row token ∷ drops rest

  abbrev pub change_of : List Write → Report → Outcome (Option (Change Report))
  change_of [] report = ok none
  change_of (w ∷ ws) report = ok (some (record { writes = w ∷ ws; result = report }))

  abbrev pub top_up_slot : String → Slot
  top_up_slot host_alias = record {
    repo = "";
    repo_alias = "";
    host_alias = host_alias;
    label = none;
    machine = machine;
    client = "";
    worktree = true;
  }

  -- `build` of `reconcile`: release what is still as it was found, and fill up the spares
  unfoldable pub reconcile_build : String → List Marked × List Marked → Entries → Build Report
  unfolding policy held_tokens spare_writes renaming
  reconcile_build host_alias plan spool tip = do
    p ← policy tip
    let rows_out = tokens (keep (ready tip) plan.0)
    let spares_out = tokens (keep (spare_ready tip spool p) plan.1)
    let gone = rows_out ++ spares_out
    top_up ←
        spare_writes env (record tip { rows = without gone tip.rows }) (top_up_slot host_alias)
          (keep (λ token. not (text_in token gone)) (held_tokens tip spool)) none
    change_of (drops gone ++ top_up.0)
        (record { released = rows_out; spares_released = spares_out; spares_added = top_up.1 })

  -- what is done with the plan: a dry run reports it, a title with nothing to release ends there, and
  -- otherwise a transaction is run
  abbrev pub reconcile_next :
      Bool → Option String → String → List Marked × List Marked → Entries → Next
  reconcile_next true title host_alias plan spool = reports (record {
    released = sorted (tokens plan.0);
    spares_released = sorted (tokens plan.1);
    spares_added = [];
  })
  reconcile_next false (some title) host_alias ([], []) spool =
      reports (record { released = []; spares_released = []; spares_added = [] })
  reconcile_next false title host_alias plan spool =
      transacts (reconcile_build host_alias plan spool)

  -- `reconcile` from its first snapshot on: what the tests find in `tested` is compared with the
  -- second snapshot `again`, read with the spool `before`; `spool` is what `build` reads
  unfoldable pub reconcile :
      Bool → Option String → String → Snapshot → Snapshot → Entries → Entries → Outcome Next
  unfolding reconcile_plan reconcile_build
  reconcile dry_run title host_alias tested again before spool = do
    plan ← reconcile_plan title tested again before
    ok (reconcile_next dry_run title host_alias plan spool)
