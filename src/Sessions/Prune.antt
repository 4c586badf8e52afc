-- ===== src/Sessions/Prune.antt =====
-- Removing records: `remove`, `_death_reason` and `prune` of src/ai_cli/session_registry.py.
pub mod Recipes
use ai_cli_utils.Prelude.{
  String, Bool, true, false, not, ◌&&◌, ◌||◌, Option, none, some, List, [], ◌∷◌, any, keep, length,
  eqb, ◌==◌, if◌then◌else◌, is_some,
}
use ai_cli_utils.Value.{get, is_text, obj}
use ai_cli_utils.Value.Dicts.{PyValue, Dict, truthy, value_eq}
use ai_cli_utils.Sessions.Store.{
  Doc, Result, ok, Store, Write, mutate, raise_failure, nothing_after,
}
use ai_cli_utils.Sessions.Launch.{dict_get}

-- `record.get("id") in ids`
abbrev pub in_ids : PyValue → List PyValue → Bool
in_ids v ids = any (λ i. value_eq v i) ids

-- `r.get("id") not in ids or r.get("boot_recipe")`
unfoldable pub stays : List PyValue → Dict → Bool
stays ids r = not (in_ids (get "id" r) ids) || truthy (get "boot_recipe" r)

-- `drop` of `remove`
unfoldable pub drop_ids : List PyValue → Doc → Result (Bool × Doc)
unfolding stays
drop_ids ids doc =
    let kept = keep (stays ids) doc.sessions in
    ok (not (eqb (length kept) (length doc.sessions)), record doc { sessions = kept })

abbrev pub remove_some : List PyValue → Write → Store → Result (Unit {0}) × Store
remove_some [] w s = (ok tt, s)
remove_some (i ∷ ids) w s = mutate true w raise_failure nothing_after (drop_ids (i ∷ ids)) s

unfoldable pub remove : List PyValue → Write → Store → Result (Unit {0}) × Store
unfolding drop_ids mutate
remove ids w s = remove_some ids w s

pub data Death : Type 0 where
  tmux_gone remote_exited remote_gone : Death

-- `is False`
abbrev pub is_false : Option Bool → Bool
is_false (some false) = true
is_false _ = false

abbrev pub remote_session : PyValue → Bool
remote_session (obj remote) = truthy (get "session" remote)
remote_session _ = false

-- `local_alive` asks tmux for the name, `remote_alive` asks the record's host
module _ (local_alive : PyValue → Option Bool) (remote_alive : Dict → Option Bool) where
  unfoldable pub death_reason : Dict → Bool → Option Death
  death_reason r probe_remote =
      if is_text (get "kind" r) "local"
      then if is_false (local_alive (get "name" r)) then some tmux_gone else none
      else if truthy (get "ended_at" r)
      then some remote_exited
      else if probe_remote && (remote_session (get "remote" r) && is_false (remote_alive r))
      then some remote_gone
      else none

  abbrev pub add_verdict : Dict → Option Death → List (PyValue × Death) → List (PyValue × Death)
  add_verdict r none verdicts = verdicts
  add_verdict r (some d) verdicts = (get "id" r, d) ∷ verdicts

  -- the dictionary `verdicts`, the latest entry of an ID first
  unfoldable pub verdicts_from : Bool → List Dict → List (PyValue × Death) → List (PyValue × Death)
  unfolding death_reason
  verdicts_from probe [] verdicts = verdicts
  verdicts_from probe (r ∷ rs) verdicts =
      verdicts_from probe rs (add_verdict r (death_reason r probe) verdicts)

  abbrev pub verdict_of : PyValue → List (PyValue × Death) → Option Death
  verdict_of id [] = none
  verdict_of id ((j, d) ∷ rest) = if value_eq id j then some d else verdict_of id rest

  abbrev pub pair_up : Dict → Option Death → List (Dict × Death) → List (Dict × Death)
  pair_up r none rest = rest
  pair_up r (some d) rest = (r, d) ∷ rest

  -- the records with a verdict, each with it
  unfoldable pub condemned : List (PyValue × Death) → List Dict → List (Dict × Death)
  condemned verdicts [] = []
  condemned verdicts (r ∷ rs) = pair_up r (verdict_of (get "id" r) verdicts) (condemned verdicts rs)

  -- a record with a boot recipe is kept whatever its verdict
  abbrev pub spared : List (PyValue × Death) → Dict → Bool
  spared verdicts r =
      not (is_some (verdict_of (get "id" r) verdicts)) || truthy (get "boot_recipe" r)

  unfoldable pub removed_by : List (PyValue × Death) → List Dict → List (Dict × Death)
  unfolding condemned
  removed_by verdicts rs = condemned verdicts (keep (λ r. not (truthy (get "boot_recipe" r))) rs)

  abbrev pub has_any : List (Dict × Death) → Bool
  has_any [] = false
  has_any (x ∷ xs) = true

  -- `drop` of `prune`
  unfoldable pub drop_condemned : List (PyValue × Death) → Doc → Result (Bool × Doc)
  unfolding removed_by
  drop_condemned verdicts doc = ok (
    has_any (removed_by verdicts doc.sessions),
    record doc { sessions = keep (spared verdicts) doc.sessions },
  )

  abbrev pub prune_by :
      Bool
      → List (PyValue × Death)
      → List Dict
      → Write
      → Store
      → (List (Dict × Death)) × (Result (Unit {0}) × Store)
  prune_by dry_run [] snapshot w s = ([], (ok tt, s))
  prune_by true verdicts snapshot w s = (condemned verdicts snapshot, (ok tt, s))
  prune_by false verdicts snapshot w s = (
    removed_by verdicts s.doc.sessions,
    mutate true w raise_failure nothing_after (drop_condemned verdicts) s,
  )

  -- `prune`: `snapshot` is what the registry held when the verdicts were made, before the lock
  unfoldable pub prune :
      Bool → Bool → List Dict → Write → Store → (List (Dict × Death)) × (Result (Unit {0}) × Store)
  unfolding verdicts_from drop_condemned mutate
  prune probe_remote dry_run snapshot w s =
      prune_by dry_run (verdicts_from probe_remote snapshot []) snapshot w s
