-- ===== src/Sessions/Launch.antt =====
-- Records of launches and exits: src/ai_cli/session_registry.py.
pub mod Upsert
use ai_cli_utils.Prelude.{
  ℕ, String, Bool, true, false, not, ◌&&◌, ◌||◌, Option, none, some, List, [], ◌∷◌, ◌++◌, keep,
  ◌==◌, if◌then◌else◌,
}
use ai_cli_utils.Value.{null, num, str, arr, obj, end, field, find, get, put, is_text}
use ai_cli_utils.Value.Dicts.{PyValue, Dict, truthy, value_eq}
use ai_cli_utils.Sessions.Store.{
  Doc, Result, ok, err, invalid_cause, Store, Write, mutate, raise_failure, nothing_after,
}

-- `_remote_alias`
abbrev pub dict_get : String → PyValue → PyValue
dict_get k (obj fs) = get k fs
dict_get k _ = null

unfoldable pub remote_alias : Dict → PyValue
remote_alias r = dict_get "alias" (get "remote" r)

-- `_same_session`
unfoldable pub same_session : Dict → Dict → Bool
unfolding remote_alias
same_session a b =
    value_eq (get "kind" a) (get "kind" b)
    && (value_eq (get "name" a) (get "name" b) && value_eq (remote_alias a) (remote_alias b))

abbrev pub optional : Option PyValue → PyValue
optional none = null
optional (some v) = v

-- what `_new_record` is given, and what the machine answers
pub record NewRecord : Type 0 where
  pub kind : String
  pub name : String
  pub relaunch_argv : PyValue
  pub cwd : PyValue
  pub remote : PyValue
  pub iterm2 : PyValue
  pub launcher_pid : PyValue
  pub id : String
  pub now : String
  pub boot_id : PyValue

-- `_new_record`
unfoldable pub new_record : NewRecord → Dict
new_record r = field "id" (str r.id) (
    field "kind" (str r.kind) (
      field "name" (str r.name) (
        field "relaunch_argv" r.relaunch_argv (
          field "cwd" r.cwd (
            field "remote" r.remote (
              field "iterm2" r.iterm2 (
                field "launched_at" (str r.now) (
                  field "refreshed_at" (str r.now) (
                    field "launcher_pid" r.launcher_pid (
                      field "ended_at" null
                        (field "exit" null (field "boot_id" r.boot_id end))))))))))))

-- `DURABLE_FIELDS`
abbrev pub durable_fields : List String
durable_fields =
    "relaunch" ∷ "relaunched_boot_id" ∷ "boot_decision" ∷ "relaunch_decision" ∷ "run_state"
    ∷ "changed_at" ∷ "generation" ∷ "transition_seq" ∷ "boot_recipe" ∷ "supervisor_exit"
    ∷ "owning_host" ∷ "ended_at" ∷ "exit" ∷ "boot_id" ∷ []

abbrev pub copy_found : String → Option PyValue → Dict → Dict
copy_found k none fs = fs
copy_found k (some v) fs = put k v fs

-- `for key in keys: if key in previous: record[key] = previous[key]`
unfoldable pub copy_fields : List String → Dict → Dict → Dict
copy_fields [] previous fs = fs
copy_fields (k ∷ ks) previous fs = copy_fields ks previous (copy_found k (find k previous) fs)

-- The loop over `doc["sessions"]` in `upsert`. The record that is compared with changes as it
-- takes fields over, but not in what `_same_session` compares.
unfoldable pub take_over : List Dict → Dict → Dict
unfolding same_session copy_fields
take_over [] fs = fs
take_over (previous ∷ rest) fs =
    take_over rest (if same_session previous fs then copy_fields durable_fields previous fs else fs)

-- `upsert` of `record_launch`
unfoldable pub upsert : Dict → Doc → Doc
unfolding same_session take_over
upsert fresh doc =
    let new = take_over doc.sessions fresh in
    record doc { sessions = keep (λ r. not (same_session r new)) doc.sessions ++ new ∷ [] }

-- the stamp and the cause that `mark_ended` sets
abbrev pub manual_exit : String → PyValue
manual_exit now = obj (
    field "cause" (str "manual_exit") (
      field "at" (str now) (field "evidence" (obj (field "source" (str "on_clean_exit") end)) end)))

abbrev pub is_null : PyValue → Bool
is_null null = true
is_null _ = false

unfoldable pub end_record : String → Dict → Dict
end_record now r =
    let ended = put "ended_at" (str now) r in
    if is_null (get "exit" r) then put "exit" (manual_exit now) ended else ended

-- `mark` of `mark_ended`: the first record with the ID, and whether there was one
unfoldable pub end_first : String → String → List Dict → Bool × List Dict
unfolding end_record
end_first id now [] = (false, [])
end_first id now (r ∷ rs) =
    let (hit, rest) = end_first id now rs in
    if is_text (get "id" r) id then (true, end_record now r ∷ rs) else (hit, r ∷ rest)

unfoldable pub mark_ended : String → String → Write → Store → Result (Unit {0}) × Store
unfolding end_first mutate
mark_ended id now w s =
    mutate true w raise_failure nothing_after
      (λ doc.
        let (hit, sessions) = end_first id now doc.sessions in
        ok (hit, record doc { sessions = sessions }))
      s

-- `EXIT_CAUSES`
abbrev pub known_cause : String → Bool
known_cause c =
    c == "manual_exit" || c == "terminal_quit_or_crash" || c == "host_reboot" || c == "unknown"

abbrev pub exit_value : String → String → PyValue → PyValue
exit_value cause stamp evidence =
    obj (field "cause" (str cause) (field "at" (str stamp) (field "evidence" evidence end)))

abbrev pub named_by : String → Dict → Bool
named_by key r = is_text (get "id" r) key || is_text (get "name" r) key

-- one record of the loop in `record_exit`
unfoldable pub set_exit : String → String → PyValue → Dict → Dict
set_exit cause stamp evidence r =
    let exited = put "exit" (exit_value cause stamp evidence) r in
    if truthy (get "ended_at" exited) then exited else put "ended_at" (str stamp) exited

-- `mark` of `record_exit`: the marked records beside the sessions
unfoldable pub exit_matching :
    String → String → String → PyValue → List Dict → List Dict × List Dict
unfolding set_exit
exit_matching key cause stamp evidence [] = ([], [])
exit_matching key cause stamp evidence (r ∷ rs) =
    let (marked, rest) = exit_matching key cause stamp evidence rs in
    let r' = set_exit cause stamp evidence r in
    if named_by key r then (r' ∷ marked, r' ∷ rest) else (marked, r ∷ rest)

-- `record_exit` on a document in memory
unfoldable pub record_exit : String → String → String → PyValue → Doc → Result (List Dict × Doc)
unfolding exit_matching
record_exit key cause stamp evidence doc =
    let (marked, sessions) = exit_matching key cause stamp evidence doc.sessions in
    if known_cause cause then ok (marked, record doc { sessions = sessions }) else err invalid_cause
