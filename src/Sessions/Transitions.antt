-- ===== src/Sessions/Transitions.antt =====
-- `register`, `begin`, `mark` and `reconcile_safety` of src/ai_cli/session_run_state.py.
pub mod Found
use ai_cli_utils.Prelude.{
  ℕ, String, Bool, true, false, not, ◌&&◌, ◌||◌, Option, none, some, List, [], ◌∷◌, ◌++◌, any, keep,
  leb, ltb, ◌==◌, if◌then◌else◌,
}
use ai_cli_utils.Value.{
  null, bool, num, str, arr, obj, end, field, find, get, get_or, put, set_default, update, is_text,
}
use ai_cli_utils.Value.Dicts.{PyValue, Dict, truthy, value_eq, as_number}
use ai_cli_utils.Sessions.Store.{
  Doc, Refusal, not_registered, stale_generation, stale_sequence, safety_veto, no_recipe,
  foreign_host, storage_error, type_error, Result, ok, err, ◌>>=◌, Store, Write, mutate,
  raise_failure, nothing_after,
}
use ai_cli_utils.Sessions.Launch.{known_cause, record_exit}

abbrev pub is_local_named : String → Dict → Bool
is_local_named name r = is_text (get "kind" r) "local" && is_text (get "name" r) name

-- `_find`
unfoldable pub find_session : String → List Dict → Result Dict
find_session name [] = err not_registered
find_session name (r ∷ rs) = if is_local_named name r then ok r else find_session name rs

-- what is done to the record that `_find` answers: it stays in its place in the document
unfoldable pub modify : String → (Dict → Dict) → List Dict → List Dict
modify name f [] = []
modify name f (r ∷ rs) = if is_local_named name r then f r ∷ rs else r ∷ modify name f rs

abbrev pub with_sessions : Doc → List Dict → Doc
with_sessions doc rs = record doc { sessions = rs }

-- `register`
abbrev pub add_if_missing : String → Dict → List Dict → List Dict
add_if_missing name fresh rs = if any (is_local_named name) rs then rs else rs ++ fresh ∷ []

unfoldable pub register_record : Dict → String → Bool → Dict → Dict
register_record recipe host new_start r =
    let recorded =
      if new_start
      then put "relaunch_argv" (get "argv" recipe)
          (put "cwd" (get "cwd" recipe) (put "boot_recipe" (obj recipe) r))
      else set_default "boot_recipe" (obj recipe) r in
    set_default "relaunch" (str "auto") (set_default "owning_host" (str host) recorded)

unfoldable pub register :
    String → Dict → String → Bool → Dict → Write → Store → Result (Unit {0}) × Store
unfolding modify register_record mutate
register name recipe host new_start fresh w s =
    mutate true w raise_failure nothing_after
      (λ doc. ok (
        true,
        with_sessions doc (
            modify name (register_record recipe host new_start)
              (add_if_missing name fresh doc.sessions)),
      ))
      s

-- `begin`: reconstruction of a record from a recovery recipe
abbrev pub other_host : String → Dict → Bool
other_host host r = not (is_text (get_or "owning_host" (str host) r) host)

abbrev pub first_lacks_recipe : List Dict → Bool
first_lacks_recipe [] = false
first_lacks_recipe (r ∷ rs) = not (truthy (get "boot_recipe" r))

unfoldable pub recover_record : Dict → String → Dict → Dict
recover_record recipe host r =
    if truthy (get "boot_recipe" r)
    then r
    else set_default "relaunch" (str "never")
        (put "owning_host" (str host) (put "boot_recipe" (obj recipe) r))

abbrev pub recover : String → Option (Dict × String × Dict) → List Dict → Result (List Dict)
recover name none rs = ok rs
recover name (some (recipe, host, fresh)) rs =
    let matches = keep (is_local_named name) rs in
    if first_lacks_recipe matches && any (other_host host) matches
    then err foreign_host
    else ok (modify name (recover_record recipe host) (add_if_missing name fresh rs))

abbrev pub set_command : Option PyValue → PyValue → Result PyValue
set_command none recipe = ok recipe
set_command (some command) (obj recipe) = ok (obj (put "command" command recipe))
set_command (some command) _ = err type_error

abbrev pub begun : String → PyValue → Dict → Dict
begun generation recipe r =
    put "transition_seq" (num 0) (put "generation" (str generation) (put "boot_recipe" recipe r))

abbrev pub start : String → Option PyValue → String → List Dict → Dict → Result (List Dict)
start name command generation rs r =
    if truthy (get "boot_recipe" r)
    then (do
      recipe ← set_command command (get "boot_recipe" r)
      ok (modify name (begun generation recipe) rs))
    else err no_recipe

unfoldable pub begin_change :
    String → Option PyValue → Option (Dict × String × Dict) → String → Doc → Result (Bool × Doc)
unfolding find_session modify recover_record
begin_change name command recovery generation doc = do
  rs ← recover name recovery doc.sessions
  r ← find_session name rs
  rs' ← start name command generation rs r
  ok (true, with_sessions doc rs')

unfoldable pub begin :
    String
    → Option PyValue
    → Option (Dict × String × Dict)
    → String
    → Write
    → Store
    → Result (Unit {0}) × Store
unfolding begin_change mutate
begin name command recovery generation w s =
    mutate true w raise_failure nothing_after (begin_change name command recovery generation) s

-- `record.get("transition_seq", 0)`, where a number is asked for
abbrev pub number : PyValue → Result ℕ
number (num x) = ok x
number (bool b) = ok (as_number b)
number _ = err type_error

abbrev pub sequence_of : Dict → Result ℕ
sequence_of r = number (get_or "transition_seq" (num 0) r)
