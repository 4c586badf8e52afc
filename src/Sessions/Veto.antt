-- ===== src/Sessions/Veto.antt =====
-- `run_state`, `cause` and `boot_veto` of src/ai_cli/session_run_state.py.
pub mod Bootable
use ai_cli_utils.Prelude.{
  String, Bool, true, false, not, ◌&&◌, ◌||◌, Option, none, some, List, [], ◌∷◌, ◌==◌,
  if◌then◌else◌,
}
use ai_cli_utils.Value.{null, bool, num, str, arr, obj, end, get, get_or, is_text}
use ai_cli_utils.Value.Dicts.{PyValue, Dict, truthy, or_value, value_eq}
use ai_cli_utils.Sessions.Store.{Result, ok, err, type_error, ◌>>=◌}
use ai_cli_utils.Sessions.Recipe.{valid_boot_recipe}

-- `record.get("run_state") or ("exited" if record.get("ended_at") else "running")`
unfoldable pub run_state : Dict → PyValue
run_state r =
    or_value (get "run_state" r) (str (if truthy (get "ended_at" r) then "exited" else "running"))

-- `(supervisor_exit or exit or {}).get("cause", "unknown")`
abbrev pub exit_cause : PyValue → Result PyValue
exit_cause (obj fs) = ok (get_or "cause" (str "unknown") fs)
exit_cause _ = err type_error

abbrev pub boot_cause : PyValue → Option String → PyValue
boot_cause stored none = str "unknown"
boot_cause stored (some boot) =
    if not (truthy stored) || boot == ""
    then str "unknown"
    else if is_text stored boot
    then str "terminal_quit_or_crash"
    else str "host_reboot"

unfoldable pub cause : Dict → Option String → Result PyValue
unfolding run_state
cause r boot =
    if is_text (run_state r) "exited"
    then exit_cause (or_value (get "supervisor_exit" r) (or_value (get "exit" r) (obj end)))
    else ok (boot_cause (get "boot_id" r) boot)

-- the settings of `session_relaunch`
pub record Relaunch : Type 0 where
  pub on_boot : Bool
  pub causes : List String

pub data Veto : Type 0 where
  boot_off foreign_session denied already_exists liveness_unknown already_attempted : Veto
  cause_forbids : PyValue → Veto
  policy_forbids : PyValue → Veto
  cause_disabled : PyValue → Veto
  bad_recipe : Veto

abbrev pub text_in : PyValue → List String → Bool
text_in v [] = false
text_in v (s ∷ ss) = is_text v s || text_in v ss

-- `DEFAULTS["causes"]`
abbrev pub boot_causes : List String
boot_causes = "host_reboot" ∷ "terminal_quit_or_crash" ∷ []

abbrev pub attempted : Dict → Option String → Bool
attempted r none = false
attempted r (some boot) = not (boot == "") && is_text (get "relaunched_boot_id" r) boot

module _ (is_absolute : String → Bool) where
  -- the tests from the settled cause on
  unfoldable pub settled_veto : Dict → Relaunch → PyValue → Option Veto
  unfolding valid_boot_recipe
  settled_veto r cfg settled =
      let policy = get_or "relaunch" (str "auto") r in
      if not (text_in settled boot_causes)
      then some (cause_forbids settled)
      else if not (text_in policy ("auto" ∷ "always" ∷ []))
      then some (policy_forbids policy)
      else if not (text_in settled cfg.causes)
      then some (cause_disabled settled)
      else if not (valid_boot_recipe is_absolute r)
      then some bad_recipe
      else none

  abbrev pub live_veto : Dict → Relaunch → Option String → Option Bool → Result (Option Veto)
  live_veto r cfg boot none = ok (some liveness_unknown)
  live_veto r cfg boot (some true) = ok (some already_exists)
  live_veto r cfg boot (some false) =
      if attempted r boot
      then ok (some already_attempted)
      else (do settled ← cause r boot; ok (settled_veto r cfg settled))

  -- `tombstone`: whether the deny-boot safety file of the record exists
  unfoldable pub boot_veto :
      Dict → Relaunch → String → Option String → Option Bool → Bool → Result (Option Veto)
  unfolding cause settled_veto
  boot_veto r cfg host boot alive tombstone =
      if not cfg.on_boot
      then ok (some boot_off)
      else if not (is_text (get "kind" r) "local") || not (is_text (get "owning_host" r) host)
      then ok (some foreign_session)
      else if tombstone
      then ok (some denied)
      else live_veto r cfg boot alive
