-- ===== src/Reaper/Observe.antt =====
-- What the reaper of src/ai_cli/stale_session_reaper.py reads: heartbeats and the panes' processes.
use ai_cli_utils.Prelude.{
  ℕ, String, Bool, true, false, Option, none, some, List, [], ◌∷◌, ◌++◌, ltb, if◌then◌else◌,
}
use Prim.Native.String.{◌++◌ as append}
use ai_cli_utils.Value.{Numbers, Value, get, is_text}
use ai_cli_utils.Reaper.Types.{
  ReaperConfig, Pane, SessionCandidate, ProcessIdentity, ProcessObservation, Machine, Attempt,
  returned, raised, FilePath,
}
use ai_cli_utils.Reaper.Exec.{
  Reason, pid_invalid, process_live, process_unknown, heartbeat_missing, logged, unlinked, Exec,
  pure, call, attempt, reraise, emit, ◌>>=◌, ◌>>◌,
}
use ai_cli_utils.Reaper.Checks.{contains, heartbeat_verdict, fields_of}

module _ (n : Numbers) (m : Machine n) where
  open n use {Number}
  open m use {World}

  abbrev pub Observation : Type 0
  Observation = ProcessObservation Number

  abbrev pub log : Reason → SessionCandidate → Exec World (Unit {0})
  log reason c = emit (logged reason (some c))

  -- `f"{encode(session_name)}-{encode(generation_token)}{suffix}"`
  abbrev pub ledger_name : String → String → String → String
  ledger_name name token suffix =
      append (m.encode_component name) (append "-" (append (m.encode_component token) suffix))

  unfoldable pub heartbeat_path : String → String → FilePath
  heartbeat_path name token =
      m.state_home ++ "session-heartbeats" ∷ ledger_name name token ".json" ∷ []

  unfoldable pub generation_lease_path : String → String → FilePath
  generation_lease_path name token =
      m.state_home ++ "session-leases" ∷ ledger_name name token ".lock" ∷ []

  -- `remove_heartbeat`: the answer; a raise inside is caught
  abbrev pub owned_by : String → Value Number → Bool
  owned_by token value = elim (fields_of n value) [
    | none ↦ false
    | some fields ↦ is_text (get "generation_token" fields) token
  ]

  abbrev pub remove_owned : String → FilePath → Exec World Bool
  remove_owned token path = do
    value ← call (m.read_json path)
    if owned_by token value
        then (do call (m.unlink path); emit (unlinked path); pure true)
        else pure false

  abbrev pub or_false : Attempt Bool → Exec World Bool
  or_false (returned b) = pure b
  or_false raised = pure false

  unfoldable pub remove_heartbeat : String → String → Exec World Bool
  unfolding heartbeat_path
  remove_heartbeat name token = do
    r ← attempt (remove_owned token (heartbeat_path name token))
    or_false r

  -- What the `try` block of `_ended_snapshot` finds of a positive pid.
  pub data Probe : Type 0 where
    ended : Observation → Probe
    refused : Reason → Probe

  abbrev pub gone : Pane → Observation
  gone pane = record { pane = pane; state = "GONE"; identity = none }

  abbrev pub identified : Pane → String → Option (ProcessIdentity Number) → Exec World Probe
  identified pane state none = pure (refused process_unknown)
  identified pane state (some i) =
      pure (ended (record { pane = pane; state = state; identity = some i }))

  abbrev pub probe_ended : Pane → ℕ → String → Exec World Probe
  probe_ended pane pid state = do
    identity ← call (m.capture_identity pid)
    identified pane state identity

  abbrev pub probe_state : Pane → ℕ → Option String → Exec World Probe
  probe_state pane pid none = pure (refused process_unknown)
  probe_state pane pid (some state) =
      if contains m.ended_states state
      then probe_ended pane pid state
      else pure (refused process_live)

  abbrev pub probe_pid : Pane → ℕ → Exec World Probe
  probe_pid pane pid = do
    present ← call (m.is_present pid)
    if present
        then (do state ← call (m.process_state pid); probe_state pane pid state)
        else pure (ended (gone pane))

  abbrev pub settle : SessionCandidate → Attempt Probe → Exec World (Option Observation)
  settle c (returned (ended o)) = pure (some o)
  settle c (returned (refused reason)) = do log reason c; pure none
  settle c raised = do log process_unknown c; pure none

  -- one round of the loop of `_ended_snapshot`
  abbrev pub observe_positive : SessionCandidate → Pane → ℕ → Exec World (Option Observation)
  observe_positive c pane pid =
      if ltb 0 pid
      then (do r ← attempt (probe_pid pane pid); settle c r)
      else (do log pid_invalid c; pure none)

  abbrev pub observe_reaped : SessionCandidate → Pane → Option ℕ → Exec World (Option Observation)
  observe_reaped c pane none = do log pid_invalid c; pure none
  observe_reaped c pane (some _) = pure (some (gone pane))

  abbrev pub observe_by_pid : SessionCandidate → Pane → Option ℕ → Exec World (Option Observation)
  observe_by_pid c pane none = observe_reaped c pane pane.dead_time
  observe_by_pid c pane (some pid) = observe_positive c pane pid

  unfoldable pub observe_pane : SessionCandidate → Pane → Exec World (Option Observation)
  observe_pane c pane = observe_by_pid c pane pane.pid

  abbrev pub prepend : Observation → Option (List Observation) → Option (List Observation)
  prepend o none = none
  prepend o (some rest) = some (o ∷ rest)

  -- `rest` is the loop over the panes that are left
  abbrev pub observe_rest :
      Exec World (Option (List Observation))
      → Option Observation
      → Exec World (Option (List Observation))
  observe_rest rest none = pure none
  observe_rest rest (some o) = do seen ← rest; pure (prepend o seen)

  -- the loop over the panes; the first refusal ends it
  unfoldable pub observe_panes :
      SessionCandidate → List Pane → Exec World (Option (List Observation))
  unfolding observe_pane
  observe_panes c [] = pure (some [])
  observe_panes c (pane ∷ panes) = do
    seen ← observe_pane c pane
    observe_rest (observe_panes c panes) seen

  -- `_ended_snapshot`
  unfoldable pub ended_snapshot : SessionCandidate → Exec World (Option (List Observation))
  unfolding observe_panes
  ended_snapshot c = observe_panes c c.panes

  abbrev pub read_heartbeat : SessionCandidate → Exec World (Value Number × Option String × Number)
  read_heartbeat c = do
    value ← call (m.read_json (heartbeat_path c.session_name c.generation_token))
    boot ← call m.boot_generation
    now ← call m.monotonic_clock
    pure (value, boot, now)

  abbrev pub report : SessionCandidate → Option Reason → Exec World Bool
  report c none = pure true
  report c (some reason) = do log reason c; pure false

  -- what is decided is logged, and what raises is raised
  abbrev pub conclude : SessionCandidate → Attempt (Option Reason) → Exec World Bool
  conclude c (returned x) = report c x
  conclude c raised = reraise raised

  abbrev pub judge :
      ReaperConfig Number
      → SessionCandidate
      → Attempt (Value Number × Option String × Number)
      → Exec World Bool
  judge cfg c (returned (value, boot, now)) = conclude c (heartbeat_verdict n cfg c value boot now)
  judge cfg c raised = report c (some heartbeat_missing)

  -- `_heartbeat_is_stale`
  unfoldable pub heartbeat_is_stale : ReaperConfig Number → SessionCandidate → Exec World Bool
  unfolding heartbeat_path heartbeat_verdict
  heartbeat_is_stale cfg c = do r ← attempt (read_heartbeat c); judge cfg c r
