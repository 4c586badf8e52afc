-- ===== src/Reaper/Evaluate.antt =====
-- The methods of `StaleSessionReaper` in src/ai_cli/stale_session_reaper.py.
use ai_cli_utils.Prelude.{
  String, Bool, true, false, ◌&&◌, Option, none, some, List, [], ◌∷◌, ◌++◌, keep, any, ◌==◌,
  if◌then◌else◌,
}
use ai_cli_utils.Value.{Numbers}
use ai_cli_utils.Reaper.Types.{
  Mode, observe, reap, ReaperConfig, SessionCandidate, Machine, Attempt, returned, raised, FilePath,
}
use ai_cli_utils.Reaper.Exec.{
  Reason, configuration_invalid, tmux_read_failed, candidate_error, mode_observe, lease_unavailable,
  revalidation_failed, logged, acquired, released, fenced, Exec, pure, call, attempt, reraise, emit,
  step_world, ◌>>=◌, ◌>>◌,
}
use ai_cli_utils.Reaper.Checks.{valid_candidate, same_snapshot}
use ai_cli_utils.Reaper.Observe.{
  Observation, log, generation_lease_path, remove_heartbeat, ended_snapshot, heartbeat_is_stale,
}

module _ (n : Numbers) (m : Machine n) where
  open m use {World}

  abbrev pub sole : List SessionCandidate → Option SessionCandidate
  sole (c ∷ []) = some c
  sole _ = none

  abbrev pub same_owner : SessionCandidate → SessionCandidate → Option SessionCandidate
  same_owner original c =
      if c.session_name == original.session_name && c.generation_token == original.generation_token
      then some c
      else none

  -- `_find_exact_current_candidate`, on the sessions that tmux lists
  unfoldable pub exact_current : SessionCandidate → List SessionCandidate → Option SessionCandidate
  exact_current original current =
      elim (sole (keep (λ c. c.session_id == original.session_id) current)) [
        | none ↦ none
        | some c ↦ same_owner original c
      ]

  abbrev pub refuse : Reason → SessionCandidate → Exec World Bool
  refuse reason c = do log n m reason c; pure false

  -- `_remove_after_confirmed_kill`
  abbrev pub still_listed : SessionCandidate → List SessionCandidate → Bool
  still_listed c current = any (λ d. d.session_id == c.session_id) current

  abbrev pub clean_up : SessionCandidate → Exec World Bool
  clean_up c = do
    current ← call m.sessions
    if still_listed c current
        then pure false
        else remove_heartbeat n m c.session_name c.generation_token

  abbrev pub log_raise : SessionCandidate → Attempt Bool → Exec World (Unit {0})
  log_raise c (returned _) = pure tt
  log_raise c raised = log n m tmux_read_failed c

  unfoldable pub remove_after_confirmed_kill : SessionCandidate → Exec World (Unit {0})
  unfolding remove_heartbeat
  remove_after_confirmed_kill c = do r ← attempt (clean_up c); log_raise c r

  -- the call of `fence_and_kill` is recorded before its answer is known
  abbrev pub fence : SessionCandidate → Option String → Exec World Bool
  fence c none = refuse revalidation_failed c
  fence c (some fingerprint) = do
    emit (fenced c.session_id fingerprint)
    done ← call (m.fence_and_kill c.session_id fingerprint)
    if done then pure true else refuse revalidation_failed c

  -- `final is None or not stale or not same_snapshot` is read from left to right
  abbrev pub revalidate :
      ReaperConfig n.Number
      → SessionCandidate
      → List (Observation n m)
      → SessionCandidate
      → Option (List (Observation n m))
      → Exec World Bool
  revalidate cfg c initial refreshed none = pure false
  revalidate cfg c initial refreshed (some final) = do
    stale ← heartbeat_is_stale n m cfg refreshed
    pure (stale && same_snapshot n initial final)

  abbrev pub confirm :
      ReaperConfig n.Number
      → SessionCandidate
      → List (Observation n m)
      → Option SessionCandidate
      → Exec World Bool
  confirm cfg c initial none = refuse revalidation_failed c
  confirm cfg c initial (some refreshed) = do
    final ← ended_snapshot n m refreshed
    unchanged ← revalidate cfg c initial refreshed final
    if unchanged
        then (do fingerprint ← call (m.capture_fingerprint refreshed); fence c fingerprint)
        else refuse revalidation_failed c

  -- the body of the `with` block, where the lease is held
  unfoldable pub under_lease :
      ReaperConfig n.Number → SessionCandidate → List (Observation n m) → Exec World Bool
  unfolding ended_snapshot heartbeat_is_stale exact_current same_snapshot
  under_lease cfg c initial = do
    current ← call m.sessions
    confirm cfg c initial (exact_current c current)

  -- `_exclusive_lease` round the body: the lease is given back on every way out
  abbrev pub take_lease : FilePath → Exec World (Unit {0})
  take_lease path = do call (m.acquire path); emit (acquired path)

  abbrev pub hold :
      ReaperConfig n.Number
      → SessionCandidate
      → List (Observation n m)
      → FilePath
      → Attempt (Unit {0})
      → Exec World Bool
  hold cfg c initial path raised = refuse lease_unavailable c
  hold cfg c initial path (returned _) = do
    r ← attempt (under_lease cfg c initial)
    step_world (m.release path)
    emit (released path)
    reraise r

  unfoldable pub exclusive :
      ReaperConfig n.Number → SessionCandidate → List (Observation n m) → Exec World Bool
  unfolding generation_lease_path
  exclusive cfg c initial =
      let path = generation_lease_path n m c.session_name c.generation_token in
      (do r ← attempt (take_lease path); hold cfg c initial path r)

  abbrev pub finish : SessionCandidate → Bool → Exec World Bool
  finish c false = pure false
  finish c true = do remove_after_confirmed_kill c; pure true

  abbrev pub act :
      ReaperConfig n.Number → SessionCandidate → List (Observation n m) → Mode → Exec World Bool
  act cfg c initial observe = refuse mode_observe c
  act cfg c initial reap = do killed ← exclusive cfg c initial; finish c killed

  abbrev pub with_initial :
      ReaperConfig n.Number → SessionCandidate → Option (List (Observation n m)) → Exec World Bool
  with_initial cfg c none = pure false
  with_initial cfg c (some initial) = do
    stale ← heartbeat_is_stale n m cfg c
    if stale then act cfg c initial cfg.mode else pure false

  -- `_evaluate_candidate`
  unfoldable pub evaluate_candidate : ReaperConfig n.Number → SessionCandidate → Exec World Bool
  unfolding valid_candidate ended_snapshot heartbeat_is_stale exclusive remove_after_confirmed_kill
  evaluate_candidate cfg c =
      if valid_candidate m.is_digit c
      then (do initial ← ended_snapshot n m c; with_initial cfg c initial)
      else refuse tmux_read_failed c

  -- one round of the loop of `evaluate_once`: what a candidate adds to the killed IDs
  abbrev pub outcome : SessionCandidate → Attempt Bool → Exec World (List String)
  outcome c (returned true) = pure (c.session_id ∷ [])
  outcome c (returned false) = pure []
  outcome c raised = do log n m candidate_error c; pure []

  unfoldable pub evaluate_each :
      ReaperConfig n.Number → List SessionCandidate → Exec World (List String)
  unfolding evaluate_candidate
  evaluate_each cfg [] = pure []
  evaluate_each cfg (c ∷ cs) = do
    r ← attempt (evaluate_candidate cfg c)
    here ← outcome c r
    rest ← evaluate_each cfg cs
    pure (here ++ rest)

  abbrev pub evaluate_listed :
      ReaperConfig n.Number → Attempt (List SessionCandidate) → Exec World (List String)
  evaluate_listed cfg (returned candidates) = evaluate_each cfg candidates
  evaluate_listed cfg raised = do emit (logged tmux_read_failed none); pure []

  -- `evaluate_once`, with the settings that the constructor read
  unfoldable pub evaluate_once : Option (ReaperConfig n.Number) → Exec World (List String)
  unfolding evaluate_each
  evaluate_once none = do emit (logged configuration_invalid none); pure []
  evaluate_once (some cfg) = do r ← attempt (call m.sessions); evaluate_listed cfg r
