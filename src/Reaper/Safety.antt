-- ===== src/Reaper/Safety.antt =====
-- Every call of `fence_and_kill` is warranted.
use ai_cli_utils.Prelude.{
  ◌≡◌, refl, String, Bool, true, false, Option, none, some, List, if◌then◌else◌, inl, inr,
  Bool-cases,
}
use ai_cli_utils.Value.{Numbers}
use ai_cli_utils.Reaper.Types.{
  Mode, observe, reap, ReaperConfig, SessionCandidate, Machine, Attempt, returned, raised, FilePath,
}
use ai_cli_utils.Reaper.Exec.{
  tmux_read_failed, mode_observe, Event, logged, unlinked, State, pure, call, attempt, emit, ◌>>◌,
}
use ai_cli_utils.Reaper.Emits.{
  Emits, Emits-pure, Emits-call, Emits-if, Emits-attempt, Emits-emit, Emits-bind,
}
use ai_cli_utils.Reaper.Checks.{valid_candidate}
use ai_cli_utils.Reaper.Observe.{
  Observation, ended_snapshot, heartbeat_is_stale, heartbeat_path, remove_heartbeat, remove_owned,
  owned_by, or_false,
}
use ai_cli_utils.Reaper.Evaluate.{
  exclusive, act, finish, with_initial, evaluate_candidate, clean_up, remove_after_confirmed_kill,
  log_raise, still_listed,
}
use ai_cli_utils.Reaper.Snapshot.{ended_snapshot_sound}
use ai_cli_utils.Reaper.Quiet.{Emits-refuse, ended_snapshot-Emits, heartbeat_is_stale-Emits}
use ai_cli_utils.Reaper.Warrant.{Sighted, heartbeat_is_stale_sound, Warranted}
use ai_cli_utils.Reaper.Fence.{exclusive-Emits}

module _ (n : Numbers) (m : Machine n) (cfg : ReaperConfig n.Number) (c : SessionCandidate)
    (start : State m.World) where
  abbrev P : Event → Type 0
  P = Warranted n m cfg c start

  remove_owned-Emits :
      (token : String) (path : FilePath) (s : State m.World)
      → Emits P (remove_owned n m token path) s
  remove_owned-Emits token path s =
      Emits-bind P (call (m.read_json path)) _ s (Emits-call P _ s) (λ v t _.
        Emits-if P (owned_by n m token v)
          (call (m.unlink path) >> (emit (unlinked path) >> pure true)) (pure false) t
          (λ _. Emits-bind P (call (m.unlink path)) _ t (Emits-call P _ t) (λ _ u _.
            Emits-bind P (emit (unlinked path)) _ u (Emits-emit P (unlinked path) u tt)
              (λ _ w _. Emits-pure P true w)))
          (λ _. Emits-pure P false t))

  remove_heartbeat-Emits :
      (name token : String) (s : State m.World) → Emits P (remove_heartbeat n m name token) s
  unfolding remove_heartbeat
  remove_heartbeat-Emits name token s =
      let path = heartbeat_path n m name token in
      Emits-bind P (attempt (remove_owned n m token path)) (or_false n m) s
        (Emits-attempt P (remove_owned n m token path) s (remove_owned-Emits token path s))
        (λ r t _. or_false-Emits r t)
    where
      or_false-Emits : (r : Attempt Bool) (t : State m.World) → Emits P (or_false n m r) t
      or_false-Emits (returned b) t = Emits-pure P b t
      or_false-Emits raised t = Emits-pure P false t

  clean_up-Emits : (s : State m.World) → Emits P (clean_up n m c) s
  clean_up-Emits s = Emits-bind P (call m.sessions) _ s (Emits-call P _ s) (λ listed t _.
      Emits-if P (still_listed n m c listed) (pure false)
        (remove_heartbeat n m c.session_name c.generation_token) t (λ _. Emits-pure P false t)
        (λ _. remove_heartbeat-Emits c.session_name c.generation_token t))

  finish-Emits : (killed : Bool) (s : State m.World) → Emits P (finish n m c killed) s
  unfolding remove_after_confirmed_kill
  finish-Emits false s = Emits-pure P false s
  finish-Emits true s =
      Emits-bind P (remove_after_confirmed_kill n m c) _ s
        (Emits-bind P (attempt (clean_up n m c)) (log_raise n m c) s
          (Emits-attempt P (clean_up n m c) s (clean_up-Emits s)) (λ r t _. log_raise-Emits r t))
        (λ _ t _. Emits-pure P true t)
    where
      log_raise-Emits : (r : Attempt Bool) (t : State m.World) → Emits P (log_raise n m c r) t
      log_raise-Emits (returned b) t = Emits-pure P tt t
      log_raise-Emits raised t = Emits-emit P (logged tmux_read_failed (some c)) t tt

  module _ (valid : valid_candidate m.is_digit c ≡ true) where
    act-Emits :
        (mode : Mode) (s : State m.World) (sight : Sighted n m cfg c start s)
        → cfg.mode ≡ mode
        → Emits P (act n m cfg c sight.observed mode) s
    act-Emits observe s sight e = Emits-refuse n m P (λ _ _. tt) false mode_observe c s
    act-Emits reap s sight e =
        Emits-bind P (exclusive n m cfg c sight.observed) (finish n m c) s
          (exclusive-Emits n m cfg c start valid e s sight) (λ killed t _. finish-Emits killed t)

    with_initial-Emits :
        (x : Option (List (Observation n m))) (s : State m.World)
        → ended_snapshot n m c start ≡ (returned x, s)
        → Emits P (with_initial n m cfg c x) s
    with_initial-Emits none s seen = Emits-pure P false s
    with_initial-Emits (some first) s seen =
        Emits-bind P (heartbeat_is_stale n m cfg c) _ s
          (heartbeat_is_stale-Emits n m P (λ _ _. tt) cfg c s) (λ b t judged. go b t judged)
      where
        go :
            (b : Bool) (t : State m.World)
            → heartbeat_is_stale n m cfg c s ≡ (returned b, t)
            → Emits P (if b then act n m cfg c first cfg.mode else pure false) t
        go true t judged =
            act-Emits cfg.mode t
              (record {
                observed = first;
                between = s;
                seen = seen;
                ended = ended_snapshot_sound n m c start seen;
                judged = judged;
                stale = heartbeat_is_stale_sound n m cfg c s judged;
              })
              refl
        go false t judged = Emits-pure P false t

  -- While a candidate is evaluated, whatever the machine answers and whatever raises, each call of
  -- `fence_and_kill` is for the candidate's own session and has a warrant, whose steps follow one
  -- another from the state in which the evaluation starts: reap mode, a valid candidate, every pane
  -- seen ended and the heartbeat of its generation found stale; then the lease taken and the
  -- sessions listed again; then in the exact session that is listed, which has the same panes, every
  -- pane seen ended and the heartbeat found stale a second time; then a fingerprint captured from it.
  pub evaluate_candidate-Warranted :
      Emits (Warranted n m cfg c start) (evaluate_candidate n m cfg c) start
  unfolding evaluate_candidate
  evaluate_candidate-Warranted = elim (Bool-cases (valid_candidate m.is_digit c)) [
    | inl valid ↦ rw valid (
        Emits-bind P (ended_snapshot n m c) (with_initial n m cfg c) start
          (ended_snapshot-Emits n m P (λ _ _. tt) c start)
          (λ x t seen. with_initial-Emits valid x t seen))
    | inr invalid ↦ rw invalid (Emits-refuse n m P (λ _ _. tt) false tmux_read_failed c start)
  ]
