-- ===== src/Reaper/Quiet.antt =====
-- Reading heartbeats and processes changes nothing: only log lines are recorded.
use ai_cli_utils.Prelude.{ℕ, String, false, Option, none, some, List, [], ◌∷◌, ltb}
use ai_cli_utils.Value.{Numbers, Value}
use ai_cli_utils.Reaper.Types.{
  ReaperConfig, Pane, SessionCandidate, ProcessIdentity, Machine, Attempt, returned, raised,
}
use ai_cli_utils.Reaper.Exec.{
  Reason, heartbeat_missing, process_live, process_unknown, pid_invalid, Event, logged, State, pure,
  call, attempt, emit, ◌>>=◌, ◌>>◌,
}
use ai_cli_utils.Reaper.Emits.{
  Emits, Emits-pure, Emits-call, Emits-if, Emits-attempt, Emits-emit, Emits-bind, Emits-reraise,
}
use ai_cli_utils.Reaper.Checks.{contains, heartbeat_verdict}
use ai_cli_utils.Reaper.Observe.{
  Observation, Probe, ended, refused, gone, log, probe_pid, probe_state, probe_ended, identified,
  settle, observe_reaped, observe_by_pid, observe_pane, observe_rest, observe_panes, ended_snapshot,
  read_heartbeat, report, conclude, judge, heartbeat_is_stale,
}

module _ (n : Numbers) (m : Machine n) (P : Event → Type 0)
    (logs : (reason : Reason) (c : SessionCandidate) → P (logged reason (some c))) where
  pub Emits-refuse :
      {A : Type 0} (a : A) (reason : Reason) (c : SessionCandidate) (s : State m.World)
      → Emits P (log n m reason c >> pure a) s
  Emits-refuse a reason c s =
      Emits-bind P (emit (logged reason (some c))) (λ _. pure a) s
        (Emits-emit P (logged reason (some c)) s (logs reason c)) (λ _ t _. Emits-pure P a t)

  identified-Emits :
      (pane : Pane) (state : String) (x : Option (ProcessIdentity n.Number)) (s : State m.World)
      → Emits P (identified n m pane state x) s
  identified-Emits pane state none s = Emits-pure P _ s
  identified-Emits pane state (some i) s = Emits-pure P _ s

  probe_state-Emits :
      (pane : Pane) (pid : ℕ) (x : Option String) (s : State m.World)
      → Emits P (probe_state n m pane pid x) s
  probe_state-Emits pane pid none s = Emits-pure P _ s
  probe_state-Emits pane pid (some state) s =
      Emits-if P (contains m.ended_states state) (probe_ended n m pane pid state)
        (pure (refused process_live)) s
        (λ _.
          Emits-bind P (call (m.capture_identity pid)) (identified n m pane state) s
            (Emits-call P _ s) (λ x t _. identified-Emits pane state x t))
        (λ _. Emits-pure P (refused process_live) s)

  probe_pid-Emits : (pane : Pane) (pid : ℕ) (s : State m.World) → Emits P (probe_pid n m pane pid) s
  probe_pid-Emits pane pid s =
      Emits-bind P (call (m.is_present pid)) _ s (Emits-call P _ s) (λ b t _.
        Emits-if P b (call (m.process_state pid) >>= probe_state n m pane pid)
          (pure (ended (gone n m pane))) t
          (λ _.
            Emits-bind P (call (m.process_state pid)) (probe_state n m pane pid) t
              (Emits-call P _ t) (λ x u _. probe_state-Emits pane pid x u))
          (λ _. Emits-pure P (ended (gone n m pane)) t))

  settle-Emits :
      (c : SessionCandidate) (r : Attempt (Probe n m)) (s : State m.World)
      → Emits P (settle n m c r) s
  settle-Emits c (returned (ended o)) s = Emits-pure P _ s
  settle-Emits c (returned (refused reason)) s = Emits-refuse none reason c s
  settle-Emits c raised s = Emits-refuse none process_unknown c s

  observe_by_pid-Emits :
      (c : SessionCandidate) (pane : Pane) (x : Option ℕ) (s : State m.World)
      → Emits P (observe_by_pid n m c pane x) s
  observe_by_pid-Emits c pane none s = reaped pane.dead_time
    where
      reaped : (d : Option ℕ) → Emits P (observe_reaped n m c pane d) s
      reaped none = Emits-refuse none pid_invalid c s
      reaped (some d) = Emits-pure P _ s
  observe_by_pid-Emits c pane (some pid) s =
      Emits-if P (ltb 0 pid) (attempt (probe_pid n m pane pid) >>= settle n m c)
        (log n m pid_invalid c >> pure none) s
        (λ _.
          Emits-bind P (attempt (probe_pid n m pane pid)) (settle n m c) s
            (Emits-attempt P (probe_pid n m pane pid) s (probe_pid-Emits pane pid s))
            (λ r t _. settle-Emits c r t))
        (λ _. Emits-refuse none pid_invalid c s)

  observe_panes-Emits :
      (c : SessionCandidate) (panes : List Pane) (s : State m.World)
      → Emits P (observe_panes n m c panes) s
  unfolding observe_panes observe_pane
  observe_panes-Emits c [] s = Emits-pure P _ s
  observe_panes-Emits c (p ∷ ps) s =
      Emits-bind P (observe_by_pid n m c p p.pid) _ s (observe_by_pid-Emits c p p.pid s)
        (λ x t _. rest x t (observe_panes-Emits c ps t))
    where
      rest :
          (x : Option (Observation n m)) (t : State m.World)
          → Emits P (observe_panes n m c ps) t
          → Emits P (observe_rest n m (observe_panes n m c ps) x) t
      rest none t ih = Emits-pure P _ t
      rest (some o) t ih =
          Emits-bind P (observe_panes n m c ps) _ t ih (λ seen u _. Emits-pure P _ u)

  pub ended_snapshot-Emits :
      (c : SessionCandidate) (s : State m.World) → Emits P (ended_snapshot n m c) s
  unfolding ended_snapshot
  ended_snapshot-Emits c s = observe_panes-Emits c c.panes s

  report-Emits :
      (c : SessionCandidate) (x : Option Reason) (s : State m.World) → Emits P (report n m c x) s
  report-Emits c none s = Emits-pure P _ s
  report-Emits c (some reason) s = Emits-refuse false reason c s

  conclude-Emits :
      (c : SessionCandidate) (x : Attempt (Option Reason)) (s : State m.World)
      → Emits P (conclude n m c x) s
  conclude-Emits c (returned x) s = report-Emits c x s
  conclude-Emits c raised s = Emits-reraise P raised s

  judge-Emits :
      (cfg : ReaperConfig n.Number) (c : SessionCandidate)
      (r : Attempt (Value n.Number × Option String × n.Number)) (s : State m.World)
      → Emits P (judge n m cfg c r) s
  judge-Emits cfg c (returned (value, boot, now)) s =
      conclude-Emits c (heartbeat_verdict n cfg c value boot now) s
  judge-Emits cfg c raised s = report-Emits c (some heartbeat_missing) s

  read_heartbeat-Emits :
      (c : SessionCandidate) (s : State m.World) → Emits P (read_heartbeat n m c) s
  read_heartbeat-Emits c s = Emits-bind P (call (m.read_json _)) _ s (Emits-call P _ s) (λ v t _.
      Emits-bind P (call m.boot_generation) _ t (Emits-call P _ t) (λ b u _.
        Emits-bind P (call m.monotonic_clock) _ u (Emits-call P _ u) (λ x w _. Emits-pure P _ w)))

  pub heartbeat_is_stale-Emits :
      (cfg : ReaperConfig n.Number) (c : SessionCandidate) (s : State m.World)
      → Emits P (heartbeat_is_stale n m cfg c) s
  unfolding heartbeat_is_stale
  heartbeat_is_stale-Emits cfg c s =
      Emits-bind P (attempt (read_heartbeat n m c)) (judge n m cfg c) s
        (Emits-attempt P (read_heartbeat n m c) s (read_heartbeat-Emits c s))
        (λ r t _. judge-Emits cfg c r t)
