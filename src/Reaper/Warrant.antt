-- ===== src/Reaper/Warrant.antt =====
-- No session is fenced without a warrant: two complete ended snapshots of the same panes, a stale
-- heartbeat of the same generation at both, and a fingerprint of the session as it is now.
use ai_cli_utils.Prelude.{◌≡◌, refl, String, true, false, Option, none, some, List, subst, ap}
use ai_cli_utils.Value.{Numbers, Value}
use ai_cli_utils.Reaper.Types.{
  reap, ReaperConfig, SessionCandidate, Machine, Attempt, returned, raised,
}
use ai_cli_utils.Reaper.Exec.{
  Reason, heartbeat_missing, Event, fenced, State, call, attempt, reraise,
}
use ai_cli_utils.Reaper.Emits.{
  >>=-returned, attempt-returned, call-returned, call-world, pure-returned,
}
use ai_cli_utils.Reaper.Checks.{valid_candidate, same_snapshot, heartbeat_verdict}
use ai_cli_utils.Reaper.Observe.{
  Observation, log, heartbeat_is_stale, heartbeat_path, read_heartbeat, report, conclude, judge,
  ended_snapshot, generation_lease_path,
}
use ai_cli_utils.Reaper.Evaluate.{exact_current}
use ai_cli_utils.Reaper.Snapshot.{AllEnded}

module _ (n : Numbers) (m : Machine n) where
  abbrev Heartbeat : Type 0
  Heartbeat = Value n.Number × Option String × n.Number

  -- the heartbeat file of the candidate's own name and generation, the boot and the time, as the
  -- machine answers them one after another from the world `w` on
  pub record IsReading (c : SessionCandidate) (w : m.World)
      (r : Value n.Number × Option String × n.Number) : Type 0 where
    pub booting : m.World
    pub was_read :
        m.read_json (heartbeat_path n m c.session_name c.generation_token) w
        ≡ (returned r.0, booting)
    pub clocking : m.World
    pub booted : m.boot_generation booting ≡ (returned r.1, clocking)
    pub clocked : (m.monotonic_clock clocking).0 ≡ returned r.2

  pub record StaleHeartbeat (cfg : ReaperConfig n.Number) (c : SessionCandidate) (w : m.World)
      : Type 0 where
    pub reading : Value n.Number × Option String × n.Number
    pub taken : IsReading c w reading
    pub stale : heartbeat_verdict n cfg c reading.0 reading.1 reading.2 ≡ returned none

  read_heartbeat-IsReading :
      (c : SessionCandidate) (s : State m.World) {t : State m.World} {r : Heartbeat}
      → read_heartbeat n m c s ≡ (returned r, t)
      → IsReading c s.world r
  read_heartbeat-IsReading c s h =
      let file = call (m.read_json (heartbeat_path n m c.session_name c.generation_token)) in
      let (v, t, read, h₁) = >>=-returned file _ s h in
      let (b, u, booted, h₂) = >>=-returned (call m.boot_generation) _ t h₁ in
      let (x, w, clocked, h₃) = >>=-returned (call m.monotonic_clock) _ u h₂ in
      subst (IsReading c s.world) (pure-returned (v, b, x) w h₃) (record {
        booting = t.world;
        was_read = call-world (m.read_json _) s read;
        clocking = u.world;
        booted = call-world m.boot_generation t booted;
        clocked = call-returned m.monotonic_clock u clocked;
      })

  report-none :
      (c : SessionCandidate) (x : Option Reason) (s : State m.World) {t : State m.World}
      → report n m c x s ≡ (returned true, t)
      → x ≡ none
  report-none c none s h = refl
  report-none c (some reason) s h =
      let (x, u, first, rest) = >>=-returned (log n m reason c) _ s h in
      cc (pure-returned false u rest)

  conclude-none :
      (c : SessionCandidate) (x : Attempt (Option Reason)) (s : State m.World) {t : State m.World}
      → conclude n m c x s ≡ (returned true, t)
      → x ≡ returned none
  unfolding reraise
  conclude-none c (returned x) s h = ap returned (report-none c x s h)
  conclude-none c raised s h = cc (ap (λ y. y.0) h)

  pub heartbeat_is_stale_sound :
      (cfg : ReaperConfig n.Number) (c : SessionCandidate) (s : State m.World) {t : State m.World}
      → heartbeat_is_stale n m cfg c s ≡ (returned true, t)
      → StaleHeartbeat cfg c s.world
  unfolding heartbeat_is_stale
  heartbeat_is_stale_sound cfg c s {t} h =
      let (r, u, tried, rest) =
        >>=-returned (attempt (read_heartbeat n m c)) (judge n m cfg c) s h in
      go r u (attempt-returned (read_heartbeat n m c) s tried) rest
    where
      go :
          (r : Attempt (Value n.Number × Option String × n.Number)) (u : State m.World)
          → read_heartbeat n m c s ≡ (r, u)
          → judge n m cfg c r u ≡ (returned true, t)
          → StaleHeartbeat cfg c s.world
      go raised u first last = cc (report-none c (some heartbeat_missing) u last)
      go (returned (value, boot, now)) u first last = record {
        reading = (value, boot, now);
        taken = read_heartbeat-IsReading c s first;
        stale = conclude-none c (heartbeat_verdict n cfg c value boot now) u last;
      }

  -- A look at a session: from the state `before` on, every pane is seen ended and then the heartbeat
  -- is found stale, which leaves the state `after`.
  pub record Sighted (cfg : ReaperConfig n.Number) (c : SessionCandidate)
      (before after : State m.World) : Type 0 where
    pub observed : List (Observation n m)
    pub between : State m.World
    pub seen : ended_snapshot n m c before ≡ (returned (some observed), between)
    pub ended : AllEnded n m c.panes observed
    pub judged : heartbeat_is_stale n m cfg c between ≡ (returned true, after)
    pub stale : StaleHeartbeat cfg c between.world

  -- Why a call of `fence_and_kill` was allowed while the candidate `c` was evaluated from the state
  -- `start` on: what was done, each step from where the one before it ended.
  pub record Warrant (cfg : ReaperConfig n.Number) (c : SessionCandidate) (start : State m.World)
      (id fingerprint : String) : Type 0 where
    pub target : id ≡ c.session_id
    pub valid : valid_candidate m.is_digit c ≡ true
    pub reaping : cfg.mode ≡ reap
    pub sighted : State m.World
    pub first : Sighted cfg c start sighted
    -- the lease is taken, and only then are the sessions listed again
    pub leased : State m.World
    pub lease_taken :
        m.acquire (generation_lease_path n m c.session_name c.generation_token) sighted.world
        ≡ (returned tt, leased.world)
    pub listed : List SessionCandidate
    pub relisted : State m.World
    pub listing : m.sessions leased.world ≡ (returned listed, relisted.world)
    pub current : SessionCandidate
    pub exact : exact_current n m c listed ≡ some current
    -- the listed session is looked at a second time
    pub again : State m.World
    pub second : Sighted cfg current relisted again
    pub same : same_snapshot n first.observed second.observed ≡ true
    pub unchanged : c.panes ≡ current.panes
    pub captured : (m.capture_fingerprint current again.world).0 ≡ returned (some fingerprint)

  -- what the reaper may record while it evaluates `c` from the state `start` on
  abbrev pub Warranted : ReaperConfig n.Number → SessionCandidate → State m.World → Event → Type 0
  Warranted cfg c start (fenced id fingerprint) = Warrant cfg c start id fingerprint
  Warranted cfg c start _ = Unit
