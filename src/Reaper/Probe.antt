-- ===== src/Reaper/Probe.antt =====
-- What the `try` block of `_ended_snapshot` proves of one process.
use ai_cli_utils.Prelude.{
  ℕ, ◌<◌, ◌≡◌, refl, String, Bool, true, false, Option, none, some, subst, if◌then◌else◌,
}
use ai_cli_utils.Value.{Numbers}
use ai_cli_utils.Reaper.Types.{Pane, ProcessIdentity, Machine, returned}
use ai_cli_utils.Reaper.Exec.{State, pure, call, ◌>>=◌, process_unknown, process_live}
use ai_cli_utils.Reaper.Checks.{contains}
use ai_cli_utils.Reaper.Emits.{>>=-returned, call-returned, pure-returned}
use ai_cli_utils.Reaper.Observe.{
  Observation, Probe, ended, refused, gone, identified, probe_ended, probe_state, probe_pid,
}

module _ (n : Numbers) (m : Machine n) where
  -- Why the process of an observed pane has ended, with the answers that say so.
  pub data IsEnded (o : Observation n m) : Type 0 where
    dead :
        (t : ℕ)
        → o.pane.pid ≡ none
        → o.pane.dead_time ≡ some t
        → o.state ≡ "GONE"
        → o.identity ≡ none
        → IsEnded o
    absent :
        (pid : ℕ) (w : m.World)
        → o.pane.pid ≡ some pid
        → 0 < pid
        → (m.is_present pid w).0 ≡ returned false
        → o.state ≡ "GONE"
        → o.identity ≡ none
        → IsEnded o
    unreaped :
        (pid : ℕ) (w v : m.World) (i : ProcessIdentity n.Number)
        → o.pane.pid ≡ some pid
        → 0 < pid
        → (m.process_state pid w).0 ≡ returned (some o.state)
        → contains m.ended_states o.state ≡ true
        → (m.capture_identity pid v).0 ≡ returned (some i)
        → o.identity ≡ some i
        → IsEnded o

  ended-injective : {a b : Observation n m} → ◌≡◌ {A = Probe n m} (ended a) (ended b) → a ≡ b
  ended-injective h = cc

  module _ (pane : Pane) (pid : ℕ) (is_pid : pane.pid ≡ some pid) (positive : 0 < pid) where
    abbrev pub Good : Observation n m → Type 0
    Good o = (o.pane ≡ pane) × IsEnded o

    identified-IsEnded :
        (state : String) (w v : m.World) (x : Option (ProcessIdentity n.Number)) (s : State m.World)
        {t : State m.World} {o : Observation n m}
        → (m.process_state pid w).0 ≡ returned (some state)
        → contains m.ended_states state ≡ true
        → (m.capture_identity pid v).0 ≡ returned x
        → identified n m pane state x s ≡ (returned (ended o), t)
        → Good o
    identified-IsEnded state w v none s asked is_end captured h =
        cc (pure-returned (refused process_unknown) s h)
    identified-IsEnded state w v (some i) s asked is_end captured h =
        subst Good (ended-injective (pure-returned _ s h))
          (refl, unreaped pid w v i is_pid positive asked is_end captured refl)

    probe_state-IsEnded :
        (w : m.World) (x : Option String) (s : State m.World) {t : State m.World}
        {o : Observation n m}
        → (m.process_state pid w).0 ≡ returned x
        → probe_state n m pane pid x s ≡ (returned (ended o), t)
        → Good o
    probe_state-IsEnded w none s asked h = cc (pure-returned (refused process_unknown) s h)
    probe_state-IsEnded w (some state) s {t} {o} asked h = go (contains m.ended_states state) refl h
      where
        go :
            (b : Bool)
            → contains m.ended_states state ≡ b
            → (if b then probe_ended n m pane pid state else pure (refused process_live)) s
              ≡ (returned (ended o), t)
            → Good o
        go true e h =
            let (x, v, captured, rest) = >>=-returned _ (identified n m pane state) s h in
            identified-IsEnded state w s.world x v asked e
              (call-returned (m.capture_identity pid) s captured) rest
        go false e h = cc (pure-returned (refused process_live) s h)

    pub probe_pid-IsEnded :
        (s : State m.World) {t : State m.World} {o : Observation n m}
        → probe_pid n m pane pid s ≡ (returned (ended o), t)
        → Good o
    probe_pid-IsEnded s {t} {o} h =
        let (b, u, present, rest) = >>=-returned _ _ s h in
        go b u (call-returned (m.is_present pid) s present) rest
      where
        go :
            (b : Bool) (u : State m.World)
            → (m.is_present pid s.world).0 ≡ returned b
            → (if b
                  then call (m.process_state pid) >>= probe_state n m pane pid
                  else pure (ended (gone n m pane)))
                u
              ≡ (returned (ended o), t)
            → Good o
        go true u present h =
            let (x, v, asked, rest) = >>=-returned _ (probe_state n m pane pid) u h in
            probe_state-IsEnded u.world x v (call-returned (m.process_state pid) u asked) rest
        go false u present h =
            subst Good (ended-injective (pure-returned _ u h))
              (refl, absent pid s.world is_pid positive present refl refl)
