-- ===== src/Reaper/Exec.antt =====
-- Actions of the reaper: they may raise, they ask the machine, and what they do to it is recorded.
use ai_cli_utils.Prelude.{String, Option, List, ◌∷◌}
use ai_cli_utils.Reaper.Types.{SessionCandidate, Attempt, returned, raised, FilePath}

-- the reasons that `_log` is called with
pub data Reason : Type 0 where
  configuration_invalid tmux_read_failed candidate_error mode_observe lease_unavailable : Reason
  revalidation_failed pid_invalid process_live process_unknown heartbeat_missing : Reason
  heartbeat_invalid generation_mismatch heartbeat_boot_mismatch heartbeat_not_stale : Reason

pub data Event : Type 0 where
  logged : Reason → Option SessionCandidate → Event
  acquired : FilePath → Event
  released : FilePath → Event
  fenced : String → String → Event
  unlinked : FilePath → Event

-- newest event first
pub record State (W : Type 0) : Type 0 where
  pub world : W
  pub events : List Event

abbrev pub Exec : Type 0 → Type 0 → Type 0
Exec W A = State W → Attempt A × State W

module _ {W A : Type 0} where
  unfoldable pub pure : A → Exec W A
  pure a s = (returned a, s)

  abbrev pub answer : Attempt A × W → List Event → Attempt A × State W
  answer (r, w) es = (r, record { world = w; events = es })

  -- a call of the machine
  unfoldable pub call : (W → Attempt A × W) → Exec W A
  call f s = answer (f s.world) s.events

  abbrev pub caught : Attempt A × State W → Attempt (Attempt A) × State W
  caught (r, s) = (returned r, s)

  -- `try: … except Exception: …`, with the outcome handed on
  unfoldable pub attempt : Exec W A → Exec W (Attempt A)
  attempt m s = caught (m s)

  unfoldable pub reraise : Attempt A → Exec W A
  reraise r s = (r, s)

module _ {W : Type 0} where
  unfoldable pub emit : Event → Exec W (Unit {0})
  emit e s = (returned tt, record s { events = e ∷ s.events })

  unfoldable pub step_world : (W → W) → Exec W (Unit {0})
  step_world f s = (returned tt, record s { world = f s.world })

module _ {W A B : Type 0} where
  abbrev pub continue : Attempt A × State W → (A → Exec W B) → Attempt B × State W
  continue (returned a, s) f = f a s
  continue (raised, s) f = (raised, s)

  infixl 10 ◌>>=◌ ◌>>◌
  -- opening this opens the other actions too
  unfoldable pub ◌>>=◌ : Exec W A → (A → Exec W B) → Exec W B
  unfolding pure call attempt reraise emit step_world
  ◌>>=◌ m f s = continue (m s) f

  abbrev pub ◌>>◌ : Exec W A → Exec W B → Exec W B
  m >> k = m >>= λ _. k
