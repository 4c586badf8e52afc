-- ===== src/Reaper/Types.antt =====
-- The data of src/ai_cli/stale_session_reaper.py, and what it asks of the machine: the `TmuxAdapter`
-- and `ProcessProbe` protocols, the file system, the clocks and the lock library.
use ai_cli_utils.Prelude.{ℕ, String, Bool, Option, List}
use ai_cli_utils.Value.{Numbers, Value}

pub data Mode : Type 0 where
  observe reap : Mode

pub record ReaperConfig (N : Type 0) : Type 0 where
  pub mode : Mode
  pub stale_after_seconds : N

-- A negative pid is `0` here: the code only tests a pid against 0 and hands a positive one to the probe.
pub record Pane : Type 0 where
  pub pane_id : String
  pub pid : Option ℕ
  pub dead_time : Option ℕ

pub record SessionCandidate : Type 0 where
  pub session_id : String
  pub session_name : String
  pub generation_token : String
  pub panes : List Pane

-- process_probe.py
pub record ProcessIdentity (N : Type 0) : Type 0 where
  pub backend : String
  pub marker : N

pub record ProcessObservation (N : Type 0) : Type 0 where
  pub pane : Pane
  pub state : String
  pub identity : Option (ProcessIdentity N)

-- A call returns a value or raises.
pub data Attempt (A : Type 0) : Type 0 where
  returned : A → Attempt A
  raised : Attempt A

abbrev pub FilePath : Type 0
FilePath = List String

-- The machine. Every answer may depend on all that has happened, and leaves another world behind:
-- other processes go on between two calls.
pub record Machine (n : Numbers) : Type 1 where
  pub World : Type 0
  pub sessions : World → Attempt (List SessionCandidate) × World
  pub capture_fingerprint : SessionCandidate → World → Attempt (Option String) × World
  pub fence_and_kill : String → String → World → Attempt Bool × World
  pub ended_states : List String
  pub is_present : ℕ → World → Attempt Bool × World
  pub process_state : ℕ → World → Attempt (Option String) × World
  pub capture_identity : ℕ → World → Attempt (Option (ProcessIdentity n.Number)) × World
  pub boot_generation : World → Attempt (Option String) × World
  pub monotonic_clock : World → Attempt n.Number × World
  pub read_json : FilePath → World → Attempt (Value n.Number) × World
  pub unlink : FilePath → World → Attempt (Unit {0}) × World
  pub acquire : FilePath → World → Attempt (Unit {0}) × World
  pub release : FilePath → World → World
  -- `base64.urlsafe_b64encode(…).rstrip("=")`, and Python's digits (`\d`)
  pub encode_component : String → String
  pub is_digit : ℕ → Bool
  pub state_home : FilePath
