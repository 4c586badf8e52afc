-- ===== src/Tests/ReaperTests.antt =====
-- A machine with one dead session whose heartbeat is old.
use ai_cli_utils.Prelude.{
  ℕ, ◌+◌, ◌-◌, ◌≡◌, refl, ◌↔◌, String, true, false, ◌&&◌, none, some, List, [], ◌∷◌, leb, eqb, In,
}
use ai_cli_utils.Value.{Numbers, Value, Fields, num, str, obj, end, field}
use ai_cli_utils.Reaper.Types.{observe, reap, ReaperConfig, SessionCandidate, Machine, returned}
use ai_cli_utils.Reaper.Exec.{State, ◌>>=◌, fenced, acquired, released, unlinked}
use ai_cli_utils.Reaper.Checks.{heartbeat_verdict, read_reaper_config}
use ai_cli_utils.Reaper.Emits.{Emits}
use ai_cli_utils.Reaper.Observe.{Observation, ended_snapshot}
use ai_cli_utils.Reaper.Evaluate.{
  exact_current, evaluate_candidate, evaluate_each, evaluate_once, under_lease,
}
use ai_cli_utils.Reaper.Snapshot.{AllEnded, ended_snapshot_sound}
use ai_cli_utils.Reaper.Warrant.{Warranted}
use ai_cli_utils.Reaper.Safety.{evaluate_candidate-Warranted}
use ai_cli_utils.Reaper.Settings.{AsksToReap, read_reaper_config-reap}
use ai_cli_utils.Reaper.Verdicts.{IsStale, heartbeat_verdict_iff, exact_current_sound}
use ai_cli_utils.Reaper.Run.{OnlyLogs, Allowed, evaluate_each-Allowed, evaluate_once-OnlyLogs}
use ai_cli_utils.Reaper.Total.{Subsequence, evaluate_once_total}

abbrev naturals : Numbers
naturals = record {
  Number = ℕ;
  is_int = λ x. true;
  is_finite = λ x. some true;
  eq = eqb;
  le = leb;
  sub = λ a b. a - b;
  of_nat = λ a. a;
}

abbrev session : SessionCandidate
session = record {
  session_id = "$1";
  session_name = "work";
  generation_token = "token";
  panes = record { pane_id = "%1"; pid = some 7; dead_time = none } ∷ [];
}

abbrev heartbeat : Value ℕ
heartbeat = obj (
    field "version" (num 1) (
      field "session_name" (str "work") (
        field "generation_token" (str "token")
          (field "boot_generation" (str "boot") (field "monotonic_recorded_at" (num 100) end)))))

-- every process is gone, and the world counts the calls of `sessions`: after two the session is
-- not listed any more
abbrev listing : ℕ → List SessionCandidate
listing w = elim (leb w 1) [ true ↦ session ∷ [] | false ↦ [] ]

abbrev quiet : Machine naturals
quiet = record {
  World = ℕ;
  sessions = λ w. (returned (listing w), w + 1);
  capture_fingerprint = λ c w. (returned (some "print"), w);
  fence_and_kill = λ id print w. (returned true, w);
  ended_states = "Z" ∷ [];
  is_present = λ pid w. (returned false, w);
  process_state = λ pid w. (returned (some "Z"), w);
  capture_identity = λ pid w. (returned none, w);
  boot_generation = λ w. (returned (some "boot"), w);
  monotonic_clock = λ w. (returned 1000, w);
  read_json = λ path w. (returned heartbeat, w);
  unlink = λ path w. (returned tt, w);
  acquire = λ path w. (returned tt, w);
  release = λ path w. w;
  encode_component = λ s. s;
  is_digit = λ c. leb 48 c && leb c 57;
  state_home = "state" ∷ [];
}

abbrev start : State ℕ
start = record { world = 0; events = [] }

abbrev reaping : ReaperConfig ℕ
reaping = record { mode = reap; stale_after_seconds = 600 }

abbrev observing : ReaperConfig ℕ
observing = record { mode = observe; stale_after_seconds = 600 }

-- the last pass over the machine kills the session, between taking and giving back its lease
killed : evaluate_once naturals quiet (some reaping) start ≡ (
  returned ("$1" ∷ []),
  record {
    world = 3;
    events =
        unlinked ("state" ∷ "session-heartbeats" ∷ "work-token.json" ∷ [])
        ∷ released ("state" ∷ "session-leases" ∷ "work-token.lock" ∷ [])
        ∷ fenced "$1" "print"
        ∷ acquired ("state" ∷ "session-leases" ∷ "work-token.lock" ∷ [])
        ∷ [];
  },
)
unfolding evaluate_once ◌>>=◌ under_lease
killed = refl

evaluate_candidate-Warranted_example :
    Emits
      (Warranted naturals quiet reaping session start)
      (evaluate_candidate naturals quiet reaping session)
      start
evaluate_candidate-Warranted_example =
    evaluate_candidate-Warranted naturals quiet reaping session start

evaluate_each-Allowed_example :
    Emits
      (Allowed naturals quiet reaping (session ∷ []))
      (evaluate_each naturals quiet reaping (session ∷ []))
      start
evaluate_each-Allowed_example = evaluate_each-Allowed naturals quiet reaping (session ∷ []) start

evaluate_once-OnlyLogs_example :
    Emits OnlyLogs (evaluate_once naturals quiet (some observing)) start
evaluate_once-OnlyLogs_example = evaluate_once-OnlyLogs naturals quiet (some observing) start refl

evaluate_once_total_example :
    (killed : List String) × (t : State ℕ) × (evaluate_once naturals quiet (some reaping) start
      ≡ (returned killed, t))
    × Subsequence killed ("$1" ∷ [])
evaluate_once_total_example = evaluate_once_total naturals quiet (some reaping) start

seen : List (Observation naturals quiet)
seen =
    record {
      pane = record { pane_id = "%1"; pid = some 7; dead_time = none };
      state = "GONE";
      identity = none;
    }
    ∷ []

snapshot : ended_snapshot naturals quiet session start ≡ (returned (some seen), start)
unfolding ended_snapshot ◌>>=◌ seen
snapshot = refl

ended_snapshot_sound_example : AllEnded naturals quiet session.panes seen
ended_snapshot_sound_example = ended_snapshot_sound naturals quiet session start snapshot

heartbeat_verdict_iff_example :
    (heartbeat_verdict naturals reaping session heartbeat (some "boot") 1000 ≡ returned none)
    ↔ IsStale naturals reaping session heartbeat (some "boot") 1000
heartbeat_verdict_iff_example =
    heartbeat_verdict_iff naturals reaping session heartbeat (some "boot") 1000

stale : heartbeat_verdict naturals reaping session heartbeat (some "boot") 1000 ≡ returned none
unfolding heartbeat_verdict
stale = refl

found_again : exact_current naturals quiet session (session ∷ []) ≡ some session
unfolding exact_current
found_again = refl

exact_current_sound_example :
    In session (session ∷ [])
    × (session.session_id ≡ session.session_id)
    × (session.session_name ≡ session.session_name)
    × (session.generation_token ≡ session.generation_token)
    × ((e : SessionCandidate)
        → In e (session ∷ [])
        → e.session_id ≡ session.session_id
        → e ≡ session)
exact_current_sound_example =
    exact_current_sound naturals quiet session (session ∷ []) session found_again

abbrev table : Fields ℕ
table = field "mode" (str "reap") (field "stale_after_seconds" (num 60) end)

abbrev config : Fields ℕ
config = field "stale_session_reaper" (obj table) end

accepted :
    read_reaper_config naturals config
    ≡ returned (some (record { mode = reap; stale_after_seconds = 60 }))
unfolding read_reaper_config
accepted = refl

read_reaper_config-reap_example :
    AsksToReap naturals config (record { mode = reap; stale_after_seconds = 60 })
read_reaper_config-reap_example =
    read_reaper_config-reap naturals config (record { mode = reap; stale_after_seconds = 60 })
      accepted refl
