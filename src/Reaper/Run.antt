-- ===== src/Reaper/Run.antt =====
-- `evaluate_once`: it never raises, it acts only in reap mode, and only on listed sessions.
use ai_cli_utils.Prelude.{
  ◌≡◌, refl, Bool, true, false, Option, none, some, List, [], ◌∷◌, ◌++◌, In, inl, inr,
}
use ai_cli_utils.Value.{Numbers}
use ai_cli_utils.Reaper.Types.{
  Mode, observe, reap, ReaperConfig, SessionCandidate, Machine, Attempt, returned, raised,
}
use ai_cli_utils.Reaper.Exec.{
  Reason, configuration_invalid, tmux_read_failed, candidate_error, mode_observe, Event, logged,
  acquired, released, fenced, unlinked, State, pure, call, attempt, emit, ◌>>=◌,
}
use ai_cli_utils.Reaper.Emits.{
  Emits, Emits-pure, Emits-call, Emits-if, Emits-attempt, Emits-emit, Emits-bind, Emits-mono,
}
use ai_cli_utils.Reaper.Checks.{valid_candidate}
use ai_cli_utils.Reaper.Observe.{Observation, ended_snapshot, heartbeat_is_stale}
use ai_cli_utils.Reaper.Evaluate.{
  refuse, act, with_initial, evaluate_candidate, outcome, evaluate_each, evaluate_listed,
  evaluate_once,
}
use ai_cli_utils.Reaper.Quiet.{Emits-refuse, ended_snapshot-Emits, heartbeat_is_stale-Emits}
use ai_cli_utils.Reaper.Warrant.{Warrant, Warranted}
use ai_cli_utils.Reaper.Safety.{evaluate_candidate-Warranted}

-- only log lines
abbrev pub OnlyLogs : Event → Type 0
OnlyLogs (logged _ _) = Unit
OnlyLogs _ = ⊥

module _ (n : Numbers) (m : Machine n) where
  -- rules for the loop, for events that may depend on the candidates still listed
  module _ (P : Event → Type 0)
      (logs : (reason : Reason) (c : Option SessionCandidate) → P (logged reason c)) where
    outcome-Emits :
        (c : SessionCandidate) (r : Attempt Bool) (s : State m.World) → Emits P (outcome n m c r) s
    outcome-Emits c (returned true) s = Emits-pure P _ s
    outcome-Emits c (returned false) s = Emits-pure P _ s
    outcome-Emits c raised s =
        Emits-bind P (emit (logged candidate_error (some c))) _ s
          (Emits-emit P (logged candidate_error (some c)) s (logs candidate_error (some c)))
          (λ _ t _. Emits-pure P [] t)

    evaluate_each-Emits :
        (cfg : ReaperConfig n.Number) (cs : List SessionCandidate) (s : State m.World)
        → ((c : SessionCandidate) (t : State m.World)
            → In c cs
            → Emits P (evaluate_candidate n m cfg c) t)
        → Emits P (evaluate_each n m cfg cs) s
    unfolding evaluate_each
    evaluate_each-Emits cfg [] s h = Emits-pure P [] s
    evaluate_each-Emits cfg (c ∷ cs) s h =
        Emits-bind P (attempt (evaluate_candidate n m cfg c)) _ s
          (Emits-attempt P (evaluate_candidate n m cfg c) s (h c s (inl refl)))
          (λ r t _. Emits-bind P (outcome n m c r) _ t (outcome-Emits c r t) (λ here u _.
            Emits-bind P (evaluate_each n m cfg cs) _ u
              (evaluate_each-Emits cfg cs u (λ d v mem. h d v (inr mem)))
              (λ rest w _. Emits-pure P (here ++ rest) w)))

  -- what one run of the loop over `cs` may record
  abbrev pub Allowed : ReaperConfig n.Number → List SessionCandidate → Event → Type 0
  Allowed cfg cs (fenced id fingerprint) =
      (c : SessionCandidate) × (start : State m.World) × In c cs
      × Warrant n m cfg c start id fingerprint
  Allowed cfg cs _ = Unit

  Warranted-Allowed :
      (cfg : ReaperConfig n.Number) (cs : List SessionCandidate) (c : SessionCandidate)
      (start : State m.World)
      → In c cs
      → (e : Event) → Warranted n m cfg c start e
      → Allowed cfg cs e
  Warranted-Allowed cfg cs c start mem (logged r x) h = tt
  Warranted-Allowed cfg cs c start mem (acquired p) h = tt
  Warranted-Allowed cfg cs c start mem (released p) h = tt
  Warranted-Allowed cfg cs c start mem (fenced id fp) h = (c, start, mem, h)
  Warranted-Allowed cfg cs c start mem (unlinked p) h = tt

  -- Over any list of candidates, each call of `fence_and_kill` is warranted for one of them, by steps
  -- that follow one another from the state in which the evaluation of that one starts.
  pub evaluate_each-Allowed :
      (cfg : ReaperConfig n.Number) (cs : List SessionCandidate) (s : State m.World)
      → Emits (Allowed cfg cs) (evaluate_each n m cfg cs) s
  evaluate_each-Allowed cfg cs s =
      evaluate_each-Emits (Allowed cfg cs) (λ _ _. tt) cfg cs s
        (λ c t mem.
          Emits-mono (Warranted n m cfg c t) (Allowed cfg cs) (evaluate_candidate n m cfg c) t
            (Warranted-Allowed cfg cs c t mem) (evaluate_candidate-Warranted n m cfg c t))

  observe-OnlyLogs :
      (cfg : ReaperConfig n.Number) (c : SessionCandidate) (s : State m.World)
      → cfg.mode ≡ observe
      → Emits OnlyLogs (evaluate_candidate n m cfg c) s
  unfolding evaluate_candidate
  observe-OnlyLogs cfg c s e =
      Emits-if OnlyLogs (valid_candidate m.is_digit c)
        (ended_snapshot n m c >>= with_initial n m cfg c) (refuse n m tmux_read_failed c) s
        (λ _.
          Emits-bind OnlyLogs (ended_snapshot n m c) (with_initial n m cfg c) s
            (ended_snapshot-Emits n m OnlyLogs (λ _ _. tt) c s) (λ x t _. after x t))
        (λ _. Emits-refuse n m OnlyLogs (λ _ _. tt) false tmux_read_failed c s)
    where
      acts :
          (first : List (Observation n m)) (mode : Mode) (t : State m.World)
          → mode ≡ observe
          → Emits OnlyLogs (act n m cfg c first mode) t
      acts first observe t e = Emits-refuse n m OnlyLogs (λ _ _. tt) false mode_observe c t
      acts first reap t e = cc

      after :
          (x : Option (List (Observation n m))) (t : State m.World)
          → Emits OnlyLogs (with_initial n m cfg c x) t
      after none t = Emits-pure OnlyLogs false t
      after (some first) t =
          Emits-bind OnlyLogs (heartbeat_is_stale n m cfg c) _ t
            (heartbeat_is_stale-Emits n m OnlyLogs (λ _ _. tt) cfg c t)
            (λ b u _.
              Emits-if OnlyLogs b (act n m cfg c first cfg.mode) (pure false) u
                (λ _. acts first cfg.mode u e) (λ _. Emits-pure OnlyLogs false u))

  -- settings that let the reaper act
  abbrev pub Observing : Option (ReaperConfig n.Number) → Type 0
  Observing none = Unit
  Observing (some cfg) = cfg.mode ≡ observe

  -- With an invalid configuration or in observe mode, a pass changes nothing on the machine: it
  -- takes no lease, fences no session and removes no heartbeat. It only logs.
  pub evaluate_once-OnlyLogs :
      (settings : Option (ReaperConfig n.Number)) (s : State m.World)
      → Observing settings
      → Emits OnlyLogs (evaluate_once n m settings) s
  unfolding evaluate_once
  evaluate_once-OnlyLogs none s h =
      Emits-bind OnlyLogs (emit (logged configuration_invalid none)) _ s
        (Emits-emit OnlyLogs (logged configuration_invalid none) s tt)
        (λ _ t _. Emits-pure OnlyLogs [] t)
  evaluate_once-OnlyLogs (some cfg) s h =
      Emits-bind OnlyLogs (attempt (call m.sessions)) (evaluate_listed n m cfg) s
        (Emits-attempt OnlyLogs (call m.sessions) s (Emits-call OnlyLogs _ s)) (λ r t _. listed r t)
    where
      listed :
          (r : Attempt (List SessionCandidate)) (t : State m.World)
          → Emits OnlyLogs (evaluate_listed n m cfg r) t
      listed (returned cs) t =
          evaluate_each-Emits OnlyLogs (λ _ _. tt) cfg cs t (λ c u _. observe-OnlyLogs cfg c u h)
      listed raised t =
          Emits-bind OnlyLogs (emit (logged tmux_read_failed none)) _ t
            (Emits-emit OnlyLogs (logged tmux_read_failed none) t tt)
            (λ _ u _. Emits-pure OnlyLogs [] u)
