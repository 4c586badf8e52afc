-- ===== src/Reaper/Total.antt =====
-- `evaluate_once` never raises, and it reports only sessions that tmux listed.
use ai_cli_utils.Prelude.{
  ◌≡◌, refl, String, Bool, true, false, Option, none, some, List, [], ◌∷◌, ◌++◌, map, ◌∙◌, ◌⊎◌, inl,
  inr,
}
use ai_cli_utils.Value.{Numbers}
use ai_cli_utils.Reaper.Types.{ReaperConfig, SessionCandidate, Machine, Attempt, returned, raised}
use ai_cli_utils.Reaper.Exec.{
  configuration_invalid, tmux_read_failed, candidate_error, logged, State, attempt, ◌>>=◌,
}
use ai_cli_utils.Reaper.Emits.{>>=-eq, attempt-eq, pure-eq}
use ai_cli_utils.Reaper.Evaluate.{
  evaluate_candidate, outcome, evaluate_each, evaluate_listed, evaluate_once,
}

-- `xs` is `ys` with some elements left out
pub data Subsequence : List String → List String → Type 0 where
  done : Subsequence [] []
  taken : {x : String} {xs ys : List String} → Subsequence xs ys → Subsequence (x ∷ xs) (x ∷ ys)
  skipped : {y : String} {xs ys : List String} → Subsequence xs ys → Subsequence xs (y ∷ ys)

abbrev pub ids : List SessionCandidate → List String
ids = map (λ c. c.session_id)

module _ (n : Numbers) (m : Machine n) where
  -- what a candidate adds to the killed IDs, and the state in which that leaves the loop
  outcome_total :
      (c : SessionCandidate) (r : Attempt Bool) (s : State m.World)
      → (here : List String) × (t : State m.World) × (outcome n m c r s ≡ (returned here, t))
        × ((here ≡ []) ⊎ (here ≡ c.session_id ∷ []))
  unfolding ◌>>=◌
  outcome_total c (returned true) s = (c.session_id ∷ [], s, refl, inr refl)
  outcome_total c (returned false) s = ([], s, refl, inl refl)
  outcome_total c raised s =
      ([], record s { events = logged candidate_error (some c) ∷ s.events }, refl, inl refl)

  extend :
      (c : SessionCandidate) (here rest : List String) (cs : List SessionCandidate)
      → (here ≡ []) ⊎ (here ≡ c.session_id ∷ [])
      → Subsequence rest (ids cs)
      → Subsequence (here ++ rest) (ids (c ∷ cs))
  extend c here rest cs (inl e) sub = rw e (skipped sub)
  extend c here rest cs (inr e) sub = rw e (taken sub)

  evaluate_each_total :
      (cfg : ReaperConfig n.Number) (cs : List SessionCandidate) (s : State m.World)
      → (killed : List String) × (t : State m.World) × (evaluate_each n m cfg cs s
          ≡ (returned killed, t))
        × Subsequence killed (ids cs)
  unfolding evaluate_each
  evaluate_each_total cfg [] s = ([], s, pure-eq [] s, done)
  evaluate_each_total cfg (c ∷ cs) s =
      let (r, t) = evaluate_candidate n m cfg c s in
      let (here, u, is_here, shape) = outcome_total c r t in
      let (rest, v, is_rest, sub) = evaluate_each_total cfg cs u in
      (
        here ++ rest,
        v,
        >>=-eq (attempt (evaluate_candidate n m cfg c)) _ s
              (attempt-eq (evaluate_candidate n m cfg c) s)
            ∙ >>=-eq (outcome n m c r) _ t is_here
            ∙ >>=-eq (evaluate_each n m cfg cs) _ u is_rest
            ∙ pure-eq (here ++ rest) v,
        extend c here rest cs shape sub,
      )

  nothing : (ys : List String) → Subsequence [] ys
  nothing [] = done
  nothing (y ∷ ys) = skipped (nothing ys)

  -- the sessions that an answer of tmux lists
  abbrev pub listed : Attempt (List SessionCandidate) → List SessionCandidate
  listed (returned cs) = cs
  listed raised = []

  evaluate_listed_total :
      (cfg : ReaperConfig n.Number) (r : Attempt (List SessionCandidate)) (s : State m.World)
      → (killed : List String) × (t : State m.World) × (evaluate_listed n m cfg r s
          ≡ (returned killed, t))
        × Subsequence killed (ids (listed r))
  unfolding ◌>>=◌
  evaluate_listed_total cfg (returned cs) s = evaluate_each_total cfg cs s
  evaluate_listed_total cfg raised s =
      ([], record s { events = logged tmux_read_failed none ∷ s.events }, refl, done)

  -- A pass returns, whatever the machine answers and whatever raises, and the killed IDs that it
  -- returns are the IDs of some of the sessions that tmux listed for it, in their order.
  pub evaluate_once_total :
      (settings : Option (ReaperConfig n.Number)) (s : State m.World)
      → (killed : List String) × (t : State m.World) × (evaluate_once n m settings s
          ≡ (returned killed, t))
        × Subsequence killed (ids (listed (m.sessions s.world).0))
  unfolding evaluate_once ◌>>=◌
  evaluate_once_total none s = (
    [],
    record s { events = logged configuration_invalid none ∷ s.events },
    refl,
    nothing (ids (listed (m.sessions s.world).0)),
  )
  evaluate_once_total (some cfg) s =
      let (r, w) = m.sessions s.world in evaluate_listed_total cfg r (record s { world = w })
