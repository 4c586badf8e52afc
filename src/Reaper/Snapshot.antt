-- ===== src/Reaper/Snapshot.antt =====
-- What a snapshot that `_ended_snapshot` returns proves of its panes.
use ai_cli_utils.Prelude.{
  ℕ, ◌≢◌, ◌≡◌, refl, ◌∙◌, ap, Bool, true, false, Option, none, some, List, [], ◌∷◌, arith, ltb,
  subst, some-inj, eq_iff, if◌then◌else◌,
}
use ai_cli_utils.Value.{Numbers}
use ai_cli_utils.Reaper.Types.{Pane, SessionCandidate, Machine, Attempt, returned, raised}
use ai_cli_utils.Reaper.Exec.{
  Reason, State, ◌>>◌, pure, attempt, ◌>>=◌, pid_invalid, process_unknown,
}
use ai_cli_utils.Reaper.Checks.{option_eqb, pane_eq, same_observation, same_snapshot}
use ai_cli_utils.Reaper.Emits.{>>=-returned, attempt-returned, pure-returned}
use ai_cli_utils.Reaper.Observe.{
  Observation, Probe, ended, refused, probe_pid, settle, observe_positive, log, prepend,
  observe_reaped, observe_by_pid, observe_rest, observe_pane, observe_panes, ended_snapshot,
}
use ai_cli_utils.Reaper.Probe.{IsEnded, dead, probe_pid-IsEnded}

module _ (n : Numbers) (m : Machine n) where
  abbrev pub SeenEnded : Pane → Observation n m → Type 0
  SeenEnded pane o = (o.pane ≡ pane) × IsEnded n m o

  -- what logs a reason and refuses returns no observation
  refusal :
      (c : SessionCandidate) (reason : Reason) (s : State m.World) {t : State m.World}
      {o : Observation n m}
      → (log n m reason c >> pure none) s ≢ (returned (some o), t)
  refusal c reason s h =
      let (x, u, first, rest) = >>=-returned _ _ s h in cc (pure-returned none u rest)

  settle-SeenEnded :
      (c : SessionCandidate) (pane : Pane) (r : Attempt (Probe n m)) (s : State m.World)
      {t : State m.World} {o : Observation n m}
      → ((o : Observation n m) → r ≡ returned (ended o) → SeenEnded pane o)
      → settle n m c r s ≡ (returned (some o), t)
      → SeenEnded pane o
  settle-SeenEnded c pane (returned (ended o)) s good h =
      subst (SeenEnded pane) (some-inj (pure-returned _ s h)) (good o refl)
  settle-SeenEnded c pane (returned (refused reason)) s good h = absurd (refusal c reason s h)
  settle-SeenEnded c pane raised s good h = absurd (refusal c process_unknown s h)

  observe_positive-SeenEnded :
      (c : SessionCandidate) (pane : Pane) (pid : ℕ) (s : State m.World) {t : State m.World}
      {o : Observation n m}
      → pane.pid ≡ some pid
      → observe_positive n m c pane pid s ≡ (returned (some o), t)
      → SeenEnded pane o
  observe_positive-SeenEnded c pane pid s {t} {o} is_pid h = go (ltb 0 pid) refl h
    where
      go :
          (b : Bool)
          → ltb 0 pid ≡ b
          → (if b
                then attempt (probe_pid n m pane pid) >>= settle n m c
                else log n m pid_invalid c >> pure none)
              s
            ≡ (returned (some o), t)
          → SeenEnded pane o
      go true e h =
          let (r, u, tried, rest) = >>=-returned _ (settle n m c) s h in
          settle-SeenEnded c pane r u
            (λ o e'.
              probe_pid-IsEnded n m pane pid is_pid (ground arith) s
                (attempt-returned _ s tried ∙ ap (λ (x : Attempt (Probe n m)). (x, u)) e'))
            rest
      go false e h = absurd (refusal c pid_invalid s h)

  observe_pane-SeenEnded :
      (c : SessionCandidate) (pane : Pane) (s : State m.World) {t : State m.World}
      {o : Observation n m}
      → observe_pane n m c pane s ≡ (returned (some o), t)
      → SeenEnded pane o
  unfolding observe_pane
  observe_pane-SeenEnded c pane s {t} {o} h = by_pid pane.pid refl h
    where
      reaped :
          (d : Option ℕ)
          → pane.pid ≡ none
          → pane.dead_time ≡ d
          → observe_reaped n m c pane d s ≡ (returned (some o), t)
          → SeenEnded pane o
      reaped none e f h = absurd (refusal c pid_invalid s h)
      reaped (some d) e f h =
          subst (SeenEnded pane) (some-inj (pure-returned _ s h)) (refl, dead d e f refl refl)

      by_pid :
          (p : Option ℕ)
          → pane.pid ≡ p
          → observe_by_pid n m c pane p s ≡ (returned (some o), t)
          → SeenEnded pane o
      by_pid none e h = reaped pane.dead_time e refl h
      by_pid (some pid) e h = observe_positive-SeenEnded c pane pid s e h

  -- Every pane, in order, with an observation that its process has ended.
  abbrev pub AllEnded : List Pane → List (Observation n m) → Type 0
  AllEnded [] [] = Unit
  AllEnded (p ∷ ps) (o ∷ os) = SeenEnded p o × AllEnded ps os
  AllEnded _ _ = ⊥

  observe_panes-AllEnded :
      (c : SessionCandidate) (panes : List Pane) (s : State m.World) {t : State m.World}
      {os : List (Observation n m)}
      → observe_panes n m c panes s ≡ (returned (some os), t)
      → AllEnded panes os
  unfolding observe_panes
  observe_panes-AllEnded c [] s h = subst (AllEnded []) (some-inj (pure-returned _ s h)) tt
  observe_panes-AllEnded c (p ∷ ps) s {t} {os} h =
      let (x, u, first, rest) = >>=-returned _ (observe_rest n m (observe_panes n m c ps)) s h in
      after x u (λ v seen. observe_panes-AllEnded c ps u) first rest
    where
      joined :
          (o : Observation n m) (seen : Option (List (Observation n m)))
          → SeenEnded p o
          → ((os : List (Observation n m)) → seen ≡ some os → AllEnded ps os)
          → prepend n m o seen ≡ some os
          → AllEnded (p ∷ ps) os
      joined o none here later e = cc
      joined o (some rest) here later e =
          subst (AllEnded (p ∷ ps)) (some-inj e) (here, later rest refl)

      after :
          (x : Option (Observation n m)) (u : State m.World)
          → ((v : State m.World) (seen : List (Observation n m))
              → observe_panes n m c ps u ≡ (returned (some seen), v)
              → AllEnded ps seen)
          → observe_pane n m c p s ≡ (returned x, u)
          → observe_rest n m (observe_panes n m c ps) x u ≡ (returned (some os), t)
          → AllEnded (p ∷ ps) os
      after none u ih first h = cc (pure-returned none u h)
      after (some o) u ih first h =
          let (seen, v, tail, last) = >>=-returned (observe_panes n m c ps) _ u h in
          joined o seen (observe_pane-SeenEnded c p s first)
            (λ os' e.
              ih v os' (tail ∙ ap (λ (x : Option (List (Observation n m))). (returned x, v)) e))
            (pure-returned _ v last)

  -- A snapshot that `_ended_snapshot` returns has an observation for every pane of the candidate,
  -- in order, and each says that its process has ended.
  pub ended_snapshot_sound :
      (c : SessionCandidate) (s : State m.World) {t : State m.World} {os : List (Observation n m)}
      → ended_snapshot n m c s ≡ (returned (some os), t)
      → AllEnded c.panes os
  unfolding ended_snapshot
  ended_snapshot_sound c s h = observe_panes-AllEnded c c.panes s h

  option_eqb→eq : (a b : Option ℕ) → option_eqb a b ≡ true → a ≡ b
  option_eqb→eq a b h = ground arith

  pane_eq→eq : (p q : Pane) → pane_eq p q ≡ true → p ≡ q
  unfolding pane_eq
  pane_eq→eq p q h = ground (
    arith,
    eq_iff p.pane_id q.pane_id,
    option_eqb→eq p.pid q.pid,
    option_eqb→eq p.dead_time q.dead_time,
  )

  -- Snapshots that `_same_snapshot` takes for the same are of the same panes.
  pub same_snapshot-panes :
      (ps qs : List Pane) (before after : List (Observation n m))
      → AllEnded ps before
      → AllEnded qs after
      → same_snapshot n before after ≡ true
      → ps ≡ qs
  unfolding same_snapshot same_observation
  same_snapshot-panes [] [] before after hb ha h = refl
  same_snapshot-panes (p ∷ ps) (q ∷ qs) (b ∷ bs) (a ∷ as') hb ha h =
      ground (arith, pane_eq→eq b.pane a.pane, same_snapshot-panes ps qs bs as' hb.1 ha.1)
  same_snapshot-panes [] (q ∷ qs) [] [] hb ha h = elim ha [ ]
  same_snapshot-panes [] (q ∷ qs) [] (a ∷ as') hb ha h = cc
  same_snapshot-panes [] (q ∷ qs) (b ∷ bs) after hb ha h = elim hb [ ]
  same_snapshot-panes (p ∷ ps) [] [] after hb ha h = elim hb [ ]
  same_snapshot-panes (p ∷ ps) [] (b ∷ bs) [] hb ha h = cc
  same_snapshot-panes (p ∷ ps) [] (b ∷ bs) (a ∷ as') hb ha h = elim ha [ ]
  same_snapshot-panes (p ∷ ps) (q ∷ qs) [] after hb ha h = elim hb [ ]
  same_snapshot-panes (p ∷ ps) (q ∷ qs) (b ∷ bs) [] hb ha h = elim ha [ ]
