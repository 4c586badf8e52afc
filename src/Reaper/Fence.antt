-- ===== src/Reaper/Fence.antt =====
-- Under the lease, every call of `fence_and_kill` is warranted.
use ai_cli_utils.Prelude.{
  ◌≡◌, refl, ◌∙◌, ap, String, Bool, true, false, Option, none, some, List, ◌&&◌, if◌then◌else◌,
}
use ai_cli_utils.Value.{Numbers}
use ai_cli_utils.Reaper.Types.{
  reap, ReaperConfig, SessionCandidate, Machine, Attempt, returned, raised, FilePath,
}
use ai_cli_utils.Reaper.Exec.{
  revalidation_failed, lease_unavailable, Event, acquired, released, fenced, State, pure, call,
  attempt, emit, step_world, ◌>>=◌,
}
use ai_cli_utils.Reaper.Emits.{
  Emits, Emits-pure, Emits-call, Emits-if, Emits-attempt, Emits-emit, Emits-bind, Emits-reraise,
  Emits-step_world, >>=-returned, call-returned, call-world, attempt-returned, pure-state,
  pure-returned,
}
use ai_cli_utils.Reaper.Checks.{valid_candidate, same_snapshot}
use ai_cli_utils.Reaper.Observe.{
  Observation, ended_snapshot, heartbeat_is_stale, generation_lease_path,
}
use ai_cli_utils.Reaper.Evaluate.{
  exact_current, refuse, fence, revalidate, confirm, under_lease, take_lease, hold, exclusive,
}
use ai_cli_utils.Reaper.Snapshot.{AllEnded, ended_snapshot_sound, same_snapshot-panes}
use ai_cli_utils.Reaper.Quiet.{Emits-refuse, ended_snapshot-Emits, heartbeat_is_stale-Emits}
use ai_cli_utils.Reaper.Warrant.{Sighted, heartbeat_is_stale_sound, Warrant, Warranted}

module _ (n : Numbers) (m : Machine n) (cfg : ReaperConfig n.Number) (c : SessionCandidate)
    (start : State m.World) where
  abbrev pub P : Event → Type 0
  P = Warranted n m cfg c start

  module _ (valid : valid_candidate m.is_digit c ≡ true) (reaping : cfg.mode ≡ reap)
      (sighted : State m.World) (sight : Sighted n m cfg c start sighted) where
    abbrev pub first : List (Observation n m)
    first = sight.observed

    fence-Emits :
        (x : Option String) (s : State m.World)
        → ((fp : String) → x ≡ some fp → Warrant n m cfg c start c.session_id fp)
        → Emits P (fence n m c x) s
    fence-Emits none s w = Emits-refuse n m P (λ _ _. tt) false revalidation_failed c s
    fence-Emits (some fp) s w =
        Emits-bind P (emit (fenced c.session_id fp)) _ s
          (Emits-emit P (fenced c.session_id fp) s (w fp refl))
          (λ _ t _.
            Emits-bind P (call (m.fence_and_kill c.session_id fp)) _ t (Emits-call P _ t) (λ b u _.
              Emits-if P b (pure true) (refuse n m revalidation_failed c) u
                (λ _. Emits-pure P true u)
                (λ _. Emits-refuse n m P (λ _ _. tt) false revalidation_failed c u)))

    -- what a positive revalidation has seen
    abbrev Confirmed :
        SessionCandidate → Option (List (Observation n m)) → State m.World → State m.World → Type 0
    Confirmed current final s t =
        (second : List (Observation n m)) × (final ≡ some second)
        × (heartbeat_is_stale n m cfg current s ≡ (returned true, t))
        × (same_snapshot n first second ≡ true)

    revalidate_sound :
        (current : SessionCandidate) (final : Option (List (Observation n m))) (s : State m.World)
        {t : State m.World}
        → revalidate n m cfg c first current final s ≡ (returned true, t)
        → Confirmed current final s t
    revalidate_sound current none s h = cc (pure-returned false s h)
    revalidate_sound current (some second) s {t} h =
        let (stale, u, judged, rest) = >>=-returned (heartbeat_is_stale n m cfg current) _ s h in
        go stale u judged (pure-returned (stale && same_snapshot n first second) u rest)
          (pure-state (stale && same_snapshot n first second) u rest)
      where
        go :
            (stale : Bool) (u : State m.World)
            → heartbeat_is_stale n m cfg current s ≡ (returned stale, u)
            → (stale && same_snapshot n first second) ≡ true
            → u ≡ t
            → Confirmed current (some second) s t
        go false u judged e left = cc
        go true u judged e left =
            (second, refl, judged ∙ ap (λ (x : State m.World). (returned true, x)) left, e)

    revalidate-Emits :
        (current : SessionCandidate) (final : Option (List (Observation n m))) (s : State m.World)
        → Emits P (revalidate n m cfg c first current final) s
    revalidate-Emits current none s = Emits-pure P false s
    revalidate-Emits current (some second) s =
        Emits-bind P (heartbeat_is_stale n m cfg current) _ s
          (heartbeat_is_stale-Emits n m P (λ _ _. tt) cfg current s) (λ b t _. Emits-pure P _ t)

    -- the sessions are listed in the state that taking the lease has left
    module _ (leased : State m.World)
        (lease_taken : m.acquire
            (generation_lease_path n m c.session_name c.generation_token)
            sighted.world
          ≡ (returned tt, leased.world)) where
      confirm-Emits :
          (listed : List SessionCandidate) (x : Option SessionCandidate) (s : State m.World)
          → m.sessions leased.world ≡ (returned listed, s.world)
          → exact_current n m c listed ≡ x
          → Emits P (confirm n m cfg c first x) s
      confirm-Emits listed none s l e = Emits-refuse n m P (λ _ _. tt) false revalidation_failed c s
      confirm-Emits listed (some current) s l e =
          Emits-bind P (ended_snapshot n m current) _ s
            (ended_snapshot-Emits n m P (λ _ _. tt) current s)
            (λ final t seen.
              Emits-bind P (revalidate n m cfg c first current final) _ t
                (revalidate-Emits current final t) (λ b u decided. decide final t seen b u decided))
        where
          warrant :
              (final : Option (List (Observation n m))) (t u : State m.World)
              → ended_snapshot n m current s ≡ (returned final, t)
              → Confirmed current final t u
              → (fp : String) → (m.capture_fingerprint current u.world).0 ≡ returned (some fp)
              → Warrant n m cfg c start c.session_id fp
          warrant final t u seen (second, is_second, judged, same) fp got =
              let looked : ended_snapshot n m current s ≡ (returned (some second), t) =
                seen ∙ ap (λ (x : Option (List (Observation n m))). (returned x, t)) is_second in
              let ended : AllEnded n m current.panes second =
                ended_snapshot_sound n m current s looked in
              record {
                target = refl;
                valid = valid;
                reaping = reaping;
                sighted = sighted;
                first = sight;
                leased = leased;
                lease_taken = lease_taken;
                listed = listed;
                relisted = s;
                listing = l;
                current = current;
                exact = e;
                again = u;
                second = record {
                  observed = second;
                  between = t;
                  seen = looked;
                  ended = ended;
                  judged = judged;
                  stale = heartbeat_is_stale_sound n m cfg current t judged;
                };
                same = same;
                unchanged =
                    same_snapshot-panes n m c.panes current.panes first second sight.ended ended
                      same;
                captured = got;
              }

          decide :
              (final : Option (List (Observation n m))) (t : State m.World)
              → ended_snapshot n m current s ≡ (returned final, t)
              → (b : Bool) (u : State m.World)
              → revalidate n m cfg c first current final t ≡ (returned b, u)
              → Emits P
                  (if b
                    then call (m.capture_fingerprint current) >>= fence n m c
                    else refuse n m revalidation_failed c)
                  u
          decide final t seen false u decided =
              Emits-refuse n m P (λ _ _. tt) false revalidation_failed c u
          decide final t seen true u decided =
              Emits-bind P (call (m.capture_fingerprint current)) (fence n m c) u (Emits-call P _ u)
                (λ x v got. fence-Emits x v (λ fp e'.
                  warrant final t u seen (revalidate_sound current final t decided) fp
                    (call-returned (m.capture_fingerprint current) u got ∙ ap returned e')))

      under_lease-Emits : Emits P (under_lease n m cfg c first) leased
      unfolding under_lease
      under_lease-Emits =
          Emits-bind P (call m.sessions) _ leased (Emits-call P _ leased) (λ listed t got.
            confirm-Emits listed (exact_current n m c listed) t (call-world m.sessions leased got)
              refl)

    -- taking the lease asks for it first
    take_lease-world :
        (path : FilePath) (t : State m.World)
        → take_lease n m path sighted ≡ (returned tt, t)
        → m.acquire path sighted.world ≡ (returned tt, t.world)
    unfolding emit
    take_lease-world path t h =
        let (u, v, got, rest) = >>=-returned (call (m.acquire path)) _ sighted h in
        let left : v.world ≡ t.world = ap (λ x. x.1.world) rest in
        call-world (m.acquire path) sighted got ∙ ap (λ w. (returned tt, w)) left

    hold-Emits :
        (r : Attempt (Unit {0})) (s : State m.World)
        → take_lease n m (generation_lease_path n m c.session_name c.generation_token) sighted
          ≡ (r, s)
        → Emits P
            (hold n m cfg c first (generation_lease_path n m c.session_name c.generation_token) r)
            s
    hold-Emits raised s h = Emits-refuse n m P (λ _ _. tt) false lease_unavailable c s
    hold-Emits (returned _) s h =
        let path = generation_lease_path n m c.session_name c.generation_token in
        Emits-bind P (attempt (under_lease n m cfg c first)) _ s
          (Emits-attempt P (under_lease n m cfg c first) s
            (under_lease-Emits s (take_lease-world path s h)))
          (λ r t _.
            Emits-bind P (step_world (m.release path)) _ t (Emits-step_world P _ t) (λ _ u _.
              Emits-bind P (emit (released path)) _ u (Emits-emit P (released path) u tt)
                (λ _ v _. Emits-reraise P r v)))

    pub exclusive-Emits : Emits P (exclusive n m cfg c first) sighted
    unfolding exclusive
    exclusive-Emits =
        let path = generation_lease_path n m c.session_name c.generation_token in
        Emits-bind P (attempt (take_lease n m path)) _ sighted
          (Emits-attempt P (take_lease n m path) sighted (
            Emits-bind P (call (m.acquire path)) _ sighted (Emits-call P _ sighted)
              (λ _ t _. Emits-emit P (acquired path) t tt)))
          (λ r t got. hold-Emits r t (attempt-returned (take_lease n m path) sighted got))
