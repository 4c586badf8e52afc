-- ===== src/Names/Transact/Calm.antt =====
-- A transaction of src/ai_cli/name_registry.py gets through once it is left alone.
use ai_cli_utils.Prelude.{
  ◌≡◌, refl, sym, subst, ◌⊎◌, inl, inr, Bool, true, false, Option, none, some, List, [], ◌∷◌, ◌++◌,
  All, eqb, eqb_iff, if◌then◌else◌,
}
use ai_cli_utils.Names.Snapshot.{Snapshot, Write, Change, Build, Outcome, ok, err, unreachable}
use ai_cli_utils.Names.Transact.{
  Ref, land, land_all, answered, Race, Ended, ended, lost_race, push_onto, push_writes, push_built,
  attempt, or_again, transact,
}

-- the remote is reached in this attempt, whoever else writes
abbrev pub Reached : Race → Type 0
Reached race = (race.fetch_fails ≡ false) × (race.push ≡ answered)

-- no other writer comes between its fetch and its push
abbrev pub Calm : Race → Type 0
Calm race = Reached race × (race.between ≡ [])

module _ {A : Type 0} (build : Build A) where
  -- a result that says what the operation itself decided on some content
  abbrev pub Reports : Outcome (Option (Change A)) → Outcome (Option (Change A)) → Type 0
  Reports (err e) result = result ≡ err e
  Reports (ok none) result = result ≡ ok none
  Reports (ok (some change)) result =
      (result ≡ ok (some change)) ⊎ ((change.writes ≡ []) × (result ≡ ok none))

  abbrev pub Decided : Outcome (Option (Change A)) → Type 0
  Decided result = (s : Snapshot) × Reports (build s) result

  -- an attempt that reaches the remote decides, or loses the race to someone
  abbrev DecidedEnd : List (List Write) → Ended (Option (Change A)) → Type 0
  DecidedEnd between (ended result after) = Decided result
  DecidedEnd between (lost_race now) = (between ≡ []) → ⊥

  attempt-DecidedEnd :
      (race : Race) (r : Ref) → Reached race → DecidedEnd race.between (attempt build race r)
  unfolding attempt land_all
  attempt-DecidedEnd race r (f, p) =
      subst
        (λ b.
          DecidedEnd race.between
            (if b then ended (err unreachable) seen else push_built race seen (build seen.content)))
        (sym f) (built (build seen.content) refl)
    where
      seen : Ref
      seen = land_all race.before r

      now : Ref
      now = land_all race.between seen

      decide :
          (o : Outcome (Option (Change A)))
          → build seen.content ≡ o
          → (result : Outcome (Option (Change A))) → Reports o result
          → Decided result
      decide o e result reports = (seen.content, subst (λ x. Reports x result) (sym e) reports)

      alone : eqb now.tip seen.tip ≡ false → race.between ≡ [] → ⊥
      alone h e = cc (
        (eqb_iff (land_all [] seen).tip seen.tip).1 refl,
        subst (λ b. eqb (land_all b seen).tip seen.tip ≡ false) e h,
      )

      tipped :
          (change : Change A)
          → build seen.content ≡ ok (some change)
          → (b : Bool) → eqb now.tip seen.tip ≡ b
          → DecidedEnd race.between
              (if b then ended (ok (some change)) (land change.writes now) else lost_race now)
      tipped change e true h = decide (ok (some change)) e _ (inl refl)
      tipped change e false h = alone h

      written :
          (change : Change A) (ws : List Write)
          → build seen.content ≡ ok (some change)
          → change.writes ≡ ws
          → DecidedEnd race.between (push_writes race seen change ws)
      written change [] e w = decide (ok (some change)) e (ok none) (inr (w, refl))
      written change (x ∷ ws) e w =
          subst (λ q. DecidedEnd race.between (push_onto q seen change now)) (sym p)
            (tipped change e _ refl)

      built :
          (o : Outcome (Option (Change A)))
          → build seen.content ≡ o
          → DecidedEnd race.between (push_built race seen o)
      built (err x) e = decide (err x) e (err x) refl
      built (ok none) e = decide (ok none) e (ok none) refl
      built (ok (some change)) e = written change change.writes e refl

  -- If the remote is reached in every attempt up to one in which no other writer comes between the
  -- fetch and the push, the transaction does not give up: it answers what its operation decided.
  pub transact-Decided :
      (earlier : List Race) (race : Race) (later : List Race) (r : Ref)
      → All Reached earlier
      → Calm race
      → Decided (transact build (earlier ++ race ∷ later) r).0
  unfolding transact
  transact-Decided [] race later r h (reached, calm) =
      go (attempt build race r) (attempt-DecidedEnd race r reached)
    where
      go :
          (o : Ended (Option (Change A)))
          → DecidedEnd race.between o
          → Decided (or_again o (transact build later)).0
      go (ended result after) d = d
      go (lost_race now) d = absurd (d calm)
  transact-Decided (first ∷ earlier) race later r (h, hs) calm =
      go (attempt build first r) (attempt-DecidedEnd first r h)
        (λ now. transact-Decided earlier race later now hs calm)
    where
      go :
          (o : Ended (Option (Change A)))
          → DecidedEnd first.between o
          → ((now : Ref) → Decided (transact build (earlier ++ race ∷ later) now).0)
          → Decided (or_again o (transact build (earlier ++ race ∷ later))).0
      go (ended result after) d f = d
      go (lost_race now) d f = f now
