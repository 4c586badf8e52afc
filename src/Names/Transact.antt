-- ===== src/Names/Transact.antt =====
-- One transaction of the registry of names against the other writers of its ref: `transact` of
-- src/ai_cli/name_registry.py.
pub mod Atomic
pub mod Calm
use ai_cli_utils.Prelude.{
  ℕ, ◌+◌, Bool, true, false, Option, none, some, List, [], ◌∷◌, ◌++◌, eqb, if◌then◌else◌,
}
use ai_cli_utils.Names.Snapshot.{
  Snapshot, Write, Change, Build, Outcome, ok, err, contended, unreachable, apply_writes,
}

-- The ref on the remote. `tip` counts the commits on it, and stands for the ID of the last one.
pub record Ref : Type 0 where
  pub tip : ℕ
  pub content : Snapshot

-- a commit that lands
abbrev pub land : List Write → Ref → Ref
land writes r = record { tip = r.tip + 1; content = apply_writes writes r.content }

-- commits of other writers, one after another
unfoldable pub land_all : List (List Write) → Ref → Ref
land_all [] r = r
land_all (writes ∷ rest) r = land_all rest (land writes r)

-- how git answers a push: the remote compares the tip, or rejects the push whatever the tip is (it
-- cannot lock the ref), or the connection is lost before or after the remote has taken it
pub data Push : Type 0 where
  answered rejected lost_before lost_after : Push

-- what happens in one attempt: the commits of others before the fetch, whether the fetch fails, the
-- commits of others between the fetch and the push, and how the push is answered
pub record Race : Type 0 where
  pub before : List (List Write)
  pub fetch_fails : Bool
  pub between : List (List Write)
  pub push : Push

-- the commits of others that fall in one attempt, and in several: one whose fetch fails has ended by
-- the time of the later ones
abbrev pub race_commits : Race → List (List Write)
race_commits race = if race.fetch_fails then race.before else race.before ++ race.between

unfoldable pub commits : List Race → List (List Write)
commits [] = []
commits (race ∷ races) = race_commits race ++ commits races

pub data Ended (A : Type 0) : Type 0 where
  -- the transaction ends, or another attempt is made
  ended : Outcome A → Ref → Ended A
  lost_race : Ref → Ended A

module _ {A : Type 0} where
  -- `_push` of a commit on `seen`, where the remote is at `now`
  abbrev pub push_onto : Push → Ref → Change A → Ref → Ended (Option (Change A))
  push_onto answered seen change now =
      if eqb now.tip seen.tip
      then ended (ok (some change)) (land change.writes now)
      else lost_race now
  push_onto rejected seen change now = lost_race now
  push_onto lost_before seen change now = ended (err unreachable) now
  push_onto lost_after seen change now =
      ended (err unreachable) (if eqb now.tip seen.tip then land change.writes now else now)

  -- `change is None or not change.writes`
  abbrev pub push_writes : Race → Ref → Change A → List Write → Ended (Option (Change A))
  push_writes race seen change [] = ended (ok none) (land_all race.between seen)
  push_writes race seen change (w ∷ ws) =
      push_onto race.push seen change (land_all race.between seen)

  abbrev pub push_built : Race → Ref → Outcome (Option (Change A)) → Ended (Option (Change A))
  push_built race seen (err e) = ended (err e) (land_all race.between seen)
  push_built race seen (ok none) = ended (ok none) (land_all race.between seen)
  push_built race seen (ok (some change)) = push_writes race seen change change.writes

  -- one round of the loop
  unfoldable pub attempt : Build A → Race → Ref → Ended (Option (Change A))
  unfolding land_all
  attempt build race r =
      let seen = land_all race.before r in
      if race.fetch_fails
      then ended (err unreachable) seen
      else push_built race seen (build seen.content)

  abbrev pub or_again :
      Ended (Option (Change A))
      → (Ref → Outcome (Option (Change A)) × Ref)
      → Outcome (Option (Change A)) × Ref
  or_again (ended result r) again = (result, r)
  or_again (lost_race r) again = again r

  -- `GitRegistry.transact`: as many attempts as there are races
  unfoldable pub transact : Build A → List Race → Ref → Outcome (Option (Change A)) × Ref
  unfolding attempt
  transact build [] r = (err contended, r)
  transact build (race ∷ races) r = or_again (attempt build race r) (transact build races)

  -- `LocalRegistry.transact`: under the lock there is no race, unless the lock is not given
  abbrev pub write_local : Snapshot → Change A → List Write → Outcome (Option (Change A)) × Snapshot
  write_local s change [] = (ok none, s)
  write_local s change (w ∷ ws) = (ok (some change), apply_writes (w ∷ ws) s)

  abbrev pub local_built :
      Snapshot → Outcome (Option (Change A)) → Outcome (Option (Change A)) × Snapshot
  local_built s (err e) = (err e, s)
  local_built s (ok none) = (ok none, s)
  local_built s (ok (some change)) = write_local s change change.writes

  unfoldable pub transact_local : Bool → Build A → Snapshot → Outcome (Option (Change A)) × Snapshot
  transact_local locked build s = if locked then local_built s (build s) else (err contended, s)
