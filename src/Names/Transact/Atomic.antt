-- ===== src/Names/Transact/Atomic.antt =====
-- A transaction of src/ai_cli/name_registry.py takes place at one moment.
use ai_cli_utils.Prelude.{
  ◌≤◌, ◌≡◌, refl, true, Option, none, some, List, [], ◌∷◌, ◌++◌, arith, eqb, eqb_iff,
}
use ai_cli_utils.Names.Snapshot.{Write, Change, Build, Outcome, ok, err, unreachable, Failure}
use ai_cli_utils.Names.Transact.{Ref, land, land_all, Race, commits, Ended, ended, lost_race}

-- commits of others move the tip, so an unmoved tip is an unmoved ref
tip-land_all : (others : List (List Write)) (r : Ref) → r.tip ≤ (land_all others r).tip
unfolding land_all
tip-land_all [] r = omega arith
tip-land_all (w ∷ ws) r = omega (arith, tip-land_all ws (land w r))

pub unmoved :
    (others : List (List Write)) (r : Ref) → eqb (land_all others r).tip r.tip ≡ true → others ≡ []
unfolding land_all
unmoved [] r h = refl
unmoved (w ∷ ws) r h =
    absurd
      (omega (arith, tip-land_all ws (land w r), (eqb_iff (land_all ws (land w r)).tip r.tip).0 h))

pub land_all-append :
    (a b : List (List Write)) (r : Ref) → land_all (a ++ b) r ≡ land_all b (land_all a r)
unfolding land_all
land_all-append [] b r = refl
land_all-append (w ∷ a) b r = land_all-append a b (land w r)

module _ {A : Type 0} (build : Build A) where
  -- the ref after commits of others, and the change built from exactly what they left
  abbrev pub Landed : List (List Write) → Change A → Ref → Ref → Type 0
  Landed others change r after =
      (build (land_all others r).content ≡ ok (some change))
      × (after ≡ land change.writes (land_all others r))

  -- What a transaction does is one step of the registry after the commits of others that fell in its
  -- attempts: a result with a change says that it landed on the content it was built from, with all
  -- of those commits kept; a result without one that nothing was written, and a refusal that nothing
  -- was written, unless the connection was lost after the push.
  pub data Atomic (others : List (List Write)) (r : Ref)
      : Outcome (Option (Change A)) → Ref → Type 0 where
    published :
        {change : Change A} {after : Ref}
        → Landed others change r after
        → Atomic others r (ok (some change)) after
    nothing : {after : Ref} → after ≡ land_all others r → Atomic others r (ok none) after
    refused :
        {e : Failure} {after : Ref} → after ≡ land_all others r → Atomic others r (err e) after
    unanswered :
        {change : Change A} {after : Ref}
        → Landed others change r after
        → Atomic others r (err unreachable) after

  -- an attempt that is over is such a step, and one that lost the race has written nothing
  abbrev pub AtomicEnd : List (List Write) → Ref → Ended (Option (Change A)) → Type 0
  AtomicEnd others r (ended result after) = Atomic others r result after
  AtomicEnd others r (lost_race now) = now ≡ land_all others r

  -- the attempts that were made, those that were not, and one step after the commits in the former
  abbrev pub AtomicAfter : List Race → Ref → Outcome (Option (Change A)) → Ref → Type 0
  AtomicAfter races r result after =
      (made : List Race) × ((unmade : List Race) × ((made ++ unmade ≡ races)
          × Atomic (commits made) r result after))
