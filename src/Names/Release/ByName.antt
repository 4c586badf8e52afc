-- ===== src/Names/Release/ByName.antt =====
-- Rows that are released and moved by name: `release_name` and `reassign_name` of
-- src/ai_cli/name_registry.py.
use ai_cli_utils.Prelude.{
  ◌≡◌, refl, sym, ap, ◌∙◌, String, Bool, true, false, not, ◌||◌, Option, none, some, List, [], ◌∷◌,
  ◌==◌, eq_iff, some-inj, if◌then◌else◌,
}
use ai_cli_utils.Value.{str, get, put}
use ai_cli_utils.Value.Dicts.{Dict, PyValue, value_eq}
use ai_cli_utils.Value.Files.{lookup}
use ai_cli_utils.Names.Pick.{text_in}
use ai_cli_utils.Names.Snapshot.{
  Snapshot, Outcome, ok, err, ◌>>=◌, write_refused, Write, put_row, drop_row, Change, Build,
}
use ai_cli_utils.Names.Reserve.{Surroundings, checked_row}
use ai_cli_utils.Names.Reserve.Own.{ok-inj}
use ai_cli_utils.Names.Ledger.{owned}
use ai_cli_utils.Names.Release.{Probes, probe_absence, releasable, incomplete, same_blob}

module _ (env : Surroundings) (probes : Probes) (blob : Dict → String) (machine : String) where
  -- `build` of `release_name`: drop the row, if it still has the blob that was tested
  abbrev pub release_build : String → String → Build (Unit {0})
  release_build name b tip =
      if same_blob env probes blob machine (lookup name tip.rows) b
      then ok (some (record { writes = drop_row name ∷ []; result = tt }))
      else err write_refused

  abbrev pub release_row : String → Option Dict → Outcome (Build (Unit {0}))
  release_row name none = err write_refused
  release_row name (some row) =
      if not (owned env row machine)
      then err write_refused
      else if incomplete env probes blob machine row
      then err write_refused
      else if not (releasable (probe_absence probes row))
      then err write_refused
      else ok (release_build name (blob row))

  -- `release_name`, up to the transaction
  unfoldable pub release_name : String → Snapshot → Outcome (Build (Unit {0}))
  unfolding probe_absence
  release_name name seen = release_row name (lookup name seen.rows)

  -- `build` of `reassign_name`: the row goes to another machine, if it is still what was read
  abbrev pub move_row :
      String → String → Option Dict → String → PyValue → Outcome (Option (Change (Unit {0})))
  move_row name to none b owner = err write_refused
  move_row name to (some row) b owner =
      if not (blob row == b) || not (value_eq (get "machine" row) owner)
      then err write_refused
      else (do
        moved ← checked_row env (put "machine" (str to) row)
        ok (some (record { writes = put_row name moved ∷ []; result = tt })))

  abbrev pub reassign_row : String → String → Option Dict → Outcome (Build (Unit {0}))
  reassign_row name to none = err write_refused
  reassign_row name to (some row) =
      ok (λ tip. move_row name to (lookup name tip.rows) (blob row) (get "machine" row))

  unfoldable pub reassign_name :
      List String → String → String → Snapshot → Outcome (Build (Unit {0}))
  unfolding checked_row value_eq
  reassign_name known_hosts name to seen =
      if text_in to known_hosts
      then reassign_row name to (lookup name seen.rows)
      else err write_refused

  -- the row that a release by name has tested, and the one that it drops
  pub record ReleasedByName (name : String) (seen tip : Snapshot) (writes : List Write)
      : Type 0 where
    pub tested : Dict
    pub was_seen : lookup name seen.rows ≡ some tested
    pub mine : owned env tested machine ≡ true
    pub settled : incomplete env probes blob machine tested ≡ false
    pub unused : releasable (probe_absence probes tested) ≡ true
    pub dropped : Dict
    pub still_there : lookup name tip.rows ≡ some dropped
    pub same_content : blob dropped ≡ blob tested
    pub only_write : writes ≡ drop_row name ∷ []

  gates :
      (a b c : Bool) (x y : Build (Unit {0}))
      → (if not a
          then err write_refused
          else if b
          then err write_refused
          else if not c
          then err write_refused
          else ok x)
        ≡ ok y
      → (a ≡ true) × ((b ≡ false) × ((c ≡ true) × (x ≡ y)))
  gates false b c x y h = cc
  gates true true c x y h = cc
  gates true false false x y h = cc
  gates true false true x y h = (refl, (refl, (refl, ok-inj h)))

  -- A release by name drops nothing but the row of the name, and only if the row that was read is
  -- this machine's, is not held for a migration, and its worktree and its transcript were found
  -- absent, and if the row in the tip has the same blob ID.
  pub release_name-Released :
      (name : String) (seen tip : Snapshot) (build : Build (Unit {0})) (change : Change (Unit {0}))
      → release_name name seen ≡ ok build
      → build tip ≡ ok (some change)
      → ReleasedByName name seen tip change.writes
  unfolding release_name
  release_name-Released name seen tip build change h d = go (lookup name seen.rows) refl h
    where
      go :
          (o : Option Dict)
          → lookup name seen.rows ≡ o
          → release_row name o ≡ ok build
          → ReleasedByName name seen tip change.writes
      go none e x = cc
      go (some row) e x =
          (let (a, (b, (c, f))) =
              gates (owned env row machine) (incomplete env probes blob machine row)
                (releasable (probe_absence probes row)) (release_build name (blob row)) build x in
            finish (lookup name tip.rows) refl (ap (λ g. g tip) f ∙ d) a b c)
        where
          finish :
              (o : Option Dict)
              → lookup name tip.rows ≡ o
              → (if same_blob env probes blob machine o (blob row)
                  then ok (some (record { writes = drop_row name ∷ []; result = tt }))
                  else err write_refused)
                ≡ ok (some change)
              → owned env row machine ≡ true
              → incomplete env probes blob machine row ≡ false
              → releasable (probe_absence probes row) ≡ true
              → ReleasedByName name seen tip change.writes
          finish none l y a b c = cc
          finish (some now) l y a b c =
              (let (same, w) = matched (blob now == blob row) y in
                record {
                  tested = row;
                  was_seen = e;
                  mine = a;
                  settled = b;
                  unused = c;
                  dropped = now;
                  still_there = l;
                  same_content = (eq_iff (blob now) (blob row)).0 same;
                  only_write = w;
                })
            where
              matched :
                  (b : Bool)
                  → (if b
                      then ok (some (record { writes = drop_row name ∷ []; result = tt }))
                      else err write_refused)
                    ≡ ok (some change)
                  → (b ≡ true) × (change.writes ≡ drop_row name ∷ [])
              matched true z = (refl, ap (λ c. c.writes) (sym (some-inj (ok-inj z))))
              matched false z = cc
