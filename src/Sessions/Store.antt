-- ===== src/Sessions/Store.antt =====
-- The stored documents, and `_mutate` of src/ai_cli/session_registry.py.
use ai_cli_utils.Prelude.{ℕ, ◌+◌, String, Bool, true, false, List, if◌then◌else◌}
use ai_cli_utils.Value.Dicts.{Dict}

-- why an operation raises
pub data Refusal : Type 0 where
  not_registered stale_generation stale_sequence safety_veto no_recipe invalid_recipe : Refusal
  foreign_host storage_error type_error invalid_cause : Refusal

pub data Result {ℓ} (A : Type ℓ) : Type ℓ where
  ok : A → Result A
  err : Refusal → Result A

infixl 10 ◌>>=◌
abbrev pub ◌>>=◌ {ℓ κ} : {A : Type ℓ} {B : Type κ} → Result A → (A → Result B) → Result B
ok a >>= f = f a
err e >>= f = err e

-- the registry file
pub record Doc : Type 0 where
  pub sessions : List Dict
  pub dirty_revision : ℕ

-- the registry, and the files of the directory `session-safety` by their names
pub record Store : Type 0 where
  pub doc : Doc
  pub tombstones : List (String × Dict)

-- How a write of the registry file ends. The directory is synced after the file is replaced, so a
-- write may fail late, with the new file in place.
pub data Write : Type 0 where
  written failed_early failed_late : Write

abbrev pub replaced : Write → Doc → Doc → Doc
replaced failed_early old new = old
replaced written old new = new
replaced failed_late old new = new

abbrev pub handled :
    Write
    → (Doc → Store → Result (Unit {0}) × Store)
    → (Store → Result (Unit {0}) × Store)
    → Doc
    → Store
    → Result (Unit {0}) × Store
handled written failure after doc s = after s
handled failed_early failure after doc s = failure doc s
handled failed_late failure after doc s = failure doc s

abbrev pub bump : Bool → Doc → Doc
bump dirty doc = if dirty then record doc { dirty_revision = doc.dirty_revision + 1 } else doc

abbrev pub commit :
    Bool
    → Write
    → (Doc → Store → Result (Unit {0}) × Store)
    → (Store → Result (Unit {0}) × Store)
    → Result (Bool × Doc)
    → Store
    → Result (Unit {0}) × Store
commit dirty w failure after (err e) s = (err e, s)
commit dirty w failure after (ok (false, doc)) s = (ok tt, s)
commit dirty w failure after (ok (true, doc)) s =
    let new = bump dirty doc in
    handled w failure after new (record s { doc = replaced w s.doc new })

-- `_mutate`, under its lock: what `change` did in memory is lost unless it asks for a write
unfoldable pub mutate :
    Bool
    → Write
    → (Doc → Store → Result (Unit {0}) × Store)
    → (Store → Result (Unit {0}) × Store)
    → (Doc → Result (Bool × Doc))
    → Store
    → Result (Unit {0}) × Store
mutate dirty w failure after change s = commit dirty w failure after (change s.doc) s

-- the handlers of a call that gives none
abbrev pub raise_failure : Doc → Store → Result (Unit {0}) × Store
raise_failure doc s = (err storage_error, s)

abbrev pub nothing_after : Store → Result (Unit {0}) × Store
nothing_after s = (ok tt, s)
