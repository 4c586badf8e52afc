-- ===== src/Sessions/Tracking.antt =====
-- Which launches are recorded: `_not_tracked_because` and `record_launch` of
-- src/ai_cli/session_registry.py.
use ai_cli_utils.Prelude.{
  String, Bool, true, false, not, ◌&&◌, Option, none, some, List, [], ◌∷◌, any, ◌==◌, if◌then◌else◌,
}
use ai_cli_utils.Value.Dicts.{Dict}
use ai_cli_utils.Sessions.Store.{Result, ok, Store, Write, mutate, raise_failure, nothing_after}
use ai_cli_utils.Sessions.Launch.{NewRecord, new_record, take_over, upsert}

-- the table `iterm2.persistence`
pub record Tracking : Type 0 where
  pub persistence_enabled : Bool
  pub enabled : Bool
  pub include_local : Bool
  pub include_remote : Bool
  pub include : List String
  pub exclude : List String

pub data Untracked : Type 0 where
  persistence_off tracking_off local_off remote_off not_included : Untracked
  excluded : String → Untracked

-- `fnmatch.fnmatchcase`
module _ (glob_match : String → String → Bool) where
  abbrev pub is_nonempty : List String → Bool
  is_nonempty [] = false
  is_nonempty (x ∷ xs) = true

  -- the first exclude glob that matches
  abbrev pub first_excluded : String → List String → Option Untracked
  first_excluded name [] = none
  first_excluded name (glob ∷ globs) =
      if glob_match name glob then some (excluded glob) else first_excluded name globs

  unfoldable pub not_tracked_because : String → String → Tracking → Option Untracked
  not_tracked_because kind name config =
      if not config.persistence_enabled
      then some persistence_off
      else if not config.enabled
      then some tracking_off
      else if kind == "local" && not config.include_local
      then some local_off
      else if kind == "remote" && not config.include_remote
      then some remote_off
      else if is_nonempty config.include && not (any (glob_match name) config.include)
      then some not_included
      else first_excluded name config.exclude

  -- the record that is written is the new one with what it took over
  abbrev pub answer : Dict → Result (Unit {0}) × Store → Result (Option Dict) × Store
  answer taken (ok _, s) = (ok (some taken), s)
  answer taken (Result.err e, s) = (Result.err e, s)

  abbrev pub record_tracked : Option Untracked → Dict → Write → Store → Result (Option Dict) × Store
  record_tracked (some reason) fresh w s = (ok none, s)
  record_tracked none fresh w s =
      answer (take_over s.doc.sessions fresh)
        (mutate true w raise_failure nothing_after (λ doc. ok (true, upsert fresh doc)) s)

  unfoldable pub record_launch : NewRecord → Tracking → Write → Store → Result (Option Dict) × Store
  unfolding not_tracked_because new_record upsert mutate
  record_launch r config w s =
      record_tracked (not_tracked_because r.kind r.name config) (new_record r) w s
