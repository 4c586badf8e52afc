-- ===== src/Names/Reserve/Seated.antt =====
-- A reservation of src/ai_cli/name_registry.py that is answered stands on the ref.
use ai_cli_utils.Prelude.{◌≡◌, String, none, some, List, ◌++◌, In}
use ai_cli_utils.Value.Dicts.{Dict}
use ai_cli_utils.Value.Files.{lookup}
use ai_cli_utils.Names.Snapshot.{Snapshot, ◌>>=◌, Write}
use ai_cli_utils.Names.Transact.{Ref, Race, commits, land_all}
use ai_cli_utils.Names.Transact.Atomic.{Atomic}
use ai_cli_utils.Names.Reserve.{Surroundings, Reservation}
use ai_cli_utils.Names.Reserve.Apart.{put_tokens}

module _ (env : Surroundings)
    (chosen : (names : List String) (c : String) → In c names → In (env.choice names) names) where
  open env use {writer, now}

  -- no spare that is added is among the names that are taken
  abbrev Spared : List String → List Write → Type 0
  Spared taken ws = (token : String) → In token (put_tokens ws) → ¬ In token taken

  -- the reserved row stands where nothing stood
  pub record Seated (s after : Snapshot) (r : Reservation) : Type 0 where
    pub was_free : lookup r.name s.rows ≡ none
    pub held_now : lookup r.name after.rows ≡ some r.row
    pub rows_kept :
        (token : String) (row : Dict)
        → lookup token s.rows ≡ some row
        → lookup token after.rows ≡ some row

  -- the attempts that were made, and the row that stands after the commits in them
  abbrev pub SeatedAfter : List Race → Ref → Ref → Reservation → Type 0
  SeatedAfter races r after reservation =
      (made : List Race) × ((unmade : List Race) × ((made ++ unmade ≡ races)
          × Seated (land_all (commits made) r).content after.content reservation))
