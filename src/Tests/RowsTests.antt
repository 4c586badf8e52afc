-- ===== src/Tests/RowsTests.antt =====
-- A session row and a spare that a session takes.
use text.Mathlib.Text.{starts_with}
use ai_cli_utils.Prelude.{◌≡◌, refl, String, Bool, none, some}
use ai_cli_utils.Value.{str, get}
use ai_cli_utils.Value.Dicts.{value_eq}
use ai_cli_utils.Rows.{
  SessionRow, Activation, session_row, spare_row, activate_spare, row_problem, absolute_path,
}
use ai_cli_utils.Rows.Built.{session_row-Relative, activate_spare-Relative}
use ai_cli_utils.Rows.Sound.{Valid, row_problem-Valid}

abbrev rooted : String → Bool
rooted s = starts_with s "/"

abbrev kim : SessionRow
kim = record {
  name = "kim";
  title = "ai-kim";
  repo = "ai";
  repo_alias = "ai";
  host_alias = "m";
  label = none;
  machine = "mac";
  client = "claude";
  source = "list";
  tier = some "a";
  worktree = none;
}

session_row-Relative_example : row_problem rooted (session_row "ai 1" kim "noon") ≡ none
session_row-Relative_example =
    session_row-Relative rooted "ai 1" kim "noon" refl refl
      (
        refl,
        (refl, (refl, (refl, (refl, (refl, (refl, (refl, (refl, (refl, (refl, (refl, tt))))))))))),
      )
      tt (refl, tt) tt

-- a title that is a path is refused
refused_example :
    row_problem rooted (session_row "ai 1" (record kim { title = "/home" }) "noon")
    ≡ some absolute_path
unfolding row_problem session_row value_eq
refused_example = refl

abbrev taking : Activation
taking = record {
  title = "ai-kim";
  repo = "ai";
  repo_alias = "ai";
  label = none;
  client = "claude";
  worktree = none;
}

activate_spare-Relative_example :
    (row_problem rooted (spare_row "ai 1" "kim" "m" "mac" "noon") ≡ none)
    × (row_problem rooted (activate_spare (spare_row "ai 1" "kim" "m" "mac" "noon") taking "later")
        ≡ none)
activate_spare-Relative_example =
    activate_spare-Relative rooted "ai 1" "kim" "m" "mac" "noon" taking "later" refl refl
      (
        refl,
        (
          refl,
          (
            refl,
            (refl, (refl, (refl, (refl, (refl, (refl, (refl, (refl, (refl, (refl, tt)))))))))),
          ),
        ),
      )
      tt tt

row_problem-Valid_example :
    (kind : String) × ((get "kind" (session_row "ai 1" kim "noon") ≡ str kind)
      × Valid rooted kind (session_row "ai 1" kim "noon"))
row_problem-Valid_example =
    row_problem-Valid rooted (session_row "ai 1" kim "noon") session_row-Relative_example
