-- ===== src/Tests/SessionsTests.antt =====
-- A registry of one supervised session, its transitions and its boot recipe.
use Prim.Native.String.{◌++◌ as append}
use text.Mathlib.Text.{starts_with}
use ai_cli_utils.Prelude.{
  ◌≡◌, refl, ◌↔◌, ◌⊎◌, inl, String, Bool, true, false, Option, none, some, [], ◌∷◌, In, arith,
}
use ai_cli_utils.Value.{null, bool, num, str, arr, obj, nil, cons, end, field, get}
use ai_cli_utils.Value.Dicts.{PyValue, Dict, truthy, value_eq}
use ai_cli_utils.Sessions.Store.{Doc, Store, written, failed_early, ok}
use ai_cli_utils.Sessions.Launch.{upsert}
use ai_cli_utils.Sessions.Launch.Upsert.{Launched, upsert-Launched}
use ai_cli_utils.Sessions.Prune.{Death, remove, prune}
use ai_cli_utils.Sessions.Prune.Recipes.{Died, prune-Died, remove-keeps_recipes}
use ai_cli_utils.Sessions.Recipe.{valid_boot_recipe}
use ai_cli_utils.Sessions.Recipe.Shape.{Runnable, valid_boot_recipe-Runnable}
use ai_cli_utils.Sessions.Veto.{denied, Relaunch, boot_veto}
use ai_cli_utils.Sessions.Veto.Bootable.{Bootable, boot_veto_iff}
use ai_cli_utils.Sessions.Transitions.{find_session}
use ai_cli_utils.Sessions.Marks.{Storage, Transition, mark}
use ai_cli_utils.Sessions.Marks.Fresh.{Admitted}
use ai_cli_utils.Sessions.Marks.Accepted.{Leaves}
use ai_cli_utils.Sessions.Marks.Outcome.{Recorded, mark-Recorded}
use ai_cli_utils.Sessions.Marks.Replay.{mark-late, mark-replayed}

abbrev absolute_path : String → Bool
absolute_path s = starts_with s "/"

abbrev digest : String → String → String
digest a b = append a b

abbrev text_of : PyValue → String
text_of (str s) = s
text_of _ = ""

abbrev recipe : Dict
recipe = field "engine" (str "c") (
    field "session_name" (str "c-work") (
      field "owning_host" (str "mac") (
        field "cwd" (str "/home") (
          field "project" (str "work") (
            field "options" (obj (field "bare" (bool false) end)) (
              field "argv" (arr (cons (str "ai") (cons (str "c") nil)))
                (field "extra_args" (arr nil) end)))))))

abbrev supervised : Dict
supervised = field "id" (str "1") (
    field "kind" (str "local") (
      field "name" (str "c-work") (
        field "owning_host" (str "mac") (
          field "generation" (str "g") (
            field "transition_seq" (num 1)
              (field "boot_id" (str "before") (field "boot_recipe" (obj recipe) end)))))))

abbrev registry : Store
registry = record {
  doc = record { sessions = supervised ∷ []; dirty_revision = 0 };
  tombstones = [];
}

abbrev relaunch : Relaunch
relaunch = record { on_boot = true; causes = "host_reboot" ∷ [] }

valid_recipe_example : valid_boot_recipe absolute_path supervised ≡ true
unfolding valid_boot_recipe value_eq
valid_recipe_example = refl

valid_boot_recipe-Runnable_example :
    (found : Dict) × ((get "boot_recipe" supervised ≡ obj found)
      × Runnable absolute_path found supervised)
valid_boot_recipe-Runnable_example =
    valid_boot_recipe-Runnable absolute_path supervised valid_recipe_example

boot_example :
    boot_veto absolute_path supervised relaunch "mac" (some "now") (some false) false ≡ ok none
unfolding boot_veto value_eq
boot_example = refl

boot_veto_iff_example :
    (boot_veto absolute_path supervised relaunch "mac" (some "now") (some false) false ≡ ok none)
    ↔ Bootable absolute_path supervised relaunch "mac" (some "now") (some false) false
boot_veto_iff_example =
    boot_veto_iff absolute_path supervised relaunch "mac" (some "now") (some false) false

abbrev starting : Transition
starting = record {
  name = "c-work";
  state = "running";
  exit_cause = "unknown";
  evidence = null;
  generation = some "g";
  sequence = 2;
  now = "noon";
  boot_id = str "now";
}

abbrev working : Storage
working = record { registry = written; safety_stored = written; safety_cleared = written }

unfoldable started : Store
unfolding mark
started = (mark digest text_of starting working registry).1

start_example : mark digest text_of starting working registry ≡ (true, started)
unfolding mark started
start_example = refl

mark-Recorded_example :
    (r : Dict) × ((find_session "c-work" registry.doc.sessions ≡ ok r)
      × (Admitted digest text_of starting [] r
          × ((p : Dict × Doc) × (Leaves digest text_of starting p
                × Recorded digest text_of starting p started))))
mark-Recorded_example = mark-Recorded digest text_of starting working registry started start_example

-- the same transition once more, and its exit with the number it had before
mark-replayed_example :
    mark digest text_of (record starting { state = "exited" }) working started ≡ (false, started)
mark-replayed_example =
    mark-replayed digest text_of starting (record starting { state = "exited" }) working working
      registry started refl start_example refl (omega arith)

found_example : find_session "c-work" registry.doc.sessions ≡ ok supervised
unfolding find_session
found_example = refl

mark-late_example :
    mark digest text_of (record starting { sequence = 1 }) working registry ≡ (false, registry)
mark-late_example =
    mark-late digest text_of (record starting { sequence = 1 }) working registry supervised 1
      found_example refl (omega arith)

-- an exit that the registry cannot take is kept in the safety file, which denies the boot
abbrev broken : Storage
broken = record { registry = failed_early; safety_stored = written; safety_cleared = written }

fallback_example :
    (mark digest text_of (record starting { state = "exited" }) broken registry).0 ≡ true
unfolding mark
fallback_example = refl

denied_example :
    boot_veto absolute_path supervised relaunch "mac" (some "now") (some false) true
    ≡ ok (some denied)
unfolding boot_veto
denied_example = refl

abbrev launch : Dict
launch = field "id" (str "2") (field "kind" (str "local") (field "name" (str "c-work") end))

upsert-Launched_example :
    Launched launch
      (supervised ∷ [])
      (upsert launch (record { sessions = supervised ∷ []; dirty_revision = 0 })).sessions
upsert-Launched_example =
    upsert-Launched launch (record { sessions = supervised ∷ []; dirty_revision = 0 })

remove-keeps_recipes_example : In supervised (remove (str "1" ∷ []) written registry).1.doc.sessions
remove-keeps_recipes_example =
    remove-keeps_recipes (str "1" ∷ []) written registry supervised (inl refl) refl

abbrev gone : PyValue → Option Bool
gone name = some false

abbrev unknown : Dict → Option Bool
unknown r = none

abbrev passing : Store
passing = record { doc = record { sessions = launch ∷ []; dirty_revision = 0 }; tombstones = [] }

prune_example : (prune gone unknown false false (launch ∷ []) written passing).1.1.doc.sessions ≡ []
unfolding prune value_eq
prune_example = refl

prune-Died_example :
    In launch (prune gone unknown false false (launch ∷ []) written passing).1.1.doc.sessions
    ⊎ ((false ≡ false)
        × ((truthy (get "boot_recipe" launch) ≡ false)
            × ((d : Death) × Died gone unknown false (launch ∷ []) (str "2") d)))
prune-Died_example =
    prune-Died gone unknown false false (launch ∷ []) written passing launch (inl refl)
