-- ===== src/Sessions/Recipe.antt =====
-- `valid_boot_recipe` of src/ai_cli/session_run_state.py.
pub mod Shape
use Prim.Native.Char.{code}
use Prim.Native.String.{◌++◌ as append}
use ai_cli_utils.Prelude.{
  ℕ, String, Bool, true, false, not, ◌&&◌, ◌||◌, List, [], ◌∷◌, all, any, leb, eqb, ◌==◌,
  if◌then◌else◌,
}
use text.Mathlib.Text.{starts_with}
use ai_cli_utils.Value.{Items, null, bool, num, str, arr, obj, nil, cons, get, is_text, is_nil}
use ai_cli_utils.Value.Dicts.{PyValue, Dict, truthy, value_eq}

abbrev pub codes : String → List ℕ
codes String.[] = []
codes (String.◌∷◌ c s) = code c ∷ codes s

-- `[A-Za-z0-9_-]`
abbrev pub name_char : ℕ → Bool
name_char c =
    leb 65 c && leb c 90 || leb 97 c && leb c 122 || leb 48 c && leb c 57 || eqb c 95 || eqb c 45

-- `re.fullmatch(r"[A-Za-z0-9_-]+", name)`
abbrev pub plain_name : String → Bool
plain_name name = not (name == "") && all name_char (codes name)

-- `engine in ("c", "g", "p", "cx")`
abbrev pub known_engine : String → Bool
known_engine e = e == "c" || e == "g" || e == "p" || e == "cx"

-- a text with no NUL
abbrev pub argument : PyValue → Bool
argument (str s) = not (any (λ c. eqb c 0) (codes s))
argument _ = false

abbrev pub arguments : Items ℕ → Bool
arguments nil = true
arguments (cons v vs) = argument v && arguments vs

abbrev pub argument_list : PyValue → Bool
argument_list (arr vs) = arguments vs
argument_list _ = false

abbrev pub nonempty_list : PyValue → Bool
nonempty_list (arr vs) = not (is_nil vs)
nonempty_list _ = false

-- `recipe["argv"][:2] == ["ai", engine]`
abbrev pub starts_ai : String → PyValue → Bool
starts_ai engine (arr (cons a (cons e vs))) = is_text a "ai" && is_text e engine
starts_ai engine _ = false

abbrev pub is_string : PyValue → Bool
is_string (str s) = true
is_string _ = false

abbrev pub nonempty_text : PyValue → Bool
nonempty_text (str s) = not (s == "")
nonempty_text _ = false

-- the tests of a recipe that starts a bare agent
unfoldable pub valid_bare : Dict → Bool
valid_bare recipe =
    nonempty_text (get "shell" recipe)
    && (nonempty_list (get "command" recipe) && argument_list (get "command" recipe))

abbrev pub named_for : String → String → Dict → Bool
named_for engine name record' =
    known_engine engine
    && (plain_name name
        && (is_text (get "name" record') name && starts_with name (append engine "-")))

-- `Path(cwd).is_absolute()`
module _ (is_absolute : String → Bool) where
  abbrev pub absolute : PyValue → Bool
  absolute (str s) = is_absolute s
  absolute _ = false

  abbrev pub identity_valid : PyValue → PyValue → Dict → Bool
  identity_valid (str engine) (str name) record' = named_for engine name record'
  identity_valid _ _ record' = false

  abbrev pub argv_valid : PyValue → PyValue → Bool
  argv_valid (str engine) argv = starts_ai engine argv
  argv_valid _ argv = false

  abbrev pub options_valid : PyValue → Dict → Bool
  options_valid (obj options) recipe =
      not (truthy (get "remote" options))
      && (argument_list (get "argv" recipe)
          && (argument_list (get "extra_args" recipe)
              && (argv_valid (get "engine" recipe) (get "argv" recipe)
                  && (if truthy (get "bare" options) then valid_bare recipe else true))))
  options_valid _ recipe = false

  unfoldable pub valid_recipe : Dict → Dict → Bool
  unfolding valid_bare
  valid_recipe recipe record' =
      identity_valid (get "engine" recipe) (get "session_name" recipe) record'
      && (value_eq (get "owning_host" recipe) (get "owning_host" record')
          && (truthy (get "owning_host" recipe)
              && (absolute (get "cwd" recipe)
                  && (is_string (get "project" recipe)
                      && options_valid (get "options" recipe) recipe))))

  abbrev pub recipe_valid : PyValue → Dict → Bool
  recipe_valid (obj recipe) record' = valid_recipe recipe record'
  recipe_valid _ record' = false

  unfoldable pub valid_boot_recipe : Dict → Bool
  unfolding valid_recipe
  valid_boot_recipe record' = recipe_valid (get "boot_recipe" record') record'
