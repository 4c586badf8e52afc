-- ===== src/Sessions/Recipe/Shape.antt =====
-- What a recipe that `valid_boot_recipe` of src/ai_cli/session_run_state.py accepts looks like.
use ai_cli_utils.Prelude.{
  ℕ, ◌≤◌, ◌≡◌, refl, ap, subst, ◌⊎◌, both, String, Bool, true, false, not, List, [], ◌∷◌, arith,
  all, All, ◌==◌, eq_iff,
}
use Prim.Native.String.{◌++◌ as append}
use text.Mathlib.Text.{starts_with}
use ai_cli_utils.Value.{Items, null, bool, num, str, arr, obj, cons, get, is_text}
use ai_cli_utils.Value.Dicts.{PyValue, Dict, truthy, value_eq}
use ai_cli_utils.Sessions.Recipe.{
  codes, name_char, known_engine, starts_ai, named_for, identity_valid, argv_valid, options_valid,
  valid_recipe, recipe_valid, valid_boot_recipe, valid_bare, argument_list, absolute, is_string,
}

-- a letter, a digit, `_` or `-`
abbrev pub NameChar : ℕ → Type 0
NameChar c =
    ((65 ≤ c) × (c ≤ 90))
    ⊎ (((97 ≤ c) × (c ≤ 122)) ⊎ (((48 ≤ c) × (c ≤ 57)) ⊎ ((c ≡ 95) ⊎ (c ≡ 45))))

name_char-NameChar : (c : ℕ) → name_char c ≡ true → NameChar c
name_char-NameChar c h = ground arith

all-NameChar : (cs : List ℕ) → all name_char cs ≡ true → All NameChar cs
all-NameChar [] h = tt
all-NameChar (c ∷ cs) h = (let (a, b) = both _ _ h in (name_char-NameChar c a, all-NameChar cs b))

is_text-str : (v : PyValue) (s : String) → is_text v s ≡ true → v ≡ str s
is_text-str (str t) s h = ap str ((eq_iff t s).0 h)
is_text-str null s h = cc
is_text-str (bool b) s h = cc
is_text-str (num x) s h = cc
is_text-str (arr xs) s h = cc
is_text-str (obj fs) s h = cc

denial : (b : Bool) → not b ≡ true → b ≡ false
denial b h = ground arith

module _ (is_absolute : String → Bool) where
  -- A recipe that may be run for the record `r`: a known engine, a name that is the record's, plain
  -- and of that engine, the record's host, an absolute directory, a project, options that do not
  -- ask for a remote host, and two lists of arguments of which the first starts `ai ENGINE`.
  pub record Runnable (recipe r : Dict) : Type 0 where
    pub engine : String
    pub is_engine : get "engine" recipe ≡ str engine
    pub known : known_engine engine ≡ true
    pub name : String
    pub is_name : get "session_name" recipe ≡ str name
    pub of_record : get "name" r ≡ str name
    pub nonempty : (name == "") ≡ false
    pub plain : All NameChar (codes name)
    pub prefixed : starts_with name (append engine "-") ≡ true
    pub same_host : value_eq (get "owning_host" recipe) (get "owning_host" r) ≡ true
    pub some_host : truthy (get "owning_host" recipe) ≡ true
    pub cwd : String
    pub is_cwd : get "cwd" recipe ≡ str cwd
    pub cwd_absolute : is_absolute cwd ≡ true
    pub project : String
    pub is_project : get "project" recipe ≡ str project
    pub options : Dict
    pub is_options : get "options" recipe ≡ obj options
    pub not_remote : truthy (get "remote" options) ≡ false
    pub argv : argument_list (get "argv" recipe) ≡ true
    pub extra_args : argument_list (get "extra_args" recipe) ≡ true
    pub rest : Items ℕ
    pub starts : get "argv" recipe ≡ arr (cons (str "ai") (cons (str engine) rest))
    pub bare : truthy (get "bare" options) ≡ true → valid_bare recipe ≡ true

  identity :
      (e n : PyValue) (r : Dict)
      → identity_valid is_absolute e n r ≡ true
      → (engine : String) × ((name : String) × ((e ≡ str engine)
            × ((n ≡ str name) × (named_for engine name r ≡ true))))
  identity (str engine) (str name) r h = (engine, (name, (refl, (refl, h))))
  identity _ _ r h = cc

  directory :
      (v : PyValue)
      → absolute is_absolute v ≡ true
      → (cwd : String) × ((v ≡ str cwd) × (is_absolute cwd ≡ true))
  directory (str cwd) h = (cwd, (refl, h))
  directory _ h = cc

  project_text : (v : PyValue) → is_string v ≡ true → (s : String) × (v ≡ str s)
  project_text (str s) h = (s, refl)
  project_text _ h = cc

  settings :
      (v : PyValue) (recipe : Dict)
      → options_valid is_absolute v recipe ≡ true
      → (o : Dict) × ((v ≡ obj o) × (options_valid is_absolute (obj o) recipe ≡ true))
  settings (obj o) recipe h = (o, (refl, h))
  settings _ recipe h = cc

  begins :
      (engine : String) (v : PyValue)
      → starts_ai engine v ≡ true
      → (rest : Items ℕ) × (v ≡ arr (cons (str "ai") (cons (str engine) rest)))
  begins engine (arr (cons a (cons e rest))) h =
      (let (first, second) = both _ _ h in
        let p = is_text-str a "ai" first in
        let q = is_text-str e engine second in (rest, rw (p, q)))
  begins engine _ h = cc

  module _ (recipe r : Dict) where
    valid_recipe-Runnable : valid_recipe is_absolute recipe r ≡ true → Runnable recipe r
    unfolding valid_recipe valid_bare
    valid_recipe-Runnable h =
        (let (h1, rest1) = both _ _ h in
          let (same_host, rest2) = both _ _ rest1 in
          let (some_host, rest3) = both _ _ rest2 in
          let (h4, rest4) = both _ _ rest3 in
          let (h5, rest5) = both _ _ rest4 in
          let (engine, (name, (is_engine, (is_name, named)))) = identity _ _ r h1 in
          let (known, named1) = both _ _ named in
          let (plain, named2) = both _ _ named1 in
          let (nonempty, chars) = both _ _ plain in
          let (of_record, prefixed) = both _ _ named2 in
          let (cwd, (is_cwd, cwd_absolute)) = directory _ h4 in
          let (project, is_project) = project_text _ h5 in
          let (options, (is_options, opts)) = settings _ recipe rest5 in
          let (not_remote, opts1) = both _ _ opts in
          let (argv, opts2) = both _ _ opts1 in
          let (extra_args, opts3) = both _ _ opts2 in
          let (begun, bare) = both _ _ opts3 in
          let (rest, starts) =
            begins engine (get "argv" recipe) (
              subst (λ v. argv_valid is_absolute v (get "argv" recipe) ≡ true) (is_engine) begun) in
          record {
            engine = engine;
            is_engine = is_engine;
            known = known;
            name = name;
            is_name = is_name;
            of_record = is_text-str _ name of_record;
            nonempty = denial _ nonempty;
            plain = all-NameChar (codes name) chars;
            prefixed = prefixed;
            same_host = same_host;
            some_host = some_host;
            cwd = cwd;
            is_cwd = is_cwd;
            cwd_absolute = cwd_absolute;
            project = project;
            is_project = is_project;
            options = options;
            is_options = is_options;
            not_remote = denial _ not_remote;
            argv = argv;
            extra_args = extra_args;
            rest = rest;
            starts = starts;
            bare = λ e. ground arith;
          })

  -- A record whose boot recipe is valid holds a recipe that may be run for it: its engine is known,
  -- its name is the record's, is made of letters, digits, `_` and `-` and starts with the engine,
  -- its host is the record's, its directory is absolute, and its first list of arguments starts
  -- `ai ENGINE`.
  pub valid_boot_recipe-Runnable :
      (r : Dict)
      → valid_boot_recipe is_absolute r ≡ true
      → (recipe : Dict) × ((get "boot_recipe" r ≡ obj recipe) × Runnable recipe r)
  unfolding valid_boot_recipe
  valid_boot_recipe-Runnable r h = go (get "boot_recipe" r) h
    where
      go :
          (v : PyValue)
          → recipe_valid is_absolute v r ≡ true
          → (recipe : Dict) × ((v ≡ obj recipe) × Runnable recipe r)
      go (obj recipe) e = (recipe, (refl, valid_recipe-Runnable recipe r e))
      go _ e = cc
