-- ===== src/Rows.antt =====
-- The rows of the name registry: src/ai_cli/name_registry.py.
pub mod Built
pub mod Sound
use text.Mathlib.Text.{starts_with}
use ai_cli_utils.Prelude.{
  ℕ, String, Bool, true, false, not, ◌&&◌, ◌||◌, Option, none, some, List, [], ◌∷◌, all, any, ◌==◌,
  leb, if◌then◌else◌, is_some,
}
use ai_cli_utils.Value.{
  Value, null, bool, num, str, arr, obj, end, field, find, get, put, update, is_text,
}
use ai_cli_utils.Value.Dicts.{PyValue, Dict, truthy, value_eq}
use ai_cli_utils.Sessions.Recipe.{codes}

-- `ROW_FIELDS`
abbrev pub row_fields : List String
row_fields =
    "schema" ∷ "kind" ∷ "name" ∷ "token" ∷ "title" ∷ "repo" ∷ "repo_alias" ∷ "host_alias" ∷ "label"
    ∷ "machine" ∷ "client" ∷ "source" ∷ "tier" ∷ "reserved_at" ∷ "activated_at" ∷ "worktree"
    ∷ "state" ∷ "recovery" ∷ "writer" ∷ []

-- `dict.fromkeys`
abbrev pub from_keys : List String → Dict
from_keys [] = end
from_keys (k ∷ ks) = field k null (from_keys ks)

-- an optional text of a row
abbrev pub opt : Option String → PyValue
opt none = null
opt (some s) = str s

-- `_blank_row`; `writer` names the program and its version
unfoldable pub blank_row : String → String → String → Dict
blank_row writer kind token = update (from_keys row_fields) (
    field "schema" (num 1) (
      field "kind" (str kind) (
        field "token" (str token)
          (field "state" (str "active") (field "writer" (str writer) end)))))

pub record SessionRow : Type 0 where
  pub name : String
  pub title : String
  pub repo : String
  pub repo_alias : String
  pub host_alias : String
  pub label : Option String
  pub machine : String
  pub client : String
  pub source : String
  pub tier : Option String
  pub worktree : Option String

unfoldable pub session_row : String → SessionRow → String → Dict
unfolding blank_row
session_row writer r stamp = update (blank_row writer "session" r.name) (
    field "name" (str r.name) (
      field "title" (str r.title) (
        field "repo" (str r.repo) (
          field "repo_alias" (str r.repo_alias) (
            field "host_alias" (str r.host_alias) (
              field "label" (opt r.label) (
                field "machine" (str r.machine) (
                  field "client" (str r.client) (
                    field "source" (str r.source) (
                      field "tier" (opt r.tier) (
                        field "reserved_at" (str stamp) (
                          field "activated_at" (str stamp)
                            (field "worktree" (opt r.worktree) end)))))))))))))

unfoldable pub spare_row : String → String → String → String → String → Dict
unfolding blank_row
spare_row writer name host_alias machine stamp = update (blank_row writer "spare" name) (
    field "name" (str name) (
      field "host_alias" (str host_alias) (
        field "machine" (str machine)
          (field "source" (str "spare") (field "reserved_at" (str stamp) end)))))

pub record LabelRow : Type 0 where
  pub token : String
  pub title : String
  pub repo : String
  pub repo_alias : String
  pub host_alias : String
  pub label : String
  pub machine : String
  pub client : String
  pub worktree : Option String

unfoldable pub label_row : String → LabelRow → String → Dict
unfolding blank_row
label_row writer r stamp = update (blank_row writer "label" r.token) (
    field "title" (str r.title) (
      field "repo" (str r.repo) (
        field "repo_alias" (str r.repo_alias) (
          field "host_alias" (str r.host_alias) (
            field "label" (str r.label) (
              field "machine" (str r.machine) (
                field "client" (str r.client) (
                  field "source" (str "custom") (
                    field "reserved_at" (str stamp) (
                      field "activated_at" (str stamp)
                        (field "worktree" (opt r.worktree) end)))))))))))

-- what a session brings to the spare that it takes
pub record Activation : Type 0 where
  pub title : String
  pub repo : String
  pub repo_alias : String
  pub label : Option String
  pub client : String
  pub worktree : Option String

unfoldable pub activate_spare : Dict → Activation → String → Dict
activate_spare spare a stamp = update spare (
    field "kind" (str "session") (
      field "title" (str a.title) (
        field "repo" (str a.repo) (
          field "repo_alias" (str a.repo_alias) (
            field "label" (opt a.label) (
              field "client" (str a.client)
                (field "activated_at" (str stamp) (field "worktree" (opt a.worktree) end))))))))

-- `_NON_NULL` and `_NULL`
abbrev pub non_null : String → List String
non_null kind =
    if kind == "session"
    then "name" ∷ "title" ∷ "repo" ∷ "repo_alias" ∷ "host_alias" ∷ "machine" ∷ "client" ∷ "source"
      ∷ "activated_at" ∷ []
    else if kind == "spare"
    then "name" ∷ "host_alias" ∷ "machine" ∷ "source" ∷ []
    else "title" ∷ "repo" ∷ "repo_alias" ∷ "host_alias" ∷ "label" ∷ "machine" ∷ "client"
      ∷ "activated_at" ∷ []

abbrev pub only_null : String → List String
only_null kind =
    if kind == "session"
    then []
    else if kind == "spare"
    then "title" ∷ "repo" ∷ "repo_alias" ∷ "label" ∷ "client" ∷ "tier" ∷ "activated_at" ∷ "worktree"
      ∷ "recovery" ∷ []
    else "name" ∷ "tier" ∷ []

pub data Problem : Type 0 where
  unknown_kind wrong_fields wrong_schema bad_token missing superfluous : Problem
  name_differs not_spare bad_state bad_recovery unreserved absolute_path : Problem

abbrev pub text_in : String → List String → Bool
text_in s ss = any (λ t. s == t) ss

abbrev pub keys_in : Dict → List String → Bool
keys_in end ks = true
keys_in (field k v rest) ks = text_in k ks && keys_in rest ks

-- `set(row) == set(ROW_FIELDS)`
abbrev pub same_fields : Dict → Bool
same_fields row = keys_in row row_fields && all (λ k. is_some (find k row)) row_fields

abbrev pub is_null : PyValue → Bool
is_null null = true
is_null _ = false

-- `[a-z]+` and `[a-z0-9]*[a-z][a-z0-9]*`
abbrev pub lower : ℕ → Bool
lower c = leb 97 c && leb c 122

abbrev pub alphanumeric : ℕ → Bool
alphanumeric c = lower c || leb 48 c && leb c 57

abbrev pub valid_token : String → String → Bool
valid_token kind token =
    if kind == "label"
    then all alphanumeric (codes token) && any lower (codes token)
    else not (token == "") && all lower (codes token)

-- `is_absolute` is what the libraries of POSIX and of Windows paths say
module _ (is_absolute : String → Bool) where
  -- `_is_absolute`
  abbrev pub path_like : String → Bool
  path_like s = starts_with s "~" || is_absolute s

  abbrev pub absolute_text : PyValue → Bool
  absolute_text (str s) = path_like s
  absolute_text _ = false

  abbrev pub holds_absolute : Dict → Bool
  holds_absolute end = false
  holds_absolute (field k v rest) = absolute_text v || holds_absolute rest

  abbrev pub token_valid : String → PyValue → Bool
  token_valid kind (str token) = valid_token kind token
  token_valid kind _ = false

  -- the tests once the kind is known
  unfoldable pub kind_problem : String → Dict → Option Problem
  kind_problem kind row =
      if not (same_fields row)
      then some wrong_fields
      else if not (value_eq (get "schema" row) (num 1))
      then some wrong_schema
      else if not (token_valid kind (get "token" row))
      then some bad_token
      else if any (λ k. is_null (get k row)) (non_null kind)
      then some missing
      else if any (λ k. not (is_null (get k row))) (only_null kind)
      then some superfluous
      else if (kind == "session" || kind == "spare")
          && not (value_eq (get "name" row) (get "token" row))
      then some name_differs
      else if kind == "spare" && not (is_text (get "source" row) "spare")
      then some not_spare
      else if not (is_text (get "state" row) "active")
          && not (is_text (get "state" row) "migration-incomplete")
      then some bad_state
      else if is_text (get "state" row) "migration-incomplete" && is_null (get "recovery" row)
          || not (is_text (get "state" row) "migration-incomplete")
            && not (is_null (get "recovery" row))
      then some bad_recovery
      else if not (truthy (get "reserved_at" row))
      then some unreserved
      else if holds_absolute row
      then some absolute_path
      else none

  abbrev pub problem_of_kind : PyValue → Dict → Option Problem
  problem_of_kind (str kind) row =
      if text_in kind ("session" ∷ "spare" ∷ "label" ∷ [])
      then kind_problem kind row
      else some unknown_kind
  problem_of_kind _ row = some unknown_kind

  unfoldable pub row_problem : Dict → Option Problem
  unfolding kind_problem
  row_problem row = problem_of_kind (get "kind" row) row
