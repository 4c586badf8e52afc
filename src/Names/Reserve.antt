-- ===== src/Names/Reserve.antt =====
-- Reserving names: the operations of src/ai_cli/name_registry.py that take a free name.
pub mod Own
pub mod Kept
pub mod Apart
pub mod Seated
use Prim.Native.String.{◌++◌ as append}
use ai_cli_utils.Prelude.{
  ℕ, zero, suc, ◌-◌, String, Bool, true, false, not, ◌&&◌, ◌||◌, Option, none, some, List, [], ◌∷◌,
  ◌++◌, map, all, any, length, distinct, keep, eqb, leb, ◌==◌, if◌then◌else◌,
}
use ai_cli_utils.Value.{num, null, str, field, end}
use ai_cli_utils.Value.Dicts.{Dict, PyValue}
use ai_cli_utils.Sessions.Recipe.{codes}
use ai_cli_utils.Rows.{
  SessionRow, LabelRow, Activation, session_row, label_row, spare_row, row_problem, opt, lower,
}
use ai_cli_utils.Names.Segment.{last_segment}
use ai_cli_utils.Names.Pick.{
  PickRequest, NamePick, tier_label, pick_name, prefix_pair, one_edit, text_in, size, is_token,
  code_in,
}
use ai_cli_utils.Names.Snapshot.{
  Snapshot, Policy, Verdict, held, confusable, word, unknown, limits, free, Failure, write_refused,
  pool_exhausted, hand_refused, Outcome, ok, err, ◌>>=◌, Write, put_row, put_entry, drop_entry,
  manual_shelf, Change, Build, policy, generated, available, is_held, rows_of, held_tokens,
  held_titles, passes_static, is_common_word, out_of_limits, keys,
}

-- what the operations are given by the program's surroundings: the libraries, the lists of words,
-- the time and the version of the program
pub record Surroundings : Type 0 where
  pub is_absolute : String → Bool
  pub lower_case : String → String
  pub choice : List String → String
  pub alias_words : List String
  pub non_names : List String
  -- `str` of a number
  pub decimal : ℕ → String
  -- `str` of a value that is not a text
  pub display : PyValue → String
  pub writer : String
  pub now : String

-- `Slot`
pub record Slot : Type 0 where
  pub repo : String
  pub repo_alias : String
  pub host_alias : String
  pub label : Option String
  pub machine : String
  pub client : String
  pub worktree : Bool

abbrev pub dashed : String → String → String
dashed a b = append a (append "-" b)

unfoldable pub stem : Slot → String
stem slot = dashed slot.repo_alias slot.host_alias

-- `f"{self.stem}-{self.label}-" if self.label else f"{self.stem}-"`
abbrev pub prefix_from : String → Option String → String
prefix_from s none = append s "-"
prefix_from s (some label) =
    if label == "" then append s "-" else append s (append "-" (append label "-"))

unfoldable pub title_prefix : Slot → String
unfolding stem
title_prefix slot = prefix_from (stem slot) slot.label

unfoldable pub title_for : Slot → String → String
unfolding title_prefix
title_for slot name = append (title_prefix slot) name

unfoldable pub worktree_for : Slot → String → Option String
worktree_for slot title = if slot.worktree then some (append ".worktrees/" title) else none

pub record Reservation : Type 0 where
  pub name : String
  pub title : String
  pub row : Dict
  pub spares_added : List String
  pub added_to_database : Bool

module _ (env : Surroundings) where
  open env use {is_absolute, writer, now}

  -- `checked_row`, without the encoding
  abbrev pub refuse_problem {ℓ} : {P : Type ℓ} → Option P → Dict → Outcome Dict
  refuse_problem none row = ok row
  refuse_problem (some p) row = err write_refused

  unfoldable pub checked_row : Dict → Outcome Dict
  checked_row row = refuse_problem (row_problem is_absolute row) row

  -- `alias_letters` and `resolve_letters`, without the warning
  unfoldable pub alias_letters : String → List ℕ
  alias_letters repo_alias = distinct eqb (keep lower (codes (env.lower_case repo_alias)))

  abbrev pub letters_from : List ℕ → Option (List ℕ) → List ℕ
  letters_from own none = own
  letters_from own (some []) = own
  letters_from own (some (c ∷ cs)) =
      if all (λ letter. code_in letter own) (c ∷ cs) then c ∷ cs else own

  unfoldable pub resolve_letters : String → Option (List ℕ) → List ℕ
  unfolding alias_letters
  resolve_letters repo_alias include = letters_from (alias_letters repo_alias) include

  -- `min(high, max_length) if max_length else high`
  abbrev pub capped : ℕ → Option ℕ → ℕ
  capped high none = high
  capped high (some zero) = high
  capped high (some (suc n)) = if leb high (suc n) then high else suc n

  abbrev pub static_test : Policy → Option (List String) → Option (String → Bool)
  static_test p none = none
  static_test p (some words) = some (λ name. passes_static env.non_names name p words)

  -- `pick_request`, without the warning; `extra_held` is empty in the calls below
  unfoldable pub pick_request :
      Snapshot → Slot → List (String × Dict) → Option ℕ → Option (List String) → Outcome PickRequest
  unfolding policy generated held_tokens held_titles title_prefix resolve_letters stem
  pick_request s slot spool max_length words = do
    p ← policy s
    names ← generated s
    ok (record {
      generated = names;
      held = held_tokens s spool;
      held_titles = held_titles s spool;
      stem = stem slot;
      title_prefix = title_prefix slot;
      repo_alias = slot.repo_alias;
      min_length = p.min_name_length;
      max_length = capped p.max_name_length max_length;
      letters = resolve_letters slot.repo_alias (p.letters_of slot.repo_alias);
      pick_floor = p.pick_floor;
      reserved_words = slot.repo_alias ∷ slot.host_alias ∷ env.alias_words;
      denylist = p.denylist;
      manual = keys s.manual;
      passes_static = static_test p words;
      max_edit_distance = p.max_edit_distance;
    })

  -- the request of `_spare_writes`
  abbrev pub spare_request :
      Policy → List String → Snapshot → Slot → List String → Option (List String) → PickRequest
  spare_request p names s slot taken words = record {
    generated = names;
    held = taken;
    held_titles = [];
    stem = stem slot;
    title_prefix = append (stem slot) "-";
    repo_alias = "";
    min_length = p.min_name_length;
    max_length = p.max_name_length;
    letters = [];
    pick_floor = 1;
    reserved_words = slot.repo_alias ∷ slot.host_alias ∷ env.alias_words;
    denylist = p.denylist;
    manual = keys s.manual;
    passes_static = static_test p words;
    max_edit_distance = p.max_edit_distance;
  }

  abbrev pub pick : PickRequest → Option NamePick
  pick r = pick_name env.lower_case env.choice r

  -- one spare more, unless no name is free
  abbrev pub add_spare :
      Option NamePick
      → Slot
      → List String
      → (List String → Outcome (List Write × List String))
      → Outcome (List Write × List String)
  add_spare none slot added again = ok ([], added)
  add_spare (some p) slot added again = do
    row ← checked_row (spare_row writer p.name slot.host_alias slot.machine now)
    rest ← again (added ++ p.name ∷ [])
    ok (put_row p.name row ∷ rest.0, rest.1)

  -- the loop of `_spare_writes`, `count` times at most
  unfoldable pub spare_loop :
      ℕ
      → Policy
      → Snapshot
      → Slot
      → List String
      → Option (List String)
      → List String
      → Outcome (List Write × List String)
  unfolding generated stem pick_name checked_row
  spare_loop zero p s slot taken words added = ok ([], added)
  spare_loop (suc count) p s slot taken words added = do
    names ← generated s
    add_spare (pick (spare_request p names s slot (taken ++ added) words)) slot added
        (λ more. spare_loop count p s slot taken words more)

  unfoldable pub spare_writes :
      Snapshot → Slot → List String → Option (List String) → Outcome (List Write × List String)
  unfolding policy rows_of spare_loop
  spare_writes s slot taken words = do
    p ← policy s
    spare_loop (p.offline_spares - length (rows_of slot.machine "spare" s)) p s slot taken words []

  abbrev pub row_for : Slot → String → String → String → Option String → SessionRow
  row_for slot name title source tier = record {
    name = name;
    title = title;
    repo = slot.repo;
    repo_alias = slot.repo_alias;
    host_alias = slot.host_alias;
    label = slot.label;
    machine = slot.machine;
    client = slot.client;
    source = source;
    tier = tier;
    worktree = worktree_for slot title;
  }

  abbrev pub require_pick : Option NamePick → Outcome NamePick
  require_pick none = err pool_exhausted
  require_pick (some p) = ok p

  -- `build` of `reserve_picked`
  unfoldable pub reserve_picked :
      Slot → List (String × Dict) → Option ℕ → Option (List String) → Build Reservation
  unfolding pick_request pick_name title_for worktree_for checked_row spare_writes
  reserve_picked slot spool max_length words s = do
    request ← pick_request s slot spool max_length words
    p ← require_pick (pick request)
    row ← checked_row (
        session_row writer
          (row_for slot p.name (title_for slot p.name) "picked"
            (some (tier_label env.decimal p.name p.tier)))
          now)
    spares ← spare_writes s slot (p.name ∷ request.held) words
    ok (
        some (record {
          writes = put_row p.name row ∷ spares.0;
          result = record {
            name = p.name;
            title = title_for slot p.name;
            row = row;
            spares_added = spares.1;
            added_to_database = false;
          };
        }))
