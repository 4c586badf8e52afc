-- ===== src/Names/Snapshot.antt =====
-- What the name registry holds: `Snapshot`, the policy and the changes of
-- src/ai_cli/name_registry.py.
use ai_cli_utils.Prelude.{
  ℕ, String, Bool, not, ◌&&◌, ◌||◌, Option, none, some, List, [], ◌∷◌, ◌++◌, keep, leb, ltb, ◌==◌,
  if◌then◌else◌, is_some,
}
use ai_cli_utils.Value.{str, get, is_text}
use ai_cli_utils.Value.Dicts.{Dict, PyValue}
use ai_cli_utils.Value.Files.{lookup, store_file, unlink}
use ai_cli_utils.Names.Pick.{text_in, size, is_token}

-- the verdicts of `check_hand_chosen`
pub data Verdict : Type 0 where
  held confusable word unknown limits free : Verdict

-- why an operation raises
pub data Failure : Type 0 where
  missing_key : Failure
  unreachable contended no_name_list policy_unknown pool_exhausted spares_exhausted : Failure
  write_refused : Failure
  hand_refused : Verdict → Failure

pub data Outcome {ℓ} (A : Type ℓ) : Type ℓ where
  ok : A → Outcome A
  err : Failure → Outcome A

infixl 10 ◌>>=◌
abbrev pub ◌>>=◌ {ℓ κ} : {A : Type ℓ} {B : Type κ} → Outcome A → (A → Outcome B) → Outcome B
ok a >>= f = f a
err e >>= f = err e

-- the keys of a published policy that the allocation reads, each decoded
pub record Policy : Type 0 where
  pub min_name_length : ℕ
  pub max_name_length : ℕ
  pub pick_floor : ℕ
  pub offline_spares : ℕ
  pub max_edit_distance : ℕ
  pub denylist : List String
  pub extra_words : List String
  pub keep_names : List String
  pub letters_of : String → Option (List ℕ)

-- the published generation: none, one that this version cannot apply, or its policy
pub data Generation : Type 0 where
  unpublished unknown_keys : Generation
  published : Policy → Generation

pub record Snapshot : Type 0 where
  pub rows : List (String × Dict)
  pub manual : List (String × Dict)
  pub migrations : List (String × Dict)
  pub names : Option (List String)
  pub generation : Generation

-- `Snapshot.policy`
abbrev pub policy_in : Generation → Outcome Policy
policy_in unpublished = err no_name_list
policy_in unknown_keys = err policy_unknown
policy_in (published p) = ok p

unfoldable pub policy : Snapshot → Outcome Policy
policy s = policy_in s.generation

abbrev pub keys : {A : Type 0} → List (String × A) → List String
keys [] = []
keys ((k, v) ∷ rest) = k ∷ keys rest

abbrev pub names_or_empty : Option (List String) → List String
names_or_empty none = []
names_or_empty (some ns) = ns

-- `Snapshot.available` and `Snapshot.generated`
unfoldable pub available : Snapshot → List String
available s = names_or_empty s.names ++ keys s.manual

abbrev pub listed : List String → Outcome (List String)
listed [] = err no_name_list
listed (n ∷ ns) = ok (n ∷ ns)

unfoldable pub generated : Snapshot → Outcome (List String)
generated s = listed (names_or_empty s.names)

-- `Snapshot.holder`: whether there is one
unfoldable pub is_held : String → Snapshot → Bool
is_held token s = is_some (lookup token s.rows)

abbrev pub values : {A : Type 0} → List (String × A) → List A
values [] = []
values ((k, v) ∷ rest) = v ∷ values rest

-- `Snapshot.rows_of` with a kind
unfoldable pub rows_of : String → String → Snapshot → List Dict
rows_of machine kind s =
    keep (λ row. is_text (get "machine" row) machine && is_text (get "kind" row) kind)
      (values s.rows)

-- the titles that rows have: texts that are not empty
abbrev pub title_text : PyValue → List String
title_text (str t) = if t == "" then [] else t ∷ []
title_text _ = []

abbrev pub titles : List Dict → List String
titles [] = []
titles (row ∷ rows) = title_text (get "title" row) ++ titles rows

-- `held_tokens` and `held_titles`, with the spool of activations
unfoldable pub held_tokens : Snapshot → List (String × Dict) → List String
held_tokens s spool = keys s.rows ++ keys spool

unfoldable pub held_titles : Snapshot → List (String × Dict) → List String
held_titles s spool = titles (values s.rows) ++ titles (values spool)

-- the other directories than that of the rows
pub data Shelf : Type 0 where
  manual_shelf migration_shelf : Shelf

-- the writes of one commit
pub data Write : Type 0 where
  put_row : String → Dict → Write
  drop_row : String → Write
  put_entry : Shelf → String → Dict → Write
  drop_entry : Shelf → String → Write

pub record Change (A : Type 0) : Type 0 where
  pub writes : List Write
  pub result : A

abbrev pub Build : Type 0 → Type 0
Build A = Snapshot → Outcome (Option (Change A))

abbrev pub Entries : Type 0
Entries = List (String × Dict)

-- a change of one of the shelves, as a change of the names added by hand and of the migrations
abbrev pub in_manual : Shelf → (Entries → Entries) → Entries → Entries
in_manual manual_shelf f entries = f entries
in_manual migration_shelf f entries = entries

abbrev pub in_migrations : Shelf → (Entries → Entries) → Entries → Entries
in_migrations manual_shelf f entries = entries
in_migrations migration_shelf f entries = f entries

abbrev pub on_shelf : Shelf → (Entries → Entries) → Snapshot → Snapshot
on_shelf shelf f s = record s {
  manual = in_manual shelf f s.manual;
  migrations = in_migrations shelf f s.migrations;
}

abbrev pub apply_write : Write → Snapshot → Snapshot
apply_write (put_row token row) s = record s { rows = store_file token row s.rows }
apply_write (drop_row token) s = record s { rows = unlink token s.rows }
apply_write (put_entry shelf name entry) s = on_shelf shelf (store_file name entry) s
apply_write (drop_entry shelf name) s = on_shelf shelf (unlink name) s

unfoldable pub apply_writes : List Write → Snapshot → Snapshot
apply_writes [] s = s
apply_writes (w ∷ ws) s = apply_writes ws (apply_write w s)

-- `is_common_word` and `limits_reason` (whether there is a reason)
abbrev pub is_common_word : String → Policy → List String → Bool
is_common_word name p words =
    not (text_in name p.keep_names) && (text_in name words || text_in name p.extra_words)

unfoldable pub out_of_limits : String → Policy → Bool
out_of_limits name p =
    not (is_token name) || ltb p.max_name_length (size name) || ltb (size name) p.min_name_length

-- `passes_static`, with the names that `read_non_names` lists
unfoldable pub passes_static : List String → String → Policy → List String → Bool
passes_static non_names name p words =
    is_token name
    && (leb p.min_name_length (size name) && leb (size name) p.max_name_length)
    && not (text_in name p.denylist)
    && not (text_in name non_names)
    && not (is_common_word name p words)
