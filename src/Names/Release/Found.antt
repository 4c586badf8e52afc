-- ===== src/Names/Release/Found.antt =====
-- What `reconcile` of src/ai_cli/name_registry.py has found of the rows that it may write.
use ai_cli_utils.Prelude.{
  ◌≡◌, refl, sym, ap, subst, ◌∙◌, ◌⊎◌, inl, inr, String, Bool, true, false, not, ◌&&◌, Option, none,
  some, List, [], ◌∷◌, In, arith, ◌==◌, eq_iff, if◌then◌else◌,
}
use ai_cli_utils.Value.Dicts.{Dict}
use ai_cli_utils.Value.Files.{lookup}
use ai_cli_utils.Names.Pick.{text_in}
use ai_cli_utils.Names.Pick.Candidates.{absent}
use ai_cli_utils.Names.Snapshot.{
  Snapshot, Policy, ok, Write, put_row, drop_row, put_entry, drop_entry, policy, keys, Entries,
}
use ai_cli_utils.Names.Reserve.{Surroundings}
use ai_cli_utils.Names.Reserve.Own.{OwnRow}
use ai_cli_utils.Names.Ledger.{owned}
use ai_cli_utils.Names.Release.{
  Probes, Marked, tokens, probe_absence, releasable, renaming, over_limits, is_candidate, is_spare,
  incomplete, wanted, candidates_in, ready, row_ready, spare_ready, spare_row_ready, without, drops,
}

pub tokens-In :
    (token : String) (ms : List Marked) → In token (tokens ms) → (b : String) × In (token, b) ms
tokens-In token [] m = absurd m
tokens-In token ((t, b) ∷ ms) (inl e) = (b, inl (ap (λ x. (x, b)) e))
tokens-In token ((t, b) ∷ ms) (inr m) = (let (c, k) = tokens-In token ms m in (c, inr k))

-- the tests of a candidate, of a row and of a spare that are still as they were found
candidate_tests :
    (a b c d e f : Bool)
    → (a && not b && c && not d && not e && f) ≡ true
    → (b ≡ false) × (f ≡ true)
candidate_tests a b c d e f h = ground arith

row_tests :
    (a b c d : Bool)
    → (a && b && not c && not d) ≡ true
    → (a ≡ true) × ((b ≡ true) × ((c ≡ false) × (d ≡ false)))
row_tests a b c d h = ground arith

spare_tests :
    (a b c d e : Bool)
    → (a && b && c && not d && e) ≡ true
    → (a ≡ true) × ((c ≡ true) × ((d ≡ false) × (e ≡ true)))
spare_tests a b c d e h = ground arith

module _ (env : Surroundings) (probes : Probes) (blob : Dict → String) (machine : String) where
  -- The row that is released is the one whose worktree and transcript were found absent.
  pub record TestedRow (tested tip : Snapshot) (token : String) (row : Dict) : Type 0 where
    pub was_read : In (token, row) tested.rows
    pub unused : releasable (probe_absence probes row) ≡ true
    pub mine : owned env row machine ≡ true
    pub no_spare : is_spare env probes blob machine row ≡ false
    pub settled : incomplete env probes blob machine row ≡ false
    pub not_renamed : renaming tip row ≡ false

  -- a spare that nobody has taken, and that the limits do not allow
  pub record SurplusRow (tip : Snapshot) (spool : Entries) (token : String) (row : Dict)
      : Type 0 where
    pub spare : is_spare env probes blob machine row ≡ true
    pub own_spare : owned env row machine ≡ true
    pub untaken : ¬ In token (keys spool)
    pub limited : (p : Policy) × ((policy tip ≡ ok p) × (over_limits token p ≡ true))

  abbrev pub Allowed : Snapshot → Snapshot → Entries → List String → Write → Type 0
  Allowed tested tip spool gone (put_row token row) =
      OwnRow env machine (record tip { rows = without env probes blob machine gone tip.rows }) token
        row
  Allowed tested tip spool gone (drop_row token) =
      (row : Dict) × ((lookup token tip.rows ≡ some row)
        × (TestedRow tested tip token row ⊎ SurplusRow tip spool token row))
  Allowed tested tip spool gone (put_entry shelf name entry) = Unit
  Allowed tested tip spool gone (drop_entry shelf name) = Unit

  -- where a candidate comes from
  pub record Origin (title : Option String) (tested : Snapshot) (entries : Entries) (m : Marked)
      : Type 0 where
    pub row : Dict
    pub read : In (m.0, row) entries
    pub marked : m.1 ≡ blob row
    pub passed : is_candidate env probes blob machine title tested row ≡ true

  pub candidates_in-Origin :
      (title : Option String) (tested : Snapshot) (entries : Entries) (m : Marked)
      → In m (candidates_in env probes blob machine title tested entries)
      → Origin title tested entries m
  unfolding candidates_in
  candidates_in-Origin title tested [] m h = absurd h
  candidates_in-Origin title tested ((token, row) ∷ rest) m h =
      go (is_candidate env probes blob machine title tested row) refl h
        (candidates_in-Origin title tested rest m)
    where
      later : Origin title tested rest m → Origin title tested ((token, row) ∷ rest) m
      later o = record { row = o.row; read = inr o.read; marked = o.marked; passed = o.passed }

      go :
          (b : Bool)
          → is_candidate env probes blob machine title tested row ≡ b
          → In m (
              if b
              then (token, blob row) ∷ candidates_in env probes blob machine title tested rest
              else candidates_in env probes blob machine title tested rest)
          → (In m (candidates_in env probes blob machine title tested rest)
              → Origin title tested rest m)
          → Origin title tested ((token, row) ∷ rest) m
      go true e (inl x) f = record {
        row = row;
        read = inl (ap (λ y. (y.0, row)) x);
        marked = ap (λ y. y.1) x;
        passed = e;
      }
      go true e (inr k) f = later (f k)
      go false e k f = later (f k)

  -- no two contents of one token, as it was read and as it is in the tip, have the same ID
  abbrev pub ContentsTold : Snapshot → Snapshot → Type 0
  ContentsTold tested tip =
      (token : String) (a b : Dict)
      → In (token, a) tested.rows
      → lookup token tip.rows ≡ some b
      → blob a ≡ blob b
      → a ≡ b

  module _ (tested tip : Snapshot) (told : ContentsTold tested tip) where
    -- a row that is still what the tests were run on
    pub ready-TestedRow :
        (title : Option String) (m : Marked)
        → Origin title tested tested.rows m
        → ready env probes blob machine tip m ≡ true
        → (row : Dict) × ((lookup m.0 tip.rows ≡ some row) × TestedRow tested tip m.0 row)
    unfolding is_candidate
    ready-TestedRow title m o h = go (lookup m.0 tip.rows) refl h
      where
        go :
            (found : Option Dict)
            → lookup m.0 tip.rows ≡ found
            → row_ready env probes blob machine tip m.1 found ≡ true
            → (row : Dict) × ((lookup m.0 tip.rows ≡ some row) × TestedRow tested tip m.0 row)
        go none e k = cc
        go (some row) e k = (row, (e, checked))
          where
            checked : TestedRow tested tip m.0 row
            checked =
                (let (same, (own, (whole, unnamed))) =
                    row_tests (blob row == m.1) (owned env row machine)
                      (incomplete env probes blob machine row) (renaming tip row) k in
                  let (regular, gone) =
                    candidate_tests (owned env o.row machine)
                      (is_spare env probes blob machine o.row)
                      (wanted env probes blob machine title o.row)
                      (incomplete env probes blob machine o.row) (renaming tested o.row)
                      (releasable (probe_absence probes o.row)) o.passed in
                  let is_row : o.row ≡ row =
                    told m.0 o.row row o.read e (sym ((eq_iff (blob row) m.1).0 same ∙ o.marked)) in
                  record {
                    was_read = subst (λ r. In (m.0, r) tested.rows) is_row o.read;
                    unused = subst (λ r. releasable (probe_absence probes r) ≡ true) is_row gone;
                    mine = own;
                    no_spare =
                        subst (λ r. is_spare env probes blob machine r ≡ false) is_row regular;
                    settled = whole;
                    not_renamed = unnamed;
                  })

  pub spare_ready-SurplusRow :
      (tip : Snapshot) (spool : Entries) (p : Policy) (m : Marked)
      → policy tip ≡ ok p
      → spare_ready env probes blob machine tip spool p m ≡ true
      → (row : Dict) × ((lookup m.0 tip.rows ≡ some row) × SurplusRow tip spool m.0 row)
  spare_ready-SurplusRow tip spool p m q h = go (lookup m.0 tip.rows) refl h
    where
      go :
          (found : Option Dict)
          → lookup m.0 tip.rows ≡ found
          → spare_row_ready env probes blob machine spool p m.0 m.1 found ≡ true
          → (row : Dict) × ((lookup m.0 tip.rows ≡ some row) × SurplusRow tip spool m.0 row)
      go none e k = cc
      go (some row) e k =
          (let (s, (own, (free, over))) =
              spare_tests (is_spare env probes blob machine row) (blob row == m.1)
                (owned env row machine) (text_in m.0 (keys spool)) (over_limits m.0 p) k in
            (
              row,
              (
                e,
                record {
                  spare = s;
                  own_spare = own;
                  untaken = absent m.0 (keys spool) free;
                  limited = (p, (q, over));
                },
              ),
            ))

  pub drops-In :
      (w : Write) (ts : List String)
      → In w (drops env probes blob machine ts)
      → (token : String) × (In token ts × (w ≡ drop_row token))
  drops-In w [] m = absurd m
  drops-In w (t ∷ ts) (inl e) = (t, (inl refl, e))
  drops-In w (t ∷ ts) (inr m) = (let (token, (k, e)) = drops-In w ts m in (token, (inr k, e)))

  -- what is left is among the held names that are not released
  pub without-covers :
      (gone : List String) (token : String) (entries : Entries)
      → In token (keys (without env probes blob machine gone entries))
      → In token (keys entries) × (text_in token gone ≡ false)
  without-covers gone token [] m = absurd m
  without-covers gone token ((t, row) ∷ rest) m =
      go (text_in t gone) refl m (without-covers gone token rest)
    where
      go :
          (b : Bool)
          → text_in t gone ≡ b
          → In token (
              keys (
                if b
                then without env probes blob machine gone rest
                else (t, row) ∷ without env probes blob machine gone rest))
          → (In token (keys (without env probes blob machine gone rest))
              → In token (keys rest) × (text_in token gone ≡ false))
          → In token (t ∷ keys rest) × (text_in token gone ≡ false)
      go true e k f = (inr (f k).0, (f k).1)
      go false e (inl x) f = (inl x, subst (λ y. text_in y gone ≡ false) (sym x) e)
      go false e (inr k) f = (inr (f k).0, (f k).1)
