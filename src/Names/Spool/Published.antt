-- ===== src/Names/Spool/Published.antt =====
-- What the publication of an activation may write: `publish_spool` of src/ai_cli/name_registry.py.
use ai_cli_utils.Prelude.{
  ◌≡◌, refl, sym, ap, subst, ◌∙◌, ◌⊎◌, inl, inr, String, Bool, true, false, not, ◌&&◌, ◌||◌, Option,
  none, some, List, [], ◌∷◌, In, all, arith, some-inj, if◌then◌else◌,
}
use ai_cli_utils.Value.{get, obj, is_text}
use ai_cli_utils.Value.Dicts.{Dict, value_eq}
use ai_cli_utils.Value.Files.{lookup}
use ai_cli_utils.Rows.{row_problem, row_fields}
use ai_cli_utils.Rows.Sound.{activation_fields}
use ai_cli_utils.Names.Pick.{text_in}
use ai_cli_utils.Names.Snapshot.{
  Snapshot, Outcome, ok, err, ◌>>=◌, write_refused, missing_key, Write, put_row, Change,
}
use ai_cli_utils.Names.Reserve.{Surroundings, checked_row}
use ai_cli_utils.Names.Reserve.Own.{bound, ok-inj, checked_row-valid}
use ai_cli_utils.Names.Ledger.{owned}
use ai_cli_utils.Names.Spool.{
  without_key, only_activated, lacks, misses, publish_row, publish_entry,
}

module _ (env : Surroundings) where
  open env use {is_absolute}

  -- what is written for an entry of the spool: the activation of a spare of the machine
  pub record Activates (machine token : String) (activation : Dict) (s : Snapshot)
      (writes : List Write) : Type 0 where
    pub spare : Dict
    pub found : lookup token s.rows ≡ some spare
    pub still_spare : is_text (get "kind" spare) "spare" ≡ true
    pub own : owned env spare machine ≡ true
    pub fields_kept :
        (key : String)
        → In key row_fields
        → (value_eq (get key spare) (get key activation) ≡ true)
          ⊎ (text_in key activation_fields ≡ true)
    pub valid : row_problem is_absolute activation ≡ none
    pub only_write : writes ≡ put_row token activation ∷ []

  either : (a b : Bool) → (a || b) ≡ true → (a ≡ true) ⊎ (b ≡ true)
  either a b h = ground arith

  both_true : (a b : Bool) → (a && b) ≡ true → (a ≡ true) × (b ≡ true)
  both_true a b h = ground arith

  all-In :
      (p : String → Bool) (keys : List String)
      → all p keys ≡ true
      → (key : String) → In key keys
      → p key ≡ true
  all-In p [] h key m = absurd m
  all-In p (k ∷ keys) h key (inl e) =
      subst (λ j. p j ≡ true) (sym e) (both_true (p k) (all p keys) h).0
  all-In p (k ∷ keys) h key (inr m) = all-In p keys (both_true (p k) (all p keys) h).1 key m

  -- the tests of a row, passed
  passed :
      (same no_kind spare no_machine own gap kept : Bool)
      (rest : Outcome (Option (Change (Unit {0})))) (change : Change (Unit {0}))
      → (if same
          then ok none
          else if no_kind
          then err missing_key
          else if not spare
          then err write_refused
          else if no_machine
          then err missing_key
          else if not own
          then err write_refused
          else if gap
          then err missing_key
          else if not kept
          then err write_refused
          else rest)
        ≡ ok (some change)
      → (spare ≡ true) × ((own ≡ true) × ((kept ≡ true) × (rest ≡ ok (some change))))
  passed true k s m o g p rest change h = cc
  passed false true s m o g p rest change h = cc
  passed false false false m o g p rest change h = cc
  passed false false true true o g p rest change h = cc
  passed false false true false false g p rest change h = cc
  passed false false true false true true p rest change h = cc
  passed false false true false true false false rest change h = cc
  passed false false true false true false true rest change h = (refl, (refl, (refl, h)))

  -- The publication of an activation writes only where the registry still has a spare of this
  -- machine under the token: it writes the activation and nothing else, a row without a problem that
  -- differs from the spare in activation fields only.
  pub publish_entry-Activates :
      (machine token : String) (entry : Dict) (s : Snapshot) (change : Change (Unit {0}))
      → publish_entry env machine token entry s ≡ ok (some change)
      → Activates machine token (without_key "op" entry) s change.writes
  unfolding publish_entry
  publish_entry-Activates machine token entry s change h = go (lookup token s.rows) refl h
    where
      activation : Dict
      activation = without_key "op" entry

      go :
          (o : Option Dict)
          → lookup token s.rows ≡ o
          → publish_row env machine token activation o ≡ ok (some change)
          → Activates machine token activation s change.writes
      go none e x = cc
      go (some row) e x =
          (let (spare, (own, (kept, x1))) =
              passed (value_eq (obj row) (obj activation)) (lacks env row "kind")
                (is_text (get "kind" row) "spare") (lacks env row "machine") (owned env row machine)
                (misses env row activation) (only_activated env row activation)
                (do
                  checked ← checked_row env activation
                  ok (some (record { writes = put_row token checked ∷ []; result = tt })))
                change x in
            let (checked, (c, x2)) =
              bound (checked_row env activation)
                (λ checked. ok (some (record { writes = put_row token checked ∷ []; result = tt })))
                (some change) x1 in
            let (same, valid) = checked_row-valid env activation checked c in
            record {
              spare = row;
              found = e;
              still_spare = spare;
              own = own;
              fields_kept = λ key m.
                  either (value_eq (get key row) (get key activation))
                    (text_in key activation_fields)
                    (all-In
                      (λ k. value_eq (get k row) (get k activation) || text_in k activation_fields)
                      row_fields kept key m);
              valid = valid;
              only_write =
                  ap (λ c. c.writes) (sym (some-inj (ok-inj x2)))
                  ∙ ap (λ d. put_row token d ∷ []) (sym same);
            })
