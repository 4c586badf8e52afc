-- ===== src/Sessions/Prune/Recipes.antt =====
-- What `remove` and `prune` of src/ai_cli/session_registry.py leave in the registry.
use ai_cli_utils.Prelude.{
  ◌≡◌, refl, ◌∙◌, ◌⊎◌, inl, inr, Bool, true, false, Option, none, some, List, [], ◌∷◌, arith, keep,
  keep-In, In, if◌then◌else◌,
}
use ai_cli_utils.Value.{get}
use ai_cli_utils.Value.Dicts.{PyValue, Dict, truthy, value_eq}
use ai_cli_utils.Sessions.Store.{
  ok, Store, Write, written, failed_early, failed_late, mutate, raise_failure, nothing_after,
}
use ai_cli_utils.Sessions.Prune.{
  stays, drop_ids, remove, Death, verdict_of, verdicts_from, spared, drop_condemned, prune,
  prune_by, death_reason, add_verdict,
}

-- the records are those of the old registry which satisfy the test, in their order, or it is unchanged
keep-all : (p : Dict → Bool) (r : Dict) (rs : List Dict) → In r rs → p r ≡ true → In r (keep p rs)
keep-all p r rs m h = keep-In r p rs m h

-- A filter of the sessions under `mutate` leaves every record that passes it, however the write ends.
kept_by :
    (p : Dict → Bool) (write : Bool) (w : Write) (s : Store) (r : Dict)
    → In r s.doc.sessions
    → p r ≡ true
    → In r
        (mutate true w raise_failure nothing_after
          (λ doc. ok (write, record doc { sessions = keep p doc.sessions }))
          s).1.doc.sessions
unfolding mutate
kept_by p false w s r m h = m
kept_by p true written s r m h = keep-all p r s.doc.sessions m h
kept_by p true failed_early s r m h = m
kept_by p true failed_late s r m h = keep-all p r s.doc.sessions m h

-- `remove` leaves every record with a boot recipe in the registry, whatever IDs it is given.
pub remove-keeps_recipes :
    (ids : List PyValue) (w : Write) (s : Store) (r : Dict)
    → In r s.doc.sessions
    → truthy (get "boot_recipe" r) ≡ true
    → In r (remove ids w s).1.doc.sessions
unfolding remove drop_ids mutate stays
remove-keeps_recipes [] w s r m h = m
remove-keeps_recipes (i ∷ ids) w s r m h = kept_by (stays (i ∷ ids)) _ w s r m (ground arith)

module _ (local_alive : PyValue → Option Bool) (remote_alive : Dict → Option Bool) where
  -- a record of the snapshot with this ID is known to be dead
  abbrev pub Died : Bool → List Dict → PyValue → Death → Type 0
  Died probe snapshot id d =
      (r : Dict) × (In r snapshot
        × ((value_eq id (get "id" r) ≡ true)
            × (death_reason local_alive remote_alive r probe ≡ some d)))

  Died-later :
      (probe : Bool) (r : Dict) (rs : List Dict) (id : PyValue) (d : Death)
      → Died probe rs id d
      → Died probe (r ∷ rs) id d
  Died-later probe r rs id d (x, (m, h)) = (x, (inr m, h))

  verdict-Died :
      (probe : Bool) (rs : List Dict) (verdicts : List (PyValue × Death)) (id : PyValue) (d : Death)
      → verdict_of local_alive remote_alive id
          (verdicts_from local_alive remote_alive probe rs verdicts)
        ≡ some d
      → Died probe rs id d ⊎ (verdict_of local_alive remote_alive id verdicts ≡ some d)
  unfolding verdicts_from
  verdict-Died probe [] verdicts id d h = inr h
  verdict-Died probe (r ∷ rs) verdicts id d h =
      go (death_reason local_alive remote_alive r probe) refl (
        verdict-Died probe rs
          (add_verdict local_alive remote_alive r (death_reason local_alive remote_alive r probe)
            verdicts)
          id d h)
    where
      first :
          (e : Death) (b : Bool)
          → value_eq id (get "id" r) ≡ b
          → death_reason local_alive remote_alive r probe ≡ some e
          → (if b then some e else verdict_of local_alive remote_alive id verdicts) ≡ some d
          → Died probe (r ∷ rs) id d ⊎ (verdict_of local_alive remote_alive id verdicts ≡ some d)
      first e true v p x = inl (r, (inl refl, (v, p ∙ x)))
      first e false v p x = inr x

      go :
          (o : Option Death)
          → death_reason local_alive remote_alive r probe ≡ o
          → Died probe rs id d
            ⊎ (verdict_of local_alive remote_alive id
                  (add_verdict local_alive remote_alive r o verdicts)
                ≡ some d)
          → Died probe (r ∷ rs) id d ⊎ (verdict_of local_alive remote_alive id verdicts ≡ some d)
      go o p (inl m) = inl (Died-later probe r rs id d m)
      go none p (inr x) = inr x
      go (some e) p (inr x) = first e _ refl p x

  -- A record of the registry is still there after `prune`, however the write ends, unless it is no
  -- dry run, the record has no boot recipe, and a record of the snapshot with an equal ID was known
  -- to be dead.
  pub prune-Died :
      (probe dry_run : Bool) (snapshot : List Dict) (w : Write) (s : Store) (r : Dict)
      → In r s.doc.sessions
      → In r (prune local_alive remote_alive probe dry_run snapshot w s).1.1.doc.sessions
        ⊎ ((dry_run ≡ false)
            × ((truthy (get "boot_recipe" r) ≡ false)
                × ((d : Death) × Died probe snapshot (get "id" r) d)))
  unfolding prune drop_condemned mutate
  prune-Died probe dry_run snapshot w s r m =
      by dry_run (verdicts_from local_alive remote_alive probe snapshot []) died
    where
      id : PyValue
      id = get "id" r

      Fate : Bool → List Dict → Type 0
      Fate dry rs =
          In r rs
          ⊎ ((dry ≡ false)
              × ((truthy (get "boot_recipe" r) ≡ false) × ((d : Death) × Died probe snapshot id d)))

      died :
          (d : Death)
          → verdict_of local_alive remote_alive id
              (verdicts_from local_alive remote_alive probe snapshot [])
            ≡ some d
          → Died probe snapshot id d
      died d h = go (verdict-Died probe snapshot [] id d h)
        where
          go : Died probe snapshot id d ⊎ (none ≡ some d) → Died probe snapshot id d
          go (inl x) = x
          go (inr x) = cc

      by :
          (dry : Bool) (vs : List (PyValue × Death))
          → ((d : Death)
              → verdict_of local_alive remote_alive id vs ≡ some d
              → Died probe snapshot id d)
          → Fate dry (prune_by local_alive remote_alive dry vs snapshot w s).1.1.doc.sessions
      by dry [] f = inl m
      by true (v ∷ vs) f = inl m
      by false (v ∷ vs) f =
          go (verdict_of local_alive remote_alive id (v ∷ vs)) refl (truthy (get "boot_recipe" r))
            refl
        where
          kept :
              spared local_alive remote_alive (v ∷ vs) r ≡ true
              → Fate false
                  (prune_by local_alive remote_alive false (v ∷ vs) snapshot w s).1.1.doc.sessions
          kept h = inl (kept_by (spared local_alive remote_alive (v ∷ vs)) _ w s r m h)

          go :
              (o : Option Death)
              → verdict_of local_alive remote_alive id (v ∷ vs) ≡ o
              → (b : Bool) → truthy (get "boot_recipe" r) ≡ b
              → Fate false
                  (prune_by local_alive remote_alive false (v ∷ vs) snapshot w s).1.1.doc.sessions
          go none e b t = kept (rw e)
          go (some d) e true t = kept (rw (e, t))
          go (some d) e false t = inr (refl, (t, (d, f d e)))
