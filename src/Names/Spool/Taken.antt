-- ===== src/Names/Spool/Taken.antt =====
-- The spare that is taken: `take_spare` of src/ai_cli/name_registry.py.
use ai_cli_utils.Prelude.{
  ℕ, ◌≤◌, ◌≡◌, refl, sym, ap, subst, ◌∙◌, ◌⊎◌, inl, inr, String, Bool, true, false, not, ◌&&◌, ◌||◌,
  Option, none, some, List, [], ◌∷◌, In, In-keep, keep-In, keep, sort_by, HeadLeast,
  sort_by-HeadLeast, In-sort_by, sort_by-In, arith, ◌==◌, eqb, ltb, if◌then◌else◌,
}
use ai_cli_utils.Value.{str, null, or_else, put}
use ai_cli_utils.Value.Dicts.{Dict}
use ai_cli_utils.Value.Files.{lookup, lookup-store_file, lookup-store_file_self, store_file}
use ai_cli_utils.Rows.{Problem, row_problem}
use ai_cli_utils.Rows.Sound.{find-activate_spare}
use ai_cli_utils.Names.Pick.{text_in, size, text_le}
use ai_cli_utils.Names.Pick.Candidates.{absent, unlisted}
use ai_cli_utils.Names.Snapshot.{
  Snapshot, Outcome, ok, err, ◌>>=◌, write_refused, spares_exhausted, rows_of, keys, Entries,
}
use ai_cli_utils.Names.Reserve.{
  Surroundings, Slot, Reservation, title_for, checked_row, refuse_problem,
}
use ai_cli_utils.Names.Ledger.{as_text}
use ai_cli_utils.Names.Spool.{
  token_in, spare_le, free_spares, taken_row, take_first, take_spare, activation_for,
}

module _ (env : Surroundings) where
  open env use {is_absolute, now}

  spare_le-below :
      (a b : Dict) → spare_le env a b ≡ true → size (token_in env a) ≤ size (token_in env b)
  spare_le-below a b h =
      go (size (token_in env a)) (size (token_in env b)) (text_le (token_in env a) (token_in env b))
        h
    where
      go : (m n : ℕ) (c : Bool) → (ltb m n || eqb m n && c) ≡ true → m ≤ n
      go m n c e = ground arith

  spare_le-above :
      (a b : Dict) → spare_le env a b ≡ false → size (token_in env b) ≤ size (token_in env a)
  spare_le-above a b h =
      go (size (token_in env a)) (size (token_in env b)) (text_le (token_in env a) (token_in env b))
        h
    where
      go : (m n : ℕ) (c : Bool) → (ltb m n || eqb m n && c) ≡ false → n ≤ m
      go m n c e = ground arith

  -- a spare of the machine that no entry of the spool activates
  abbrev pub Untaken : Slot → Snapshot → Entries → Dict → Type 0
  Untaken slot s spool spare =
      In spare (rows_of slot.machine "spare" s) × ¬ In (token_in env spare) (keys spool)

  pub record Taken (slot : Slot) (s : Snapshot) (spool : Entries) (r : Reservation)
      (after : Entries) : Type 0 where
    pub spare : Dict
    pub was_untaken : Untaken slot s spool spare
    pub named : r.name ≡ token_in env spare
    pub activated : r.row ≡ taken_row env slot spare
    pub no_problem : row_problem is_absolute r.row ≡ none
    pub shortest :
        (other : Dict) → Untaken slot s spool other → size r.name ≤ size (token_in env other)
    pub recorded : lookup r.name after ≡ some (put "op" (str "activate") r.row)
    pub others_kept :
        (token : String) → (r.name == token) ≡ false → lookup token after ≡ lookup token spool

  token-taken_row :
      (slot : Slot) (spare : Dict) → token_in env (taken_row env slot spare) ≡ token_in env spare
  token-taken_row slot spare =
      ap (λ found. as_text env (or_else found null))
        (find-activate_spare spare (activation_for env slot (token_in env spare)) now "token" refl)

  free_spares-Untaken :
      (slot : Slot) (s : Snapshot) (spool : Entries) (spare : Dict)
      → (In spare (free_spares env slot.machine s spool) → Untaken slot s spool spare)
        × (Untaken slot s spool spare → In spare (free_spares env slot.machine s spool))
  unfolding free_spares
  free_spares-Untaken slot s spool spare = (found, listed)
    where
      untaken : Dict → Bool
      untaken row = not (text_in (token_in env row) (keys spool))

      not_true : (b : Bool) → not b ≡ true → b ≡ false
      not_true b h = ground arith

      found :
          In spare (sort_by (spare_le env) (keep untaken (rows_of slot.machine "spare" s)))
          → Untaken slot s spool spare
      found m =
          (let (k, h) =
              In-keep spare untaken (rows_of slot.machine "spare" s) (
                In-sort_by (spare_le env) spare (keep untaken (rows_of slot.machine "spare" s))
                  m) in
            (
              k,
              absent (token_in env spare) (keys spool)
                  (not_true (text_in (token_in env spare) (keys spool)) h),
            ))

      listed :
          Untaken slot s spool spare
          → In spare (sort_by (spare_le env) (keep untaken (rows_of slot.machine "spare" s)))
      listed (k, h) =
          sort_by-In (spare_le env) spare (keep untaken (rows_of slot.machine "spare" s)) (
            keep-In spare untaken (rows_of slot.machine "spare" s) k
              (ap not (unlisted (token_in env spare) (keys spool) h)))

  least_lem :
      (machine : String) (s : Snapshot) (spool : Entries) (spare : Dict) (others : List Dict)
      → free_spares env machine s spool ≡ spare ∷ others
      → (other : Dict) → In other (free_spares env machine s spool)
      → size (token_in env spare) ≤ size (token_in env other)
  unfolding free_spares
  least_lem machine s spool spare others e other m =
      subst
        (HeadLeast (λ row. size (token_in env row)) (spare_le env) spare_le-below spare_le-above) e
        (sort_by-HeadLeast (λ row. size (token_in env row)) (spare_le env) spare_le-below
          spare_le-above
          (keep (λ row. not (text_in (token_in env row) (keys spool))) (rows_of machine "spare" s)))
        other (subst (In other) e m)

  -- a spare is taken, the spare to take has a problem, or there is none
  abbrev pub TakeAnswer : Slot → Snapshot → Entries → Type 0
  TakeAnswer slot s spool =
      ((r : Reservation) × ((after : Entries) × ((take_spare env slot s spool ≡ ok (r, after))
            × Taken slot s spool r after)))
      ⊎ (((spare : Dict) × (Untaken slot s spool spare
              × ((take_spare env slot s spool ≡ err write_refused)
                  × (¬ (row_problem is_absolute (taken_row env slot spare) ≡ none)))))
          ⊎ ((take_spare env slot s spool ≡ err spares_exhausted)
              × ((spare : Dict) → ¬ Untaken slot s spool spare)))

  -- Where this machine has a spare that no entry of the spool activates, the one that is taken is
  -- one of those and none of those is shorter; the row that is answered is that spare, activated, and
  -- has no problem, and the spool holds it under the name while its other entries are as they were;
  -- or its activated row has a problem and nothing is taken. Where there is no such spare, the launch
  -- is refused.
  pub take_spare-Taken : (slot : Slot) (s : Snapshot) (spool : Entries) → TakeAnswer slot s spool
  unfolding take_spare checked_row
  take_spare-Taken slot s spool = split (free_spares env slot.machine s spool) refl
    where
      reserved : Dict → Dict → Reservation
      reserved spare row = record {
        name = token_in env spare;
        title = title_for slot (token_in env spare);
        row = row;
        spares_added = [];
        added_to_database = false;
      }

      after_row : Dict → Entries
      after_row row = store_file (token_in env row) (put "op" (str "activate") row) spool

      finish : Dict → Dict → Outcome (Reservation × Entries)
      finish spare row = ok (reserved spare row, after_row row)

      taken :
          (spare : Dict) (others : List Dict)
          → free_spares env slot.machine s spool ≡ spare ∷ others
          → row_problem is_absolute (taken_row env slot spare) ≡ none
          → Taken slot s spool
              (reserved spare (taken_row env slot spare))
              (after_row (taken_row env slot spare))
      taken spare others e valid =
          (let entry = put "op" (str "activate") (taken_row env slot spare) in
            let same = token-taken_row slot spare in
            record {
              spare = spare;
              was_untaken =
                  (free_spares-Untaken slot s spool spare).0 (subst (In spare) (sym e) (inl refl));
              named = refl;
              activated = refl;
              no_problem = valid;
              shortest = λ other u.
                  least_lem slot.machine s spool spare others e other
                    ((free_spares-Untaken slot s spool other).1 u);
              recorded =
                  subst
                    (λ token.
                      lookup token
                        (store_file (token_in env (taken_row env slot spare)) entry spool)
                      ≡ some entry)
                    same
                    (lookup-store_file_self (token_in env (taken_row env slot spare)) entry spool);
              others_kept = λ token d.
                  lookup-store_file token (token_in env (taken_row env slot spare)) entry spool
                  ∙ ap (λ b. if b then some entry else lookup token spool)
                      (ap (λ x. x == token) same ∙ d);
            })

      decide :
          (spare : Dict) (others : List Dict)
          → free_spares env slot.machine s spool ≡ spare ∷ others
          → (o : Option Problem) → row_problem is_absolute (taken_row env slot spare) ≡ o
          → take_spare env slot s spool
            ≡ (refuse_problem env o (taken_row env slot spare) >>= finish spare)
          → TakeAnswer slot s spool
      decide spare others e none valid t = inl (
        reserved spare (taken_row env slot spare),
        (after_row (taken_row env slot spare), (t, taken spare others e valid)),
      )
      decide spare others e (some p) wrong t = inr (
          inl (
            spare,
            (
              (free_spares-Untaken slot s spool spare).0 (subst (In spare) (sym e) (inl refl)),
              (t, λ v. cc (v, wrong)),
            ),
          ))

      split : (fs : List Dict) → free_spares env slot.machine s spool ≡ fs → TakeAnswer slot s spool
      split [] e = inr (
          inr (
            ap (take_first env slot spool) e,
            λ spare u. subst (In spare) e ((free_spares-Untaken slot s spool spare).1 u),
          ))
      split (spare ∷ others) e =
          decide spare others e (row_problem is_absolute (taken_row env slot spare)) refl
            (ap (take_first env slot spool) e)
