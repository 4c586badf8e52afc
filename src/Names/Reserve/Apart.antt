-- ===== src/Names/Reserve/Apart.antt =====
-- Reservations of src/ai_cli/name_registry.py, one after another: the rows of all of them stand.
use ai_cli_utils.Prelude.{
  ℕ, ◌≡◌, sym, ap, subst, ◌∙◌, ◌⊎◌, inl, inr, String, Bool, true, false, Option, none, some, List,
  [], ◌∷◌, In, All, arith, ◌==◌, eq_iff, Bool-cases, is_some, if◌then◌else◌,
}
use ai_cli_utils.Value.Dicts.{Dict}
use ai_cli_utils.Value.Files.{lookup, lookup-store_file, store_file}
use ai_cli_utils.Names.Snapshot.{
  Snapshot, ok, Write, put_row, put_entry, drop_row, drop_entry, Change, apply_write, apply_writes,
}
use ai_cli_utils.Names.Reserve.{Surroundings, Slot, Reservation, reserve_picked}
use ai_cli_utils.Names.Reserve.Own.{Own}
use ai_cli_utils.Names.Reserve.Kept.{reserve_picked-Own}

-- the tokens of the rows that are written
abbrev pub put_tokens : List Write → List String
put_tokens [] = []
put_tokens (put_row token row ∷ ws) = token ∷ put_tokens ws
put_tokens (put_entry sh name entry ∷ ws) = put_tokens ws
put_tokens (drop_row token ∷ ws) = put_tokens ws
put_tokens (drop_entry sh name ∷ ws) = put_tokens ws

abbrev Held : String → Snapshot → Type 0
Held token s = is_some (lookup token s.rows) ≡ true

abbrev pub Puts : List Write → Type 0
Puts [] = Unit
Puts (drop_row token ∷ ws) = ⊥
Puts (put_row token row ∷ ws) = Puts ws
Puts (put_entry sh name entry ∷ ws) = Puts ws
Puts (drop_entry sh name ∷ ws) = Puts ws

Held-put_row :
    (token j : String) (row : Dict) (s : Snapshot)
    → Held token s
    → Held token (apply_write (put_row j row) s)
Held-put_row token j row s h = go (j == token) (lookup-store_file token j row s.rows)
  where
    go :
        (b : Bool)
        → lookup token (store_file j row s.rows) ≡ (if b then some row else lookup token s.rows)
        → is_some (lookup token (store_file j row s.rows)) ≡ true
    go true e = ap is_some e
    go false e = ap is_some e ∙ h

Held-apply_writes :
    (token : String) (ws : List Write) (s : Snapshot)
    → Puts ws
    → Held token s
    → Held token (apply_writes ws s)
unfolding apply_writes
Held-apply_writes token [] s p h = h
Held-apply_writes token (put_row j row ∷ ws) s p h =
    Held-apply_writes token ws (apply_write (put_row j row) s) p (Held-put_row token j row s h)
Held-apply_writes token (put_entry sh j row ∷ ws) s p h =
    Held-apply_writes token ws (apply_write (put_entry sh j row) s) p h
Held-apply_writes token (drop_row j ∷ ws) s p h = absurd p
Held-apply_writes token (drop_entry sh j ∷ ws) s p h =
    Held-apply_writes token ws (apply_write (drop_entry sh j) s) p h

put-Held :
    (token : String) (ws : List Write) (s : Snapshot)
    → Puts ws
    → In token (put_tokens ws)
    → Held token (apply_writes ws s)
unfolding apply_writes
put-Held token [] s p m = absurd m
put-Held token (put_row j row ∷ ws) s p (inl e) =
    Held-apply_writes token ws (apply_write (put_row j row) s) p
      (subst (λ x. Held x (apply_write (put_row j row) s)) (sym e) stored)
  where
    stored : Held j (apply_write (put_row j row) s)
    stored = ground (arith, lookup-store_file j j row s.rows, eq_iff j j)
put-Held token (put_row j row ∷ ws) s p (inr m) =
    put-Held token ws (apply_write (put_row j row) s) p m
put-Held token (put_entry sh j row ∷ ws) s p m =
    put-Held token ws (apply_write (put_entry sh j row) s) p m
put-Held token (drop_row j ∷ ws) s p m = absurd p
put-Held token (drop_entry sh j ∷ ws) s p m =
    put-Held token ws (apply_write (drop_entry sh j) s) p m

module _ (env : Surroundings) where
  pub Own-Puts :
      (machine : String) (s : Snapshot) (ws : List Write) → All (Own env machine s) ws → Puts ws
  Own-Puts machine s [] h = tt
  Own-Puts machine s (put_row j row ∷ ws) (h, hs) = Own-Puts machine s ws hs
  Own-Puts machine s (put_entry sh j row ∷ ws) (h, hs) = Own-Puts machine s ws hs
  Own-Puts machine s (drop_row j ∷ ws) (h, hs) = absurd h
  Own-Puts machine s (drop_entry sh j ∷ ws) (h, hs) = Own-Puts machine s ws hs

  Own-new :
      (machine : String) (s : Snapshot) (ws : List Write)
      → All (Own env machine s) ws
      → (token : String) → In token (put_tokens ws)
      → lookup token s.rows ≡ none
  Own-new machine s [] h token m = absurd m
  Own-new machine s (put_row j row ∷ ws) (h, hs) token (inl e) =
      subst (λ x. lookup x s.rows ≡ none) (sym e) h.is_new
  Own-new machine s (put_row j row ∷ ws) (h, hs) token (inr m) = Own-new machine s ws hs token m
  Own-new machine s (put_entry sh j row ∷ ws) (h, hs) token m = Own-new machine s ws hs token m
  Own-new machine s (drop_row j ∷ ws) (h, hs) token m = absurd h
  Own-new machine s (drop_entry sh j ∷ ws) (h, hs) token m = Own-new machine s ws hs token m

  -- rows that are there stay as they are
  pub Own-kept :
      (machine : String) (s now : Snapshot) (ws : List Write)
      → All (Own env machine s) ws
      → (token : String) (row : Dict) → lookup token s.rows ≡ some row
      → lookup token now.rows ≡ some row
      → lookup token (apply_writes ws now).rows ≡ some row
  unfolding apply_writes
  Own-kept machine s now [] h token row l k = k
  Own-kept machine s now (put_row j r ∷ ws) (h, hs) token row l k =
      Own-kept machine s (apply_write (put_row j r) now) ws hs token row l
        (go (Bool-cases (j == token)))
    where
      go :
          ((j == token) ≡ true) ⊎ ((j == token) ≡ false)
          → lookup token (store_file j r now.rows) ≡ some row
      go (inl e) = cc (h.is_new, l, (eq_iff j token).0 e)
      go (inr e) =
          lookup-store_file token j r now.rows
          ∙ ap (λ b. if b then some r else lookup token now.rows) e
          ∙ k
  Own-kept machine s now (put_entry sh j r ∷ ws) (h, hs) token row l k =
      Own-kept machine s (apply_write (put_entry sh j r) now) ws hs token row l k
  Own-kept machine s now (drop_row j ∷ ws) (h, hs) token row l k = absurd h
  Own-kept machine s now (drop_entry sh j ∷ ws) (h, hs) token row l k =
      Own-kept machine s (apply_write (drop_entry sh j) now) ws hs token row l k

  module _
      (chosen : (names : List String) (c : String) → In c names → In (env.choice names) names) where
    -- what a first reservation leaves to a second
    pub record Apart (s : Snapshot) (first second : List Write) : Type 0 where
      pub no_shared :
          (token : String) → In token (put_tokens first) → ¬ In token (put_tokens second)
      pub both_held :
          (token : String)
          → In token (put_tokens first)
          → is_some (lookup token (apply_writes second (apply_writes first s)).rows) ≡ true
      pub rows_kept :
          (token : String) (row : Dict)
          → lookup token s.rows ≡ some row
          → lookup token (apply_writes second (apply_writes first s)).rows ≡ some row

    -- Of two reservations of a picked name, the second made on what the first has left, by whichever
    -- machines and for whichever slots: no token is written by both, the tokens of the first are
    -- still held after the second, and every row that was there before them is there unchanged.
    pub reserve_picked-Apart :
        (slot1 slot2 : Slot) (spool1 spool2 : List (String × Dict)) (max1 max2 : Option ℕ)
        (words1 words2 : Option (List String)) (s : Snapshot) (first second : Change Reservation)
        → reserve_picked env slot1 spool1 max1 words1 s ≡ ok (some first)
        → reserve_picked env slot2 spool2 max2 words2 (apply_writes first.writes s)
          ≡ ok (some second)
        → Apart s first.writes second.writes
    reserve_picked-Apart slot1 slot2 spool1 spool2 max1 max2 words1 words2 s first second h1 h2 =
        record { no_shared = apart; both_held = stays; rows_kept = stands }
      where
        left : Snapshot
        left = apply_writes first.writes s

        own1 : All (Own env slot1.machine s) first.writes
        own1 = reserve_picked-Own env chosen slot1 spool1 max1 words1 s first h1

        own2 : All (Own env slot2.machine left) second.writes
        own2 = reserve_picked-Own env chosen slot2 spool2 max2 words2 left second h2

        there : (token : String) → In token (put_tokens first.writes) → Held token left
        there token m = put-Held token first.writes s (Own-Puts slot1.machine s first.writes own1) m

        apart :
            (token : String)
            → In token (put_tokens first.writes)
            → ¬ In token (put_tokens second.writes)
        apart token m m' =
            cc (there token m, Own-new slot2.machine left second.writes own2 token m')

        stays :
            (token : String)
            → In token (put_tokens first.writes)
            → Held token (apply_writes second.writes left)
        stays token m =
            Held-apply_writes token second.writes left
              (Own-Puts slot2.machine left second.writes own2) (there token m)

        stands :
            (token : String) (row : Dict)
            → lookup token s.rows ≡ some row
            → lookup token (apply_writes second.writes left).rows ≡ some row
        stands token row l =
            (let l' = Own-kept slot1.machine s s first.writes own1 token row l l in
              Own-kept slot2.machine left left second.writes own2 token row l' l')
