-- ===== src/Names/Reserve/Own.antt =====
-- What the reserving operations of src/ai_cli/name_registry.py write.
use ai_cli_utils.Prelude.{
  ℕ, zero, suc, ◌≡◌, refl, sym, subst, ◌∙◌, ◌⊎◌, inl, inr, String, true, false, Option, none, some,
  List, [], ◌∷◌, ◌++◌, In, In-append_left, All, ◌==◌, eq_iff, Bool-cases, some-inj, if◌then◌else◌,
}
use ai_cli_utils.Value.{str, get}
use ai_cli_utils.Value.Dicts.{Dict}
use ai_cli_utils.Value.Files.{lookup}
use ai_cli_utils.Rows.{
  SessionRow, LabelRow, session_row, label_row, spare_row, row_problem, Problem,
}
use ai_cli_utils.Names.Pick.{PickRequest, NamePick}
use ai_cli_utils.Names.Pick.Candidates.{Free}
use ai_cli_utils.Names.Pick.Picked.{Picked, pick_name-Picked}
use ai_cli_utils.Names.Snapshot.{
  Snapshot, Policy, Outcome, ok, err, ◌>>=◌, Write, put_row, put_entry, drop_row, drop_entry,
  Change, keys, held_tokens, generated, policy,
}
use ai_cli_utils.Names.Reserve.{
  Surroundings, Slot, checked_row, refuse_problem, pick_request, spare_request, pick, add_spare,
  spare_loop, spare_writes,
}

-- the binding of an outcome, taken apart
pub bound :
    {A B : Type 0} (x : Outcome A) (f : A → Outcome B) (b : B)
    → (x >>= f) ≡ ok b
    → (a : A) × ((x ≡ ok a) × (f a ≡ ok b))
bound (ok a) f b h = (a, (refl, h))
bound (err e) f b h = cc

pub ok-inj : {A : Type 0} {a b : A} → ok a ≡ ok b → a ≡ b
ok-inj h = cc

-- a name that no key equals is not found
pub lookup-none :
    {A : Type 0} (k : String) (files : List (String × A))
    → ¬ In k (keys files)
    → lookup k files ≡ none
lookup-none k [] h = refl
lookup-none k ((j, d) ∷ files) h = go (Bool-cases (j == k)) (lookup-none k files (λ m. h (inr m)))
  where
    go :
        ((j == k) ≡ true) ⊎ ((j == k) ≡ false)
        → lookup k files ≡ none
        → (if j == k then some d else lookup k files) ≡ none
    go (inl e) rest = absurd (h (inl (sym ((eq_iff j k).0 e))))
    go (inr e) rest = rw (e, rest)

module _ (env : Surroundings) where
  open env use {is_absolute, writer, now}

  -- a row that a machine writes for itself, where the registry has none
  pub record OwnRow (machine : String) (s : Snapshot) (token : String) (row : Dict) : Type 0 where
    pub is_new : lookup token s.rows ≡ none
    pub for_token : get "token" row ≡ str token
    pub for_machine : get "machine" row ≡ str machine
    pub valid : row_problem is_absolute row ≡ none

  abbrev pub Own : String → Snapshot → Write → Type 0
  Own machine s (put_row token row) = OwnRow machine s token row
  Own machine s (put_entry sh name entry) = Unit
  Own machine s (drop_row token) = ⊥
  Own machine s (drop_entry sh name) = Unit

  pub checked_row-valid :
      (row row' : Dict)
      → checked_row env row ≡ ok row'
      → (row ≡ row') × (row_problem is_absolute row ≡ none)
  unfolding checked_row
  checked_row-valid row row' h = go (row_problem is_absolute row) h
    where
      go : (o : Option Problem) → refuse_problem env o row ≡ ok row' → (row ≡ row') × (o ≡ none)
      go none e = (ok-inj e, refl)
      go (some p) e = cc

  pub own_row :
      (machine : String) (s : Snapshot) (token : String) (row row' : Dict)
      → lookup token s.rows ≡ none
      → get "token" row ≡ str token
      → get "machine" row ≡ str machine
      → checked_row env row ≡ ok row'
      → OwnRow machine s token row'
  own_row machine s token row row' l t m c =
      (let (e, v) = checked_row-valid row row' c in
        subst (OwnRow machine s token) e
          (record { is_new = l; for_token = t; for_machine = m; valid = v }))

  -- the fields of the rows that are built
  spare_fields :
      (name host machine : String)
      → (get "token" (spare_row writer name host machine now) ≡ str name)
        × (get "machine" (spare_row writer name host machine now) ≡ str machine)
  unfolding spare_row
  spare_fields name host machine = (refl, refl)

  pub session_fields :
      (r : SessionRow)
      → (get "token" (session_row writer r now) ≡ str r.name)
        × (get "machine" (session_row writer r now) ≡ str r.machine)
  unfolding session_row
  session_fields r = (refl, refl)

  pub label_fields :
      (r : LabelRow)
      → (get "token" (label_row writer r now) ≡ str r.token)
        × (get "machine" (label_row writer r now) ≡ str r.machine)
  unfolding label_row
  label_fields r = (refl, refl)

  module _
      (chosen : (names : List String) (c : String) → In c names → In (env.choice names) names) where
    -- a picked name is free for its request
    pub pick-Free : (r : PickRequest) (p : NamePick) → pick env r ≡ some p → Free r p.name
    pick-Free r p h = go (pick_name-Picked env.lower_case env.choice r chosen)
      where
        go :
            ((q : NamePick) × ((pick env r ≡ some q) × Picked env.lower_case env.choice r q))
              ⊎ ((pick env r ≡ none) × ((c : String) → ¬ Free r c))
            → Free r p.name
        go (inl (q, (e, picked))) = subst (λ x. Free r x.name) (some-inj (sym e ∙ h)) picked.free
        go (inr (e, f)) = cc (h, e)

    spare_loop-Own :
        (count : ℕ) (p : Policy) (s : Snapshot) (slot : Slot) (taken : List String)
        (words : Option (List String)) (added : List String) (out : List Write × List String)
        → ((token : String) → In token (keys s.rows) → In token taken)
        → spare_loop env count p s slot taken words added ≡ ok out
        → All (Own slot.machine s) out.0
    unfolding spare_loop
    spare_loop-Own zero p s slot taken words added out covers h =
        subst (λ o. All (Own slot.machine s) o.0) (ok-inj h) tt
    spare_loop-Own (suc count) p s slot taken words added out covers h =
        (let (names, (g, h1)) =
            bound (generated s)
              (λ ns.
                add_spare env (pick env (spare_request env p ns s slot (taken ++ added) words)) slot
                  added (λ more. spare_loop env count p s slot taken words more))
              out h in
          go names (pick env (spare_request env p names s slot (taken ++ added) words)) refl h1
            (λ more o e. spare_loop-Own count p s slot taken words more o covers e))
      where
        go :
            (names : List String) (o : Option NamePick)
            → pick env (spare_request env p names s slot (taken ++ added) words) ≡ o
            → add_spare env o slot added (λ more. spare_loop env count p s slot taken words more)
              ≡ ok out
            → ((more : List String) (o : List Write × List String)
                → spare_loop env count p s slot taken words more ≡ ok o
                → All (Own slot.machine s) o.0)
            → All (Own slot.machine s) out.0
        go names none e x later = subst (λ o. All (Own slot.machine s) o.0) (ok-inj x) tt
        go names (some q) e x later =
            (let row = spare_row writer q.name slot.host_alias slot.machine now in
              let more = added ++ q.name ∷ [] in
              let (row', (c, x1)) =
                bound (checked_row env row)
                  (λ r. do
                    rest ← spare_loop env count p s slot taken words more
                    ok (put_row q.name r ∷ rest.0, rest.1))
                  out x in
              let (rest, (l, x2)) =
                bound (spare_loop env count p s slot taken words more)
                  (λ o. ok (put_row q.name row' ∷ o.0, o.1)) out x1 in
              subst (λ o. All (Own slot.machine s) o.0) (ok-inj x2)
                (
                  own_row slot.machine s q.name row row' absent
                      (spare_fields q.name slot.host_alias slot.machine).0
                      (spare_fields q.name slot.host_alias slot.machine).1 c,
                  later more rest l,
                ))
          where
            absent : lookup q.name s.rows ≡ none
            absent = lookup-none q.name s.rows (λ m.
                (pick-Free (spare_request env p names s slot (taken ++ added) words) q e).not_held
                  (In-append_left q.name taken added (covers q.name m)))

    pub spare_writes-Own :
        (s : Snapshot) (slot : Slot) (taken : List String) (words : Option (List String))
        (out : List Write × List String)
        → ((token : String) → In token (keys s.rows) → In token taken)
        → spare_writes env s slot taken words ≡ ok out
        → All (Own slot.machine s) out.0
    unfolding spare_writes
    spare_writes-Own s slot taken words out covers h =
        (let (p, (e, x)) = bound (policy s) _ out h in
          spare_loop-Own _ p s slot taken words [] out covers x)

    -- the request for a pick holds every name of the registry
    pub request-covers :
        (s : Snapshot) (slot : Slot) (spool : List (String × Dict)) (max_length : Option ℕ)
        (words : Option (List String)) (r : PickRequest)
        → pick_request env s slot spool max_length words ≡ ok r
        → (token : String) → In token (keys s.rows)
        → In token r.held
    unfolding pick_request held_tokens
    request-covers s slot spool max_length words r h token m =
        (let (p, (e, x)) = bound (policy s) _ r h in
          let (names, (g, y)) = bound (generated s) _ r x in
          subst (λ q. In token q.held) (ok-inj y)
            (In-append_left token (keys s.rows) (keys spool) m))

  -- all that an operation asks to be written is its machine's own
  abbrev pub OwnChange : {A : Type 0} → String → Snapshot → Outcome (Option (Change A)) → Type 0
  OwnChange machine s (err e) = Unit
  OwnChange machine s (ok none) = Unit
  OwnChange machine s (ok (some change)) = All (Own machine s) change.writes
