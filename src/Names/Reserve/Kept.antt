-- ===== src/Names/Reserve/Kept.antt =====
-- Reserving a name of src/ai_cli/name_registry.py takes nothing from anybody.
use ai_cli_utils.Prelude.{
  ℕ, ◌≡◌, refl, sym, ap, subst, inr, String, Bool, true, false, Option, none, some, List, [], ◌∷◌,
  In, All, is_some, some-inj, if◌then◌else◌,
}
use ai_cli_utils.Value.Dicts.{Dict}
use ai_cli_utils.Value.Files.{lookup}
use ai_cli_utils.Rows.{LabelRow, session_row, label_row}
use ai_cli_utils.Names.Segment.{last_segment}
use ai_cli_utils.Names.Pick.{tier_label, NamePick}
use ai_cli_utils.Names.Snapshot.{
  Snapshot, Policy, Outcome, ok, err, ◌>>=◌, Write, put_row, Change, policy, is_held, Verdict,
  hand_refused, held,
}
use ai_cli_utils.Names.Reserve.{
  Surroundings, Slot, Reservation, checked_row, pick_request, pick, spare_writes, row_for,
  reserve_picked, require_pick, title_for,
}
use ai_cli_utils.Names.ByHand.{
  reserve_hand_chosen, reserve_label, check_hand_chosen, verdict_in, verdict_unheld,
  admit_hand_chosen, manual_writes, label_row_for,
}
use ai_cli_utils.Names.Reserve.Own.{
  bound, ok-inj, lookup-none, Own, OwnRow, own_row, session_fields, label_fields, pick-Free,
  spare_writes-Own, request-covers,
}

pub not_held :
    (token : String) (s : Snapshot) → is_held token s ≡ false → lookup token s.rows ≡ none
unfolding is_held
not_held token s h = go (lookup token s.rows) h
  where
    go : (o : Option Dict) → is_some o ≡ false → o ≡ none
    go none e = refl
    go (some r) e = cc

module _ (env : Surroundings) where
  open env use {is_absolute, writer, now}

  pub require_pick-some :
      (o : Option NamePick) (p : NamePick) → require_pick env o ≡ ok p → o ≡ some p
  require_pick-some none p h = cc
  require_pick-some (some q) p h = ap some (ok-inj h)

  -- a name that is reserved by hand is not held
  admitted-not_held :
      (add : Bool) (name : String) (p q : Policy) (s : Snapshot) (slot : Slot) (words : List String)
      (added : Bool)
      → admit_hand_chosen env add name p (verdict_in env q s name slot words) ≡ ok added
      → is_held name s ≡ false
  admitted-not_held add name p q s slot words added h =
      go add (is_held name s) (verdict_unheld env q s name slot words) h
    where
      go :
          (a b : Bool) (v : Verdict)
          → admit_hand_chosen env a name p (if b then held else v) ≡ ok added
          → b ≡ false
      go false true v e = cc
      go true true v e = cc
      go a false v e = refl

  module _
      (chosen : (names : List String) (c : String) → In c names → In (env.choice names) names) where
    -- When a picked name is reserved, every row that is written is new: it stands under a token that
    -- the registry had no row for, names that token and the reserving machine, and is a row without
    -- a problem. No row is dropped. It is assumed that the random choice answers an element of a
    -- list that has one.
    pub reserve_picked-Own :
        (slot : Slot) (spool : List (String × Dict)) (max_length : Option ℕ)
        (words : Option (List String)) (s : Snapshot) (change : Change Reservation)
        → reserve_picked env slot spool max_length words s ≡ ok (some change)
        → All (Own env slot.machine s) change.writes
    unfolding reserve_picked
    reserve_picked-Own slot spool max_length words s change h =
        (let (request, (q, h1)) =
            bound (pick_request env s slot spool max_length words) _ (some change) h in
          let (p, (e, h2)) = bound (require_pick env (pick env request)) _ (some change) h1 in
          let r =
            row_for env slot p.name (title_for slot p.name) "picked"
              (some (tier_label env.decimal p.name p.tier)) in
          let (row, (c, h3)) =
            bound (checked_row env (session_row writer r now)) _ (some change) h2 in
          let (spares, (w, h4)) =
            bound (spare_writes env s slot (p.name ∷ request.held) words) _ (some change) h3 in
          let covers = request-covers env chosen s slot spool max_length words request q in
          let free = pick-Free env chosen request p (require_pick-some (pick env request) p e) in
          let absent = lookup-none p.name s.rows (λ m. free.not_held (covers p.name m)) in
          let mine =
            own_row env slot.machine s p.name (session_row writer r now) row absent
              (session_fields env r).0 (session_fields env r).1 c in
          let others =
            spare_writes-Own env chosen s slot (p.name ∷ request.held) words spares
              (λ token m. inr (covers token m)) w in
          subst (λ x. All (Own env slot.machine s) x.writes) (some-inj (ok-inj h4)) (mine, others))

  -- one row is written, under the token, before the other writes; it is the row that is answered,
  -- under the name that is answered, new and with the reserving machine, and has no problem
  pub record OneRow (machine token : String) (others : List Write) (s : Snapshot)
      (change : Change Reservation) : Type 0 where
    pub writes : change.writes ≡ put_row token change.result.row ∷ others
    pub named : change.result.name ≡ token
    pub own : OwnRow env machine s token change.result.row

  -- When a name chosen by hand is reserved, exactly one row is written, under that name: it is new,
  -- names the name and the reserving machine, is a row without a problem, and is what is answered.
  -- Besides it, the name is entered among the names added by hand if the answer says that it was
  -- added, and nothing else is written.
  pub reserve_hand_chosen-Own :
      (name : String) (slot : Slot) (add : Bool) (via by : String) (words : List String)
      (s : Snapshot) (change : Change Reservation)
      → reserve_hand_chosen env name slot add via by words s ≡ ok (some change)
      → OneRow slot.machine name
          (manual_writes env change.result.added_to_database name by via)
          s
          change
  unfolding reserve_hand_chosen check_hand_chosen
  reserve_hand_chosen-Own name slot add via by words s change h =
      (let (verdict, (v, h1)) = bound (check_hand_chosen env s name slot words) _ (some change) h in
        let (p, (e, h2)) = bound (policy s) _ (some change) h1 in
        let (added, (a, h3)) =
          bound (admit_hand_chosen env add name p verdict) _ (some change) h2 in
        let r =
          row_for env slot name (title_for slot name) (if added then "manual" else "custom") none in
        let (row, (c, h4)) =
          bound (checked_row env (session_row writer r now)) _ (some change) h3 in
        let (p', (e', v')) =
          bound (policy s) (λ q. ok (verdict_in env q s name slot words)) verdict v in
        let absent = not_held name s (
          admitted-not_held add name p p' s slot words added
            (subst (λ x. admit_hand_chosen env add name p x ≡ ok added) (ok-inj (sym v')) a)) in
        let mine =
          own_row env slot.machine s name (session_row writer r now) row absent
            (session_fields env r).0 (session_fields env r).1 c in
        subst
          (λ x.
            OneRow slot.machine name (manual_writes env x.result.added_to_database name by via) s x)
          (some-inj (ok-inj h4)) (record { writes = refl; named = refl; own = mine }))

  -- When a label is reserved, exactly one row is written and nothing else, under the label's last
  -- token: it is new, names that token and the reserving machine, is a row without a problem, and is
  -- what is answered.
  pub reserve_label-Own :
      (slot : Slot) (label : String) (s : Snapshot) (change : Change Reservation)
      → reserve_label env slot label s ≡ ok (some change)
      → OneRow slot.machine (last_segment label) [] s change
  unfolding reserve_label
  reserve_label-Own slot label s change h = go (is_held (last_segment label) s) refl h
    where
      r : LabelRow
      r = label_row_for env slot label

      built : Outcome (Option (Change Reservation))
      built = (do
        row ← checked_row env (label_row writer r now)
        ok (
            some (record {
              writes = put_row r.token row ∷ [];
              result = record {
                name = r.token;
                title = r.title;
                row = row;
                spares_added = [];
                added_to_database = false;
              };
            })))

      go :
          (b : Bool)
          → is_held r.token s ≡ b
          → (if b then err (hand_refused held) else built) ≡ ok (some change)
          → OneRow slot.machine r.token [] s change
      go true e x = cc
      go false e x =
          (let (row, (c, x1)) =
              bound (checked_row env (label_row writer r now)) _ (some change) x in
            let mine =
              own_row env slot.machine s r.token (label_row writer r now) row (not_held r.token s e)
                (label_fields env r).0 (label_fields env r).1 c in
            subst (λ y. OneRow slot.machine r.token [] s y) (some-inj (ok-inj x1))
              (record { writes = refl; named = refl; own = mine }))
