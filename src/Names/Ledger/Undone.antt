-- ===== src/Names/Ledger/Undone.antt =====
-- Renames of src/ai_cli/name_registry.py that fail leave the registry as it was.
use ai_cli_utils.Prelude.{
  ℕ, ◌≡◌, refl, subst, String, Option, none, some, List, [], ◌∷◌, In, arith, ◌==◌, eq_iff, eq_refl,
  some-inj, if◌then◌else◌,
}
use ai_cli_utils.Value.Dicts.{Dict, value_eq}
use ai_cli_utils.Value.Files.{
  lookup, lookup-store_file, lookup-store_file_self, lookup-unlink, store_file, unlink,
}
use ai_cli_utils.Rows.{session_row}
use ai_cli_utils.Names.Snapshot.{
  Snapshot, ok, Write, put_row, drop_row, put_entry, drop_entry, migration_shelf, Change,
  apply_writes,
}
use ai_cli_utils.Names.Reserve.{Surroundings, Slot, Reservation, title_for, row_for, checked_row}
use ai_cli_utils.Names.Reserve.Own.{bound, ok-inj, checked_row-valid}
use ai_cli_utils.Names.Ledger.{
  migration_record, choose_name, reserve_for_migration, release_failed_migration,
}
use ai_cli_utils.Names.Ledger.Chosen.{Chosen, choose_name-Chosen, last_segment-title_for}

abbrev undoing : String → String → Change (Unit {0})
undoing old_title name = record {
  writes = drop_entry migration_shelf old_title ∷ drop_row name ∷ [];
  result = tt;
}

-- the row that was new is gone, and no other is touched
unlink-store_file :
    (token name : String) (row : Dict) (rows : List (String × Dict))
    → lookup name rows ≡ none
    → lookup token (unlink name (store_file name row rows)) ≡ lookup token rows
unlink-store_file token name row rows h = ground (
  arith,
  lookup-unlink token name (store_file name row rows),
  lookup-store_file token name row rows,
  eq_iff name token,
  h,
)

unlink-store_file_gone :
    (title old : String) (entry : Dict) (entries : List (String × Dict))
    → lookup title (unlink old (store_file old entry entries))
      ≡ (if old == title then none else lookup title entries)
unlink-store_file_gone title old entry entries = ground (
  arith,
  lookup-unlink title old (store_file old entry entries),
  lookup-store_file title old entry entries,
  eq_iff old title,
)

module _ (env : Surroundings) where
  open env use {writer, now}

  abbrev reserved : Slot → String → String → Option String → Snapshot → Snapshot
  reserved slot old_title name tier s =
      apply_writes
        (put_row name
            (session_row writer (row_for env slot name (title_for slot name) "migrated" tier) now)
          ∷ put_entry migration_shelf old_title
              (migration_record env old_title (title_for slot name) slot.machine slot.client)
          ∷ [])
        s

  releases :
      (slot : Slot) (old_title name : String) (tier : Option String) (s : Snapshot)
      → Chosen s name
      → release_failed_migration env old_title slot.machine (reserved slot old_title name tier s)
        ≡ ok (some (undoing old_title name))
  unfolding release_failed_migration migration_record session_row apply_writes value_eq
  releases slot old_title name tier s c = rw (
    lookup-store_file_self old_title
        (migration_record env old_title (title_for slot name) slot.machine slot.client)
        s.migrations,
    eq_refl slot.machine,
    last_segment-title_for slot name c.token,
    lookup-store_file_self name
        (session_row writer (row_for env slot name (title_for slot name) "migrated" tier) now)
        s.rows,
    eq_refl (title_for slot name),
    eq_refl slot.machine,
  )

  -- the failed rename of `old_title` can be released in `left`, and then the registry is as in `s`
  pub record Undone (old_title machine : String) (s left : Snapshot) : Type 0 where
    pub undo : Change (Unit {0})
    pub released : release_failed_migration env old_title machine left ≡ ok (some undo)
    pub rows_back :
        (token : String) → lookup token (apply_writes undo.writes left).rows ≡ lookup token s.rows
    pub manual_back : (apply_writes undo.writes left).manual ≡ s.manual
    pub record_gone :
        (title : String)
        → lookup title (apply_writes undo.writes left).migrations
          ≡ (if old_title == title then none else lookup title s.migrations)

  undone :
      (slot : Slot) (old_title name : String) (tier : Option String) (s : Snapshot)
      → Chosen s name
      → Undone old_title slot.machine s (reserved slot old_title name tier s)
  unfolding apply_writes
  undone slot old_title name tier s c = record {
    undo = undoing old_title name;
    released = releases slot old_title name tier s c;
    rows_back = λ token.
        unlink-store_file token name
          (session_row writer (row_for env slot name (title_for slot name) "migrated" tier) now)
          s.rows c.absent;
    manual_back = refl;
    record_gone = λ title.
        unlink-store_file_gone title old_title
          (migration_record env old_title (title_for slot name) slot.machine slot.client)
          s.migrations;
  }

  module _
      (chosen : (names : List String) (c : String) → In c names → In (env.choice names) names) where
    -- When the rename of a session is reserved and then fails, the machine can release it: its
    -- release is not refused, and afterwards every row and every name added by hand is as it was
    -- before the reservation, and so is every recorded rename, save that none is recorded of the
    -- old title. It is assumed that the random choice answers an element of a list that has one.
    pub reserve_for_migration-Undone :
        (slot : Slot) (old_title : String) (name : Option String) (max_length : Option ℕ)
        (words : List String) (s : Snapshot) (change : Change Reservation)
        → reserve_for_migration env slot old_title name max_length words s ≡ ok (some change)
        → Undone old_title slot.machine s (apply_writes change.writes s)
    unfolding reserve_for_migration
    reserve_for_migration-Undone slot old_title name max_length words s change h =
        (let (c, (e, h1)) =
            bound (choose_name env slot name max_length words s) _ (some change) h in
          let r = row_for env slot c.0 (title_for slot c.0) "migrated" c.1 in
          let (row, (k, h2)) =
            bound (checked_row env (session_row writer r now)) _ (some change) h1 in
          let entry =
            migration_record env old_title (title_for slot c.0) slot.machine slot.client in
          let writes : Dict → List Write =
            λ x. put_row c.0 x ∷ put_entry migration_shelf old_title entry ∷ [] in
          let built =
            undone slot old_title c.0 c.1 s
              (choose_name-Chosen env chosen slot name max_length words s c e) in
          let same =
            subst (λ x. Undone old_title slot.machine s (apply_writes (writes x) s))
              (checked_row-valid env (session_row writer r now) row k).0 built in
          subst (λ x. Undone old_title slot.machine s (apply_writes x.writes s))
            (some-inj (ok-inj h2)) same)
