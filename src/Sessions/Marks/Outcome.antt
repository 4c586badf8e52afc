-- ===== src/Sessions/Marks/Outcome.antt =====
-- What a call of `mark` of src/ai_cli/session_run_state.py leaves on disk.
use ai_cli_utils.Prelude.{
  ◌≡◌, refl, sym, ap, ◌∙◌, subst, ◌⊎◌, inl, inr, String, Bool, true, false, not, ◌||◌, Option, none,
  some, ◌==◌, if◌then◌else◌,
}
use ai_cli_utils.Value.Dicts.{PyValue, Dict}
use ai_cli_utils.Value.Files.{lookup, store_file, lookup-unlink_self, lookup-store_file_self}
use ai_cli_utils.Sessions.Store.{
  Doc, Result, ok, err, Store, Write, written, failed_early, failed_late, bump, commit, mutate,
  raise_failure,
}
use ai_cli_utils.Sessions.Launch.{known_cause}
use ai_cli_utils.Sessions.Transitions.{find_session}
use ai_cli_utils.Sessions.Marks.{
  Storage, Transition, tombstone_key, safety_file, clear_file, done, on_disk, fallback,
  clear_safety, on_failure, mark_with, succeeded, known_state, mark, mark_change,
}
use ai_cli_utils.Sessions.Marks.Fresh.{Admitted}
use ai_cli_utils.Sessions.Marks.Accepted.{Leaves, mark_change-Left}

absurd_bool : {A : Type 0} → true ≡ false → A
absurd_bool h = cc

module _ (digest : String → String → String) (text_of : PyValue → String) (t : Transition) where
  -- the registry holds the new document, and a start leaves no safety file of the name; or the write
  -- of an exit failed, and the safety file holds the accepted record
  abbrev pub Recorded : Dict × Doc → Store → Type 0
  Recorded p s =
      ((s.doc ≡ bump true p.1)
        × ((t.state == "running") ≡ true
            → lookup (tombstone_key digest text_of t.name p.0) s.tombstones ≡ none))
      ⊎ (((t.state == "exited") ≡ true)
          × (lookup (tombstone_key digest text_of t.name p.0) s.tombstones
              ≡ some (safety_file digest text_of t p.0)))

  abbrev Success : Result (Unit {0}) × Store → Store → Type 0
  Success x s = succeeded digest text_of x ≡ (true, s)

  cleared :
      (w : Write) (k : String) (file : Option Dict) (s s' : Store)
      → lookup k s.tombstones ≡ file
      → succeeded digest text_of (clear_file digest text_of w k file s) ≡ (true, s')
      → (s'.doc ≡ s.doc) × (lookup k s'.tombstones ≡ none)
  cleared w k none s s' e x =
      (ap (λ p. p.1.doc) (sym x), subst (λ z. lookup k z.tombstones ≡ none) (ap (λ p. p.1) x) e)
  cleared written k (some d) s s' e x = (
    ap (λ p. p.1.doc) (sym x),
    subst (λ z. lookup k z.tombstones ≡ none) (ap (λ p. p.1) x) (lookup-unlink_self k s.tombstones),
  )
  cleared failed_early k (some d) s s' e x = absurd_bool (sym (ap (λ q. q.0) x))
  cleared failed_late k (some d) s s' e x = absurd_bool (sym (ap (λ q. q.0) x))

  after_write :
      (io : Storage) (p : Dict × Doc) (s s' : Store)
      → Success (clear_safety digest text_of t io.safety_cleared p.0 s) s'
      → s.doc ≡ bump true p.1
      → Recorded p s'
  unfolding clear_safety
  after_write io p s s' h d = go (t.state == "running") refl h
    where
      k : String
      k = tombstone_key digest text_of t.name p.0

      go :
          (b : Bool)
          → (t.state == "running") ≡ b
          → Success
              (if b
                then clear_file digest text_of io.safety_cleared k (lookup k s.tombstones) s
                else (ok tt, s))
              s'
          → Recorded p s'
      go true e x =
          (let (same, gone) = cleared io.safety_cleared k (lookup k s.tombstones) s s' refl x in
            inl (same ∙ d, λ u. gone))
      go false e x =
          inl (subst (λ z. z.doc ≡ bump true p.1) (ap (λ q. q.1) x) d, λ u. absurd_bool (sym u ∙ e))

  after_failure :
      (io : Storage) (p : Dict × Doc) (doc : Doc) (s s' : Store)
      → Success (on_failure digest text_of t io p.0 doc s) s'
      → Recorded p s'
  unfolding fallback
  after_failure io p doc s s' h = go (t.state == "exited") refl io.safety_stored h
    where
      k : String
      k = tombstone_key digest text_of t.name p.0

      file : Dict
      file = safety_file digest text_of t p.0

      ending : Write → Result (Unit {0}) × Store
      ending w = (
        done digest text_of w,
        record s {
          tombstones = on_disk digest text_of w s.tombstones (store_file k file s.tombstones);
        },
      )

      go :
          (b : Bool)
          → (t.state == "exited") ≡ b
          → (w : Write) → Success (if b then ending w else raise_failure doc s) s'
          → Recorded p s'
      go true e written x = inr (
        e,
        subst (λ z. lookup k z.tombstones ≡ some file) (ap (λ q. q.1) x)
            (lookup-store_file_self k file s.tombstones),
      )
      go true e failed_early x = absurd_bool (sym (ap (λ q. q.0) x))
      go true e failed_late x = absurd_bool (sym (ap (λ q. q.0) x))
      go false e w x = absurd_bool (sym (ap (λ q. q.0) x))

  recorded :
      (io : Storage) (p : Dict × Doc) (s s' : Store)
      → Success (mark_with digest text_of t io (ok p) s) s'
      → Recorded p s'
  unfolding mutate
  recorded io p s s' h = go io.registry h
    where
      go :
          (w : Write)
          → Success
              (commit true w
                (on_failure digest text_of t io p.0)
                (clear_safety digest text_of t io.safety_cleared p.0)
                (ok (true, p.1))
                s)
              s'
          → Recorded p s'
      go written x = after_write io p (record s { doc = bump true p.1 }) s' x refl
      go failed_early x = after_failure io p (bump true p.1) s s' x
      go failed_late x = after_failure io p (bump true p.1) (record s { doc = bump true p.1 }) s' x

  -- A call of `mark` that answers True was for a registered record which admits the transition, and
  -- what it leaves carries it: either the registry holds the new document, in which the name finds
  -- the accepted record, with no safety file if the session starts, or the write of an exit failed
  -- and the safety file of the name denies the boot and holds that record.
  pub mark-Recorded :
      (io : Storage) (s s' : Store)
      → mark digest text_of t io s ≡ (true, s')
      → (r : Dict) × ((find_session t.name s.doc.sessions ≡ ok r)
          × (Admitted digest text_of t s.tombstones r
              × ((p : Dict × Doc) × (Leaves digest text_of t p × Recorded p s'))))
  unfolding mark
  mark-Recorded io s s' h =
      go (not (known_state digest text_of t.state) || not (known_cause t.exit_cause)) h
    where
      accepted :
          (x : Result (Dict × Doc))
          → mark_change digest text_of t s.tombstones s.doc ≡ x
          → Success (mark_with digest text_of t io x s) s'
          → (r : Dict) × ((find_session t.name s.doc.sessions ≡ ok r)
              × (Admitted digest text_of t s.tombstones r
                  × ((p : Dict × Doc) × (Leaves digest text_of t p × Recorded p s'))))
      accepted (ok p) e x =
          (let (r, (f, (a, l))) = mark_change-Left digest text_of t s.tombstones s.doc p e in
            (r, (f, (a, (p, (l, recorded io p s s' x))))))
      accepted (err e) u x = absurd_bool (sym (ap (λ q. q.0) x))

      go :
          (b : Bool)
          → ◌≡◌ {A = Bool × Store}
              (if b
                then (false, s)
                else succeeded digest text_of (
                    mark_with digest text_of t io
                      (mark_change digest text_of t s.tombstones s.doc)
                      s))
              (true, s')
          → (r : Dict) × ((find_session t.name s.doc.sessions ≡ ok r)
              × (Admitted digest text_of t s.tombstones r
                  × ((p : Dict × Doc) × (Leaves digest text_of t p × Recorded p s'))))
      go true x = absurd_bool (sym (ap (λ q. q.0) x))
      go false x = accepted _ refl x
