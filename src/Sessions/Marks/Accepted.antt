-- ===== src/Sessions/Marks/Accepted.antt =====
-- The document that an accepted transition of `mark` leaves: src/ai_cli/session_run_state.py.
use ai_cli_utils.Prelude.{
  ◌≡◌, refl, sym, subst, ◌⊎◌, inl, inr, String, Bool, true, false, List, ◌==◌, if◌then◌else◌,
}
use ai_cli_utils.Value.{get}
use ai_cli_utils.Value.Dicts.{PyValue, Dict}
use ai_cli_utils.Sessions.Store.{Doc, Result, ok, err, ◌>>=◌, invalid_cause}
use ai_cli_utils.Sessions.Launch.{known_cause, record_exit, exit_matching, set_exit}
use ai_cli_utils.Sessions.Transitions.{find_session, modify, with_sessions}
use ai_cli_utils.Sessions.Transitions.Found.{find-modify, find-exit_matching}
use ai_cli_utils.Sessions.Marks.{
  Transition, apply_state, mark_change, stamped, running_record, settled_record, id_of,
}
use ai_cli_utils.Sessions.Marks.Fresh.{
  bound, Admitted, admit-Admitted, Carries, stamped-KeepsNames, running-KeepsNames,
  settled-KeepsNames, stamped-Carries, running-Carries, settled-Carries, exited-Carries,
}

ok-inj : {A : Type 0} {a b : A} → ok a ≡ ok b → a ≡ b
ok-inj h = cc

record_exit-sessions :
    (key cause stamp : String) (evidence : PyValue) (doc : Doc) (marked : List Dict × Doc)
    → record_exit key cause stamp evidence doc ≡ ok marked
    → marked.1.sessions ≡ (exit_matching key cause stamp evidence doc.sessions).1
unfolding record_exit
record_exit-sessions key cause stamp evidence doc marked h = go (known_cause cause) h
  where
    go :
        (b : Bool)
        → (if b
            then ok (
              (exit_matching key cause stamp evidence doc.sessions).0,
              with_sessions doc (exit_matching key cause stamp evidence doc.sessions).1,
            )
            else err invalid_cause)
          ≡ ok marked
        → marked.1.sessions ≡ (exit_matching key cause stamp evidence doc.sessions).1
    go true e =
        (let p = ok-inj e in
          subst (λ m. m.1.sessions ≡ (exit_matching key cause stamp evidence doc.sessions).1) p
            refl)
    go false e = cc

module _ (digest : String → String → String) (text_of : PyValue → String) (t : Transition) where
  -- the record that is found afterwards is the accepted one, and it carries the transition
  abbrev pub Left : Dict → Doc → Type 0
  Left accepted doc =
      Carries digest text_of t accepted × (find_session t.name doc.sessions ≡ ok accepted)

  abbrev pub Leaves : Dict × Doc → Type 0
  Leaves p = Left p.0 p.1

  left_running :
      (doc : Doc) (r : Dict)
      → find_session t.name doc.sessions ≡ ok r
      → Leaves (
        running_record digest text_of t (stamped digest text_of t r),
        with_sessions doc (
            modify t.name
              (λ x. running_record digest text_of t (stamped digest text_of t x))
              doc.sessions),
      )
  left_running doc r f = (
    running-Carries digest text_of t r,
    find-modify t.name _ (running-KeepsNames digest text_of t) doc.sessions r f,
  )

  left_exited :
      (doc : Doc) (r : Dict) (id : String) (marked : List Dict × Doc) (exited : Dict)
      → find_session t.name doc.sessions ≡ ok r
      → record_exit id t.exit_cause t.now t.evidence
          (with_sessions doc (modify t.name (stamped digest text_of t) doc.sessions))
        ≡ ok marked
      → find_session t.name marked.1.sessions ≡ ok exited
      → Leaves (
        settled_record digest text_of t exited,
        with_sessions doc (modify t.name (settled_record digest text_of t) marked.1.sessions),
      )
  left_exited doc r id marked exited f e g = (
    settled-Carries digest text_of t exited carries,
    find-modify t.name _ (settled-KeepsNames digest text_of t) marked.1.sessions exited g,
  )
    where
      before : Dict
      before = stamped digest text_of t r

      sessions : List Dict
      sessions = modify t.name (stamped digest text_of t) doc.sessions

      go :
          (exited ≡ before) ⊎ (exited ≡ set_exit t.exit_cause t.now t.evidence before)
          → Carries digest text_of t exited
      go (inl p) = subst (Carries digest text_of t) (sym p) (stamped-Carries digest text_of t r)
      go (inr p) = subst (Carries digest text_of t) (sym p) (
          exited-Carries digest text_of t t.exit_cause t.now t.evidence before
            (stamped-Carries digest text_of t r))

      carries : Carries digest text_of t exited
      carries = go (
          find-exit_matching t.name id t.exit_cause t.now t.evidence sessions before exited
            (find-modify t.name _ (stamped-KeepsNames digest text_of t) doc.sessions r f)
            (subst (λ rs. find_session t.name rs ≡ ok exited)
              (record_exit-sessions id t.exit_cause t.now t.evidence (with_sessions doc sessions)
                marked e)
              g))

  apply_state-Left :
      (doc : Doc) (r : Dict) (p : Dict × Doc)
      → find_session t.name doc.sessions ≡ ok r
      → apply_state digest text_of t r doc.sessions doc ≡ ok p
      → Leaves p
  unfolding apply_state
  apply_state-Left doc r p f h = go (t.state == "running") h
    where
      after : List Dict × Doc → Dict → Dict × Doc
      after marked exited = (
        settled_record digest text_of t exited,
        with_sessions doc (modify t.name (settled_record digest text_of t) marked.1.sessions),
      )

      from_marked : List Dict × Doc → Result (Dict × Doc)
      from_marked marked = do
        exited ← find_session t.name marked.1.sessions
        ok (after marked exited)

      recorded : String → Result (List Dict × Doc)
      recorded id =
          record_exit id t.exit_cause t.now t.evidence
            (with_sessions doc (modify t.name (stamped digest text_of t) doc.sessions))

      from_id : String → Result (Dict × Doc)
      from_id id = do marked ← recorded id; from_marked marked

      ended : Result (Dict × Doc)
      ended = do id ← id_of digest text_of (get "id" r); from_id id

      begun : Dict × Doc
      begun = (
        running_record digest text_of t (stamped digest text_of t r),
        with_sessions doc (
            modify t.name (λ x. running_record digest text_of t (stamped digest text_of t x))
              doc.sessions),
      )

      go : (b : Bool) → (if b then ok begun else ended) ≡ ok p → Leaves p
      go true e = subst Leaves (ok-inj e) (left_running doc r f)
      go false e =
          (let (id, (i, e1)) = bound (id_of digest text_of (get "id" r)) from_id p e in
            let (marked, (m, e2)) = bound (recorded id) from_marked p e1 in
            let (exited, (x, e3)) =
              bound (find_session t.name marked.1.sessions) (λ y. ok (after marked y)) p e2 in
            subst Leaves {x = after marked exited} (ok-inj e3)
              (left_exited doc r id marked exited f m x))

  -- A transition that `mark` accepts is for a registered record of the generation it names, with a
  -- later sequence number than the record's and no safety file of that generation against a start;
  -- afterwards the name finds the accepted record, which carries the state, the stamp and the
  -- sequence number of the transition.
  pub mark_change-Left :
      (files : List (String × Dict)) (doc : Doc) (p : Dict × Doc)
      → mark_change digest text_of t files doc ≡ ok p
      → (r : Dict) × ((find_session t.name doc.sessions ≡ ok r)
          × (Admitted digest text_of t files r × Leaves p))
  unfolding mark_change
  mark_change-Left files doc p h =
      (let (r, (f, h1)) = bound _ _ p h in
        let (u, (a, h2)) = bound _ _ p h1 in
        (r, (f, (admit-Admitted digest text_of t files r a, apply_state-Left doc r p f h2))))
