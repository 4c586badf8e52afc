-- ===== src/Sessions/Marks/Replay.antt =====
-- Transitions that `mark` of src/ai_cli/session_run_state.py refuses.
use ai_cli_utils.Prelude.{
  ℕ, ◌≤◌, ◌≡◌, refl, sym, ◌∙◌, inl, inr, String, Bool, true, false, not, ◌&&◌, ◌||◌, Option, some,
  List, arith, leb, ◌==◌, eq_iff, if◌then◌else◌,
}
use ai_cli_utils.Value.{null, num, or_else, find}
use ai_cli_utils.Value.Dicts.{PyValue, Dict}
use ai_cli_utils.Value.Files.{lookup}
use ai_cli_utils.Sessions.Store.{
  Result, ok, err, ◌>>=◌, Refusal, stale_generation, stale_sequence, safety_veto, Store, Doc,
}
use ai_cli_utils.Sessions.Launch.{known_cause}
use ai_cli_utils.Sessions.Transitions.{find_session, sequence_of, number}
use ai_cli_utils.Sessions.Marks.{
  Storage, Transition, tombstone_key, same_generation, wrong_generation, admit, mark_change,
  mark_with, succeeded, known_state, mark,
}
use ai_cli_utils.Sessions.Marks.Fresh.{Carries}
use ai_cli_utils.Sessions.Marks.Outcome.{mark-Recorded, Recorded}
use ai_cli_utils.Sessions.Marks.Accepted.{Leaves}

module _ (digest : String → String → String) (text_of : PyValue → String) (t : Transition) where
  Refused : {A : Type 0} → Result A → Type 0
  Refused x = (e : Refusal) × (x ≡ err e)

  admit-late :
      (files : List (String × Dict)) (r : Dict) (n : ℕ)
      → sequence_of r ≡ ok n
      → t.sequence ≤ n
      → Refused (admit digest text_of t files r)
  unfolding admit Refused
  admit-late files r n h le = go (wrong_generation digest text_of t.generation r) (
      t.state == "running"
      && same_generation digest text_of (lookup (tombstone_key digest text_of t.name r) files) r)
    where
      late : leb t.sequence n ≡ true
      late = ground arith

      go :
          (b v : Bool)
          → Refused {A = Unit {0}} (
              if b then err stale_generation else (do
                seq ← sequence_of r
                if leb t.sequence seq
                    then err stale_sequence
                    else if v
                    then err safety_veto
                    else ok tt))
      go true v = (stale_generation, refl)
      go false v = (stale_sequence, rw (h, late))

  mark_change-late :
      (files : List (String × Dict)) (doc : Doc) (r : Dict) (n : ℕ)
      → find_session t.name doc.sessions ≡ ok r
      → sequence_of r ≡ ok n
      → t.sequence ≤ n
      → Refused (mark_change digest text_of t files doc)
  unfolding mark_change Refused
  mark_change-late files doc r n f h le = (let (e, p) = admit-late files r n h le in (e, rw (f, p)))

  mark-Refused :
      (io : Storage) (s : Store)
      → Refused (mark_change digest text_of t s.tombstones s.doc)
      → mark digest text_of t io s ≡ (false, s)
  unfolding mark Refused
  mark-Refused io s (e, p) =
      go (not (known_state digest text_of t.state) || not (known_cause t.exit_cause))
    where
      go :
          (b : Bool)
          → ◌≡◌ {A = Bool × Store}
              (if b
                then (false, s)
                else succeeded digest text_of (
                    mark_with digest text_of t io
                      (mark_change digest text_of t s.tombstones s.doc)
                      s))
              (false, s)
      go true = refl
      go false = rw p

  -- A transition whose sequence number is not above that of the registered record is refused, and
  -- nothing changes on disk.
  pub mark-late :
      (io : Storage) (s : Store) (r : Dict) (n : ℕ)
      → find_session t.name s.doc.sessions ≡ ok r
      → sequence_of r ≡ ok n
      → t.sequence ≤ n
      → mark digest text_of t io s ≡ (false, s)
  mark-late io s r n f h le = mark-Refused io s (mark_change-late s.tombstones s.doc r n f h le)

Carries-sequence :
    (digest : String → String → String) (text_of : PyValue → String) (t : Transition) (r : Dict)
    → Carries digest text_of t r
    → sequence_of r ≡ ok t.sequence
Carries-sequence digest text_of t r c = go (find "transition_seq" r) c.sequence
  where
    go :
        (o : Option PyValue)
        → or_else o null ≡ num t.sequence
        → number (or_else o (num 0)) ≡ ok t.sequence
    go (some v) e = rw e
    go Option.none e = cc

apart : {A : Type 0} (s : String) → (s == "running") ≡ true → (s == "exited") ≡ true → A
apart s a b = cc (sym ((eq_iff s "running").0 a) ∙ (eq_iff s "exited").0 b)

module _ (digest : String → String → String) (text_of : PyValue → String) where
  -- After a start that `mark` recorded, no transition of the same session with the same or an earlier
  -- sequence number is recorded, whatever it asks for: it changes nothing on disk.
  pub mark-replayed :
      (t late : Transition) (io io' : Storage) (s s' : Store)
      → (t.state == "running") ≡ true
      → mark digest text_of t io s ≡ (true, s')
      → late.name ≡ t.name
      → late.sequence ≤ t.sequence
      → mark digest text_of late io' s' ≡ (false, s')
  mark-replayed t late io io' s s' start h same le =
      (let (r, (f, (a, (p, (l, w))))) = mark-Recorded digest text_of t io s s' h in
        mark-late digest text_of late io' s' p.0 t.sequence (found p l w)
          (Carries-sequence digest text_of t p.0 l.0) le)
    where
      found :
          (p : Dict × Doc)
          → Leaves digest text_of t p
          → Recorded digest text_of t p s'
          → find_session late.name s'.doc.sessions ≡ ok p.0
      found p l (inl w) = rw (same, w.0, l.1)
      found p l (inr w) = apart t.state start w.0
