-- ===== src/Sessions/Marks/Fresh.antt =====
-- What `mark` of src/ai_cli/session_run_state.py accepts, and what it then leaves in the document.
use ai_cli_utils.Prelude.{
  ℕ, ◌<◌, ◌≡◌, refl, String, Bool, true, false, ◌&&◌, List, arith, leb, ◌==◌, if◌then◌else◌,
}
use ai_cli_utils.Value.{num, str, get}
use ai_cli_utils.Value.Dicts.{PyValue, Dict, get-put}
use ai_cli_utils.Value.Files.{lookup}
use ai_cli_utils.Sessions.Store.{
  stale_generation, stale_sequence, safety_veto, Result, ok, err, ◌>>=◌,
}
use ai_cli_utils.Sessions.Launch.{set_exit}
use ai_cli_utils.Sessions.Transitions.{sequence_of}
use ai_cli_utils.Sessions.Transitions.Found.{KeepsNames, get-set_exit}
use ai_cli_utils.Sessions.Marks.{
  Transition, tombstone_key, same_generation, wrong_generation, admit, stamped, running_record,
  settled_record,
}

-- the binding of a result, taken apart
pub bound :
    {A B : Type 0} (x : Result A) (f : A → Result B) (b : B)
    → (x >>= f) ≡ ok b
    → (a : A) × ((x ≡ ok a) × (f a ≡ ok b))
bound (ok a) f b h = (a, (refl, h))
bound (err e) f b h = cc

module _ (digest : String → String → String) (text_of : PyValue → String) (t : Transition) where
  -- a record for which the transition is neither of another generation nor late, nor vetoed
  pub record Admitted (files : List (String × Dict)) (r : Dict) : Type 0 where
    pub generation : wrong_generation digest text_of t.generation r ≡ false
    pub last : ℕ
    pub is_last : sequence_of r ≡ ok last
    pub later : last < t.sequence
    pub not_vetoed :
        (t.state == "running")
          && same_generation digest text_of (lookup (tombstone_key digest text_of t.name r) files) r
        ≡ false

  pub admit-Admitted :
      (files : List (String × Dict)) (r : Dict)
      → admit digest text_of t files r ≡ ok tt
      → Admitted files r
  unfolding admit
  admit-Admitted files r h = go (wrong_generation digest text_of t.generation r) refl h
    where
      rest :
          (last : ℕ) (late veto : Bool)
          → leb t.sequence last ≡ late
          → ◌≡◌ {A = Result (Unit {0})}
              (if late then err stale_sequence else if veto then err safety_veto else ok tt)
              (ok tt)
          → (last < t.sequence) × (veto ≡ false)
      rest last late veto e x = ground arith

      go :
          (b : Bool)
          → wrong_generation digest text_of t.generation r ≡ b
          → ◌≡◌ {A = Result (Unit {0})}
              (if b then err stale_generation else (do
                seq ← sequence_of r
                if leb t.sequence seq
                    then err stale_sequence
                    else if (t.state == "running")
                        && same_generation digest text_of
                            (lookup (tombstone_key digest text_of t.name r) files)
                            r
                    then err safety_veto
                    else ok tt))
              (ok tt)
          → Admitted files r
      go true e x = cc
      go false e x =
          (let (last, (is_last, y)) = bound (sequence_of r) _ tt x in
            let (later, veto) = rest last _ _ refl y in
            record {
              generation = e;
              last = last;
              is_last = is_last;
              later = later;
              not_vetoed = veto;
            })

  -- the record that is left carries the transition
  pub record Carries (r : Dict) : Type 0 where
    pub state : get "run_state" r ≡ str t.state
    pub stamp : get "changed_at" r ≡ str t.now
    pub sequence : get "transition_seq" r ≡ num t.sequence

  pub stamped-KeepsNames : KeepsNames (stamped digest text_of t)
  stamped-KeepsNames r = (simp get-put, simp get-put)

  pub running-KeepsNames :
      KeepsNames (λ x. running_record digest text_of t (stamped digest text_of t x))
  running-KeepsNames r = (simp get-put, simp get-put)

  pub settled-KeepsNames : KeepsNames (settled_record digest text_of t)
  settled-KeepsNames r = (simp get-put, simp get-put)

  pub stamped-Carries : (r : Dict) → Carries (stamped digest text_of t r)
  stamped-Carries r = record { state = simp get-put; stamp = simp get-put; sequence = simp get-put }

  pub running-Carries :
      (r : Dict) → Carries (running_record digest text_of t (stamped digest text_of t r))
  running-Carries r = record { state = simp get-put; stamp = simp get-put; sequence = simp get-put }

  pub settled-Carries : (r : Dict) → Carries r → Carries (settled_record digest text_of t r)
  settled-Carries r c = record {
    state = simp (get-put, c.state);
    stamp = simp (get-put, c.stamp);
    sequence = simp (get-put, c.sequence);
  }

  pub exited-Carries :
      (cause stamp : String) (evidence : PyValue) (r : Dict)
      → Carries r
      → Carries (set_exit cause stamp evidence r)
  exited-Carries cause stamp evidence r c = record {
    state = simp (get-set_exit, c.state);
    stamp = simp (get-set_exit, c.stamp);
    sequence = simp (get-set_exit, c.sequence);
  }
