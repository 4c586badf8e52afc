-- ===== src/Sessions/Marks.antt =====
-- `mark` and `reconcile_safety` of src/ai_cli/session_run_state.py.
pub mod Fresh
pub mod Accepted
pub mod Outcome
pub mod Replay
use ai_cli_utils.Prelude.{
  ℕ, String, Bool, true, false, not, ◌&&◌, ◌||◌, Option, none, some, List, [], ◌∷◌, leb, ltb, ◌==◌,
  if◌then◌else◌,
}
use ai_cli_utils.Value.{null, bool, num, str, obj, end, field, get, get_or, put, update, is_text}
use ai_cli_utils.Value.Dicts.{PyValue, Dict, value_eq}
use ai_cli_utils.Value.Files.{lookup, store_file, unlink}
use ai_cli_utils.Sessions.Store.{
  Doc, stale_generation, stale_sequence, safety_veto, storage_error, type_error, Result, ok, err,
  ◌>>=◌, Store, Write, written, failed_early, failed_late, mutate, raise_failure, nothing_after,
}
use ai_cli_utils.Sessions.Launch.{known_cause, record_exit}
use ai_cli_utils.Sessions.Transitions.{find_session, modify, with_sessions, number, sequence_of}

-- What the storage does while a transition is written: the registry file, the safety file and its
-- removal. The directory is synced last, so each may fail with its effect in place.
pub record Storage : Type 0 where
  pub registry : Write
  pub safety_stored : Write
  pub safety_cleared : Write

pub record Transition : Type 0 where
  pub name : String
  pub state : String
  pub exit_cause : String
  pub evidence : PyValue
  pub generation : Option String
  pub sequence : ℕ
  pub now : String
  pub boot_id : PyValue

-- `tombstone_path`: the digest of the host and the name; `text_of` is `str()`
module _ (digest : String → String → String) (text_of : PyValue → String) where
  abbrev pub tombstone_key : String → Dict → String
  tombstone_key name r = digest (text_of (get_or "owning_host" (str "") r)) name

  abbrev pub same_generation : Option Dict → Dict → Bool
  same_generation none r = false
  same_generation (some file) r = value_eq (get "generation" file) (get "generation" r)

  abbrev pub wrong_generation : Option String → Dict → Bool
  wrong_generation none r = false
  wrong_generation (some g) r = not (is_text (get "generation" r) g)

  -- the three refusals of `change`, in their order
  unfoldable pub admit : Transition → List (String × Dict) → Dict → Result (Unit {0})
  admit t files r = if wrong_generation t.generation r then err stale_generation else (do
    seq ← sequence_of r
    if leb t.sequence seq
        then err stale_sequence
        else if t.state == "running" && same_generation (lookup (tombstone_key t.name r) files) r
        then err safety_veto
        else ok tt)

  -- `record.update(run_state=…, changed_at=…, transition_seq=…)`
  abbrev pub stamped : Transition → Dict → Dict
  stamped t r =
      put "transition_seq" (num t.sequence)
        (put "changed_at" (str t.now) (put "run_state" (str t.state) r))

  -- `record.update(exit=None, ended_at=None, supervisor_exit=None, boot_id=…)`
  abbrev pub running_record : Transition → Dict → Dict
  running_record t r =
      put "boot_id" t.boot_id (put "supervisor_exit" null (put "ended_at" null (put "exit" null r)))

  abbrev pub settled_record : Transition → Dict → Dict
  settled_record t r = put "ended_at" (str t.now) (put "supervisor_exit" (get "exit" r) r)

  abbrev pub id_of : PyValue → Result String
  id_of (str id) = ok id
  id_of _ = err type_error

  unfoldable pub apply_state : Transition → Dict → List Dict → Doc → Result (Dict × Doc)
  unfolding modify record_exit find_session
  apply_state t r rs doc =
      if t.state == "running"
      then (let sessions = modify t.name (λ x. running_record t (stamped t x)) rs in
          ok (running_record t (stamped t r), with_sessions doc sessions))
      else (do
        id ← id_of (get "id" r)
        marked ←
            record_exit id t.exit_cause t.now t.evidence
              (with_sessions doc (modify t.name (stamped t) rs))
        exited ← find_session t.name marked.1.sessions
        ok (
          settled_record t exited,
          with_sessions doc (modify t.name (settled_record t) marked.1.sessions),
        ))

  -- `change` of `mark`: the accepted record beside the document
  unfoldable pub mark_change : Transition → List (String × Dict) → Doc → Result (Dict × Doc)
  unfolding find_session admit apply_state
  mark_change t files doc = do
    r ← find_session t.name doc.sessions
    admitted ← admit t files r
    apply_state t r doc.sessions doc

  abbrev pub safety_file : Transition → Dict → Dict
  safety_file t accepted = field "name" (str t.name) (
      field "generation" (get "generation" accepted)
        (field "deny_boot" (bool true) (field "record" (obj accepted) end)))

  abbrev pub done : Write → Result (Unit {0})
  done written = ok tt
  done failed_early = err storage_error
  done failed_late = err storage_error

  abbrev pub on_disk {ℓ} : {A : Type ℓ} → Write → A → A → A
  on_disk written old new = new
  on_disk failed_early old new = old
  on_disk failed_late old new = new

  -- `fallback`
  unfoldable pub fallback : Transition → Write → Dict → Store → Result (Unit {0}) × Store
  fallback t w accepted s = (
    done w,
    record s {
      tombstones =
          on_disk w s.tombstones
            (store_file (tombstone_key t.name accepted) (safety_file t accepted) s.tombstones);
    },
  )

  -- `clear_safety`: an unlink that fails raises, and so does a sync of the directory
  abbrev pub clear_file : Write → String → Option Dict → Store → Result (Unit {0}) × Store
  clear_file w k none s = (ok tt, s)
  clear_file w k (some _) s =
      (done w, record s { tombstones = on_disk w s.tombstones (unlink k s.tombstones) })

  unfoldable pub clear_safety : Transition → Write → Dict → Store → Result (Unit {0}) × Store
  clear_safety t cleared accepted s =
      if t.state == "running"
      then (let k = tombstone_key t.name accepted in clear_file cleared k (lookup k s.tombstones) s)
      else (ok tt, s)

  abbrev pub on_failure : Transition → Storage → Dict → Doc → Store → Result (Unit {0}) × Store
  on_failure t io accepted doc s =
      if t.state == "exited" then fallback t io.safety_stored accepted s else raise_failure doc s

  abbrev pub mark_with :
      Transition → Storage → Result (Dict × Doc) → Store → Result (Unit {0}) × Store
  mark_with t io (err e) s = (err e, s)
  mark_with t io (ok (accepted, doc)) s =
      mutate true io.registry (on_failure t io accepted) (clear_safety t io.safety_cleared accepted)
        (λ _. ok (true, doc)) s

  abbrev pub succeeded : Result (Unit {0}) × Store → Bool × Store
  succeeded (ok _, s) = (true, s)
  succeeded (err _, s) = (false, s)

  abbrev pub known_state : String → Bool
  known_state state = state == "running" || state == "exited"

  -- `mark`: whatever is raised is logged, and the answer is False
  unfoldable pub mark : Transition → Storage → Store → Bool × Store
  unfolding mark_change fallback clear_safety mutate
  mark t io s =
      if not (known_state t.state) || not (known_cause t.exit_cause)
      then (false, s)
      else succeeded (mark_with t io (mark_change t s.tombstones s.doc) s)

  -- one record of the loop of `reconcile_safety`
  abbrev pub saved_record : PyValue → Result Dict
  saved_record (obj saved) = ok saved
  saved_record _ = err type_error

  unfoldable pub newer : Dict → Dict → Result Bool
  newer saved r =
      if value_eq (get "generation" saved) (get "generation" r)
      then (do a ← sequence_of saved; b ← sequence_of r; ok (ltb b a))
      else ok false

  abbrev pub recovered : Bool → Dict → Dict → Bool × Dict
  recovered true saved r = (true, update r saved)
  recovered false saved r = (false, r)

  abbrev pub reconcile_file : Option Dict → Dict → Result (Bool × Dict)
  reconcile_file none r = ok (false, r)
  reconcile_file (some file) r = (do
    saved ← saved_record (get_or "record" (obj end) file)
    replace ← newer saved r
    ok (recovered replace saved r))

  unfoldable pub reconcile_record : List (String × Dict) → Dict → Result (Bool × Dict)
  unfolding newer
  reconcile_record files r =
      if is_text (get "kind" r) "local"
      then reconcile_file (lookup (tombstone_key (text_of (get "name" r)) r) files) r
      else ok (false, r)

  unfoldable pub reconcile_all : List (String × Dict) → List Dict → Result (Bool × List Dict)
  unfolding reconcile_record
  reconcile_all files [] = ok (false, [])
  reconcile_all files (r ∷ rs) = do
    head ← reconcile_record files r
    tail ← reconcile_all files rs
    ok (head.0 || tail.0, head.1 ∷ tail.1)

  unfoldable pub reconcile_safety : Write → Store → Result (Unit {0}) × Store
  unfolding reconcile_all mutate
  reconcile_safety w s =
      mutate true w raise_failure nothing_after
        (λ doc. do r ← reconcile_all s.tombstones doc.sessions; ok (r.0, with_sessions doc r.1)) s
