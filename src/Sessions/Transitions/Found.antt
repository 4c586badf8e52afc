-- ===== src/Sessions/Transitions/Found.antt =====
-- What `_find` answers after a record is changed in its place, or exits are recorded.
use ai_cli_utils.Prelude.{◌≡◌, refl, ◌⊎◌, String, false, List, [], ◌∷◌, arith, ◌==◌}
use ai_cli_utils.Value.{get, put, str}
use ai_cli_utils.Value.Dicts.{PyValue, Dict, get-put}
use ai_cli_utils.Sessions.Store.{ok}
use ai_cli_utils.Sessions.Launch.{set_exit, exit_value, exit_matching}
use ai_cli_utils.Sessions.Transitions.{is_local_named, find_session, modify}

-- a change that leaves the record's kind and name
abbrev pub KeepsNames : (Dict → Dict) → Type 0
KeepsNames f = (r : Dict) → (get "kind" (f r) ≡ get "kind" r) × (get "name" (f r) ≡ get "name" r)

pub keeps_named :
    (name : String) (f : Dict → Dict)
    → KeepsNames f
    → (r : Dict) → is_local_named name (f r) ≡ is_local_named name r
keeps_named name f keeps r = rw ((keeps r).0, (keeps r).1)

pub find-modify :
    (name : String) (f : Dict → Dict)
    → KeepsNames f
    → (rs : List Dict) (r : Dict) → find_session name rs ≡ ok r
    → find_session name (modify name f rs) ≡ ok (f r)
unfolding find_session modify
find-modify name f keeps [] r h = cc
find-modify name f keeps (x ∷ rs) r h =
    ground (arith, keeps_named name f keeps x, find-modify name f keeps rs r)

pub get-set_exit :
    (cause stamp : String) (evidence : PyValue) (k : String) (r : Dict)
    → ("exit" == k) ≡ false
    → ("ended_at" == k) ≡ false
    → get k (set_exit cause stamp evidence r) ≡ get k r
unfolding set_exit
get-set_exit cause stamp evidence k r h j =
    (let exited = put "exit" (exit_value cause stamp evidence) r in
      let e = get-put k "exit" (exit_value cause stamp evidence) r in
      let d = get-put k "ended_at" (str stamp) exited in ground arith)

-- the record found after an exit is recorded is the one found before, but for its exit
pub find-exit_matching :
    (name key cause stamp : String) (evidence : PyValue) (rs : List Dict) (r e : Dict)
    → find_session name rs ≡ ok r
    → find_session name (exit_matching key cause stamp evidence rs).1 ≡ ok e
    → (e ≡ r) ⊎ (e ≡ set_exit cause stamp evidence r)
unfolding find_session exit_matching
find-exit_matching name key cause stamp evidence [] r e h j = cc
find-exit_matching name key cause stamp evidence (x ∷ rs) r e h j =
    (let same = keeps_named name (set_exit cause stamp evidence) keeps x in
      ground (arith, find-exit_matching name key cause stamp evidence rs r e))
  where
    keeps : KeepsNames (set_exit cause stamp evidence)
    keeps r = (
      get-set_exit cause stamp evidence "kind" r refl refl,
      get-set_exit cause stamp evidence "name" r refl refl,
    )
