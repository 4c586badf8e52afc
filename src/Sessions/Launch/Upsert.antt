-- ===== src/Sessions/Launch/Upsert.antt =====
-- `record_launch`, `mark_ended` and `record_exit` of src/ai_cli/session_registry.py.
use ai_cli_utils.Prelude.{
  eq_iff, ◌≡◌, refl, sym, ◌∙◌, ap, subst, String, Bool, true, false, not, ◌||◌, Option, none, some,
  List, [], ◌∷◌, ◌++◌, arith, keep, any, ◌==◌, if◌then◌else◌,
}
use ai_cli_utils.Value.{find, get}
use ai_cli_utils.Value.Dicts.{PyValue, Dict, find-put}
use ai_cli_utils.Sessions.Store.{Doc}
use ai_cli_utils.Sessions.Launch.{
  same_session, copy_fields, copy_found, durable_fields, take_over, upsert, remote_alias,
}

-- the first of two answers that there is
abbrev pub prefer {ℓ} : {A : Type ℓ} → Option A → Option A → Option A
prefer none o = o
prefer (some v) o = some v

preferred :
    (c : Bool) (a o x : Option PyValue)
    → x ≡ prefer a o
    → (if c then prefer a x else x) ≡ prefer a o
preferred c a o x h = (subst (λ y. (if c then prefer a y else y) ≡ prefer a o) (sym h) (twice c a))
  where
    twice :
        (c : Bool) (a : Option PyValue)
        → (if c then prefer a (prefer a o) else prefer a o) ≡ prefer a o
    twice true none = refl
    twice true (some v) = refl
    twice false a = refl

find-copy_found :
    (j k : String) (o : Option PyValue) (fs : Dict)
    → find k (copy_found j o fs) ≡ (if j == k then prefer o (find k fs) else find k fs)
find-copy_found j k none fs = ground arith
find-copy_found j k (some v) fs = ground (arith, find-put k j v fs)

-- a key that is copied has the value of the previous record, if that has the key
find-copy_fields :
    (k : String) (ks : List String) (previous fs : Dict)
    → find k (copy_fields ks previous fs)
      ≡ (if any (λ j. j == k) ks then prefer (find k previous) (find k fs) else find k fs)
unfolding copy_fields
find-copy_fields k [] previous fs = refl
find-copy_fields k (j ∷ ks) previous fs =
    (let rest = find-copy_fields k ks previous (copy_found j (find j previous) fs) in
      let head = find-copy_found j k (find j previous) fs in rest ∙ go (j == k) refl head)
  where
    go :
        (b : Bool)
        → (j == k) ≡ b
        → find k (copy_found j (find j previous) fs)
          ≡ (if b then prefer (find j previous) (find k fs) else find k fs)
        → (if any (λ i. i == k) ks
            then prefer (find k previous) (find k (copy_found j (find j previous) fs))
            else find k (copy_found j (find j previous) fs))
          ≡ (if b || any (λ i. i == k) ks then prefer (find k previous) (find k fs) else find k fs)
    go true e h = preferred _ (find k previous) (find k fs) _ (
        subst
          (λ i. find k (copy_found j (find j previous) fs) ≡ prefer (find i previous) (find k fs))
          ((eq_iff j k).0 e) h)
    go false e h = rw h

-- what the sessions say of a key, the last one that has it counting
abbrev pub latest : String → List Dict → Dict → Option PyValue → Option PyValue
latest k [] fresh o = o
latest k (r ∷ rs) fresh o =
    latest k rs fresh (if same_session r fresh then prefer (find k r) o else o)

-- the fields that identify a session
abbrev pub SameNames : Dict → Dict → Type 0
SameNames fs fresh =
    (get "kind" fs ≡ get "kind" fresh)
    × ((get "name" fs ≡ get "name" fresh) × (get "remote" fs ≡ get "remote" fresh))

same_session-names :
    (r fs fresh : Dict) → SameNames fs fresh → same_session r fs ≡ same_session r fresh
unfolding same_session remote_alias
same_session-names r fs fresh (a, (b, c)) = rw (a, b, c)

get-copied :
    (k : String) (previous fs : Dict)
    → any (λ j. j == k) durable_fields ≡ false
    → get k (copy_fields durable_fields previous fs) ≡ get k fs
get-copied k previous fs h = rw (find-copy_fields k durable_fields previous fs, h)

-- taking fields over keeps the names, and every durable field is the latest
find-take_over_from :
    (k : String) (fresh : Dict) (rs : List Dict) (fs : Dict)
    → any (λ j. j == k) durable_fields ≡ true
    → SameNames fs fresh
    → find k (take_over rs fs) ≡ latest k rs fresh (find k fs)
unfolding take_over
find-take_over_from k fresh [] fs h same = refl
find-take_over_from k fresh (r ∷ rs) fs h same =
    subst
      (λ c.
        find k (take_over rs (if c then copied else fs))
        ≡ latest k rs fresh
            (if same_session r fresh then prefer (find k r) (find k fs) else find k fs))
      (sym (same_session-names r fs fresh same))
      (go (λ gs. find-take_over_from k fresh rs gs h) (same_session r fresh))
  where
    copied : Dict
    copied = copy_fields durable_fields r fs

    kept : SameNames copied fresh
    kept = (
      get-copied "kind" r fs refl ∙ same.0,
      (get-copied "name" r fs refl ∙ same.1.0, get-copied "remote" r fs refl ∙ same.1.1),
    )

    chosen :
        (b : Bool)
        → b ≡ true
        → (if b then prefer (find k r) (find k fs) else find k fs) ≡ prefer (find k r) (find k fs)
    chosen true e = refl
    chosen false e = cc

    go :
        ((gs : Dict)
          → SameNames gs fresh
          → find k (take_over rs gs) ≡ latest k rs fresh (find k gs))
        → (c : Bool)
        → find k (take_over rs (if c then copied else fs))
          ≡ latest k rs fresh (if c then prefer (find k r) (find k fs) else find k fs)
    go rest false = rest fs same
    go rest true =
        rest copied kept
        ∙ ap (latest k rs fresh)
            (find-copy_fields k durable_fields r fs ∙ chosen (any (λ j. j == k) durable_fields) h)

take_over-SameNames :
    (fresh : Dict) (rs : List Dict) (fs : Dict)
    → SameNames fs fresh
    → SameNames (take_over rs fs) fresh
unfolding take_over
take_over-SameNames fresh [] fs same = same
take_over-SameNames fresh (r ∷ rs) fs same = take_over-SameNames fresh rs _ (go (same_session r fs))
  where
    go : (c : Bool) → SameNames (if c then copy_fields durable_fields r fs else fs) fresh
    go true = (
      get-copied "kind" r fs refl ∙ same.0,
      (get-copied "name" r fs refl ∙ same.1.0, get-copied "remote" r fs refl ∙ same.1.1),
    )
    go false = same

keep-cong :
    (p q : Dict → Bool) → ((r : Dict) → p r ≡ q r) → (rs : List Dict) → keep p rs ≡ keep q rs
keep-cong p q e [] = refl
keep-cong p q e (r ∷ rs) = rw (e r, keep-cong p q e rs)

-- what is found in the sessions that a launch leaves
abbrev pub Launched : Dict → List Dict → List Dict → Type 0
Launched fresh before after =
    (new : Dict) × ((after ≡ keep (λ r. not (same_session r fresh)) before ++ new ∷ [])
      × (SameNames new fresh
          × ((k : String)
              → any (λ j. j == k) durable_fields ≡ true
              → find k new ≡ latest k before fresh (find k fresh))))

-- The registry after a launch is recorded: the records of the other sessions in their order, then one
-- record for the launched session, which has the names of the launch, and under each durable field
-- what the last earlier record of that session that has the field says.
pub upsert-Launched :
    (fresh : Dict) (doc : Doc) → Launched fresh doc.sessions (upsert fresh doc).sessions
unfolding upsert
upsert-Launched fresh doc = (
  new,
  (
    ap (λ rs. rs ++ new ∷ [])
        (keep-cong _ _ (λ r. ap not (same_session-names r new fresh names)) doc.sessions),
    (names, λ k h. find-take_over_from k fresh doc.sessions fresh h (refl, (refl, refl))),
  ),
)
  where
    new : Dict
    new = take_over doc.sessions fresh

    names : SameNames new fresh
    names = take_over-SameNames fresh doc.sessions fresh (refl, (refl, refl))
