-- ===== src/Rows/Sound.antt =====
-- What `row_problem` of src/ai_cli/name_registry.py rules out, and what an activation leaves.
use ai_cli_utils.Prelude.{
  ◌≡◌, refl, String, Bool, true, false, not, ◌&&◌, ◌||◌, Option, none, some, List, [], ◌∷◌, any,
  arith, sym, ap, subst, ◌⊎◌, inl, inr, In, eq_iff, Bool-cases, ◌∙◌, ◌==◌, if◌then◌else◌,
}
use ai_cli_utils.Value.{end, field, find, get, is_text, null, bool, num, str, arr, obj}
use ai_cli_utils.Value.Dicts.{PyValue, Dict, truthy, value_eq, find-put}
use ai_cli_utils.Rows.{
  Problem, Activation, activate_spare, row_problem, kind_problem, problem_of_kind, unknown_kind,
  same_fields, token_valid, path_like, absolute_text, holds_absolute, is_null, wrong_fields,
  wrong_schema, bad_token, missing, superfluous, name_differs, not_spare, bad_state, bad_recovery,
  unreserved, absolute_path, non_null, only_null, text_in,
}

gate :
    (b : Bool) (p : Problem) (rest : Option Problem)
    → (if b then some p else rest) ≡ none
    → (b ≡ false) × (rest ≡ none)
gate true p rest h = cc
gate false p rest h = (refl, h)

denial : (b : Bool) → not b ≡ false → b ≡ true
denial b h = ground arith

neither : (a b : Bool) → (a || b) ≡ false → (a ≡ false) × (b ≡ false)
neither a b h = ground arith

-- `SPARE_ACTIVATION_FIELDS`
abbrev pub activation_fields : List String
activation_fields =
    "kind" ∷ "title" ∷ "repo" ∷ "repo_alias" ∷ "label" ∷ "client" ∷ "activated_at" ∷ "worktree" ∷ []

-- Taking a spare leaves every field of it that is not an activation field as it was.
pub find-activate_spare :
    (spare : Dict) (a : Activation) (stamp : String) (k : String)
    → any (λ j. j == k) activation_fields ≡ false
    → find k (activate_spare spare a stamp) ≡ find k spare
unfolding activate_spare
find-activate_spare spare a stamp k h =
    (let (n0, r0) = neither ("kind" == k) _ h in
      let (n1, r1) = neither ("title" == k) _ r0 in
      let (n2, r2) = neither ("repo" == k) _ r1 in
      let (n3, r3) = neither ("repo_alias" == k) _ r2 in
      let (n4, r4) = neither ("label" == k) _ r3 in
      let (n5, r5) = neither ("client" == k) _ r4 in
      let (n6, r6) = neither ("activated_at" == k) _ r5 in
      let (n7, r7) = neither ("worktree" == k) _ r6 in
      simp find-put (rw (n7, n6, n5, n4, n3, n2, n1, n0)))

any_none :
    (f : String → Bool) (ks : List String) → any f ks ≡ false → (k : String) → In k ks → f k ≡ false
any_none f [] h k m = absurd m
any_none f (j ∷ ks) h k (inl e) = subst (λ x. f x ≡ false) (sym e) (neither (f j) _ h).0
any_none f (j ∷ ks) h k (inr m) = any_none f ks (neither (f j) _ h).1 k m

nothing : (v : PyValue) → is_null v ≡ true → v ≡ null
nothing null h = refl
nothing (bool b) h = cc
nothing (num x) h = cc
nothing (str s) h = cc
nothing (arr xs) h = cc
nothing (obj fs) h = cc

member : (s : String) (ss : List String) → text_in s ss ≡ true → In s ss
member s [] h = cc
member s (t ∷ ss) h = go (Bool-cases (s == t)) (member s ss)
  where
    go : ((s == t) ≡ true) ⊎ ((s == t) ≡ false) → (text_in s ss ≡ true → In s ss) → In s (t ∷ ss)
    go (inl e) f = inl ((eq_iff s t).0 e)
    go (inr e) f = inr (f (sym (ap (λ b. b || text_in s ss) e) ∙ h))

module _ (is_absolute : String → Bool) where
  find-absolute :
      (row : Dict) (k s : String)
      → holds_absolute is_absolute row ≡ false
      → find k row ≡ some (str s)
      → path_like is_absolute s ≡ false
  find-absolute end k s h f = cc
  find-absolute (field j v rest) k s h f =
      (let (a, b) = neither (absolute_text is_absolute v) _ h in
        go (j == k) f a (find-absolute rest k s b))
    where
      go :
          (c : Bool)
          → (if c then some v else find k rest) ≡ some (str s)
          → absolute_text is_absolute v ≡ false
          → (find k rest ≡ some (str s) → path_like is_absolute s ≡ false)
          → path_like is_absolute s ≡ false
      go true e a later = texts v e a
        where
          texts :
              (w : PyValue)
              → some w ≡ some (str s)
              → absolute_text is_absolute w ≡ false
              → path_like is_absolute s ≡ false
          texts w e a = ground arith
      go false e a later = later e

  -- what holds of every row of a kind that has no problem
  pub record Valid (kind : String) (row : Dict) : Type 0 where
    pub known_kind : In kind ("session" ∷ "spare" ∷ "label" ∷ [])
    pub fields : same_fields row ≡ true
    pub schema : value_eq (get "schema" row) (num 1) ≡ true
    pub given : (k : String) → In k (non_null kind) → is_null (get k row) ≡ false
    pub left_out : (k : String) → In k (only_null kind) → get k row ≡ null
    pub spare_source : kind ≡ "spare" → is_text (get "source" row) "spare" ≡ true
    pub state :
        (is_text (get "state" row) "active" || is_text (get "state" row) "migration-incomplete")
        ≡ true
    pub token : token_valid is_absolute kind (get "token" row) ≡ true
    pub named :
        (kind == "session" || kind == "spare") ≡ true
        → value_eq (get "name" row) (get "token" row) ≡ true
    pub recovering :
        is_text (get "state" row) "migration-incomplete" ≡ not (is_null (get "recovery" row))
    pub reserved : truthy (get "reserved_at" row) ≡ true
    pub relative : (k s : String) → find k row ≡ some (str s) → path_like is_absolute s ≡ false

  kind_problem-Valid :
      (kind : String) (row : Dict)
      → text_in kind ("session" ∷ "spare" ∷ "label" ∷ []) ≡ true
      → kind_problem is_absolute kind row ≡ none
      → Valid kind row
  unfolding kind_problem
  kind_problem-Valid kind row known h =
      (let (n0, r0) = gate (not (same_fields row)) wrong_fields _ h in
        let (n1, r1) = gate (not (value_eq (get "schema" row) (num 1))) wrong_schema _ r0 in
        let (n2, r2) = gate (not (token_valid is_absolute kind (get "token" row))) bad_token _ r1 in
        let (n3, r3) = gate (any (λ k. is_null (get k row)) (non_null kind)) missing _ r2 in
        let (n4, r4) =
          gate (any (λ k. not (is_null (get k row))) (only_null kind)) superfluous _ r3 in
        let (n5, r5) =
          gate
            ((kind == "session" || kind == "spare")
              && not (value_eq (get "name" row) (get "token" row)))
            name_differs _ r4 in
        let (n6, r6) =
          gate (kind == "spare" && not (is_text (get "source" row) "spare")) not_spare _ r5 in
        let (n7, r7) =
          gate
            (not (is_text (get "state" row) "active")
              && not (is_text (get "state" row) "migration-incomplete"))
            bad_state _ r6 in
        let (n8, r8) =
          gate
            (is_text (get "state" row) "migration-incomplete" && is_null (get "recovery" row)
              || not (is_text (get "state" row) "migration-incomplete")
                && not (is_null (get "recovery" row)))
            bad_recovery _ r7 in
        let (n9, r9) = gate (not (truthy (get "reserved_at" row))) unreserved _ r8 in
        let (n10, r10) = gate (holds_absolute is_absolute row) absolute_path _ r9 in
        record {
          known_kind = member kind ("session" ∷ "spare" ∷ "label" ∷ []) known;
          fields = denial _ n0;
          schema = denial _ n1;
          given = λ k m. any_none (λ j. is_null (get j row)) (non_null kind) n3 k m;
          left_out = λ k m.
              nothing (get k row)
                (denial _ (any_none (λ j. not (is_null (get j row))) (only_null kind) n4 k m));
          spare_source = λ e. implied _ _ n6 ((eq_iff kind "spare").1 e);
          state = either _ _ n7;
          token = denial _ n2;
          named = λ e. implied _ _ n5 e;
          recovering = equal _ _ n8;
          reserved = denial _ n9;
          relative = λ k s f. find-absolute row k s n10 f;
        })
    where
      implied : (a b : Bool) → (a && not b) ≡ false → a ≡ true → b ≡ true
      implied a b x y = ground arith

      either : (a b : Bool) → (not a && not b) ≡ false → (a || b) ≡ true
      either a b x = ground arith

      equal : (a b : Bool) → (a && b || not a && not b) ≡ false → a ≡ not b
      equal a b x = ground arith

  -- A row that has no problem is of one of the three kinds and has the fields of a row, the schema 1,
  -- a value in each field that its kind asks for and none in those that its kind leaves out, a token
  -- of its kind, which for a session or a spare is its name, the source of a spare if it is one, one
  -- of the two states, a recovery exactly while its migration is incomplete, the time of its
  -- reservation, and no text that is an absolute path.
  pub row_problem-Valid :
      (row : Dict)
      → row_problem is_absolute row ≡ none
      → (kind : String) × ((get "kind" row ≡ str kind) × Valid kind row)
  unfolding row_problem
  row_problem-Valid row h = go (get "kind" row) h
    where
      known :
          (kind : String) (b : Bool)
          → text_in kind ("session" ∷ "spare" ∷ "label" ∷ []) ≡ b
          → (if b then kind_problem is_absolute kind row else some unknown_kind) ≡ none
          → Valid kind row
      known kind true t e = kind_problem-Valid kind row t e
      known kind false t e = cc

      go :
          (v : PyValue)
          → problem_of_kind is_absolute v row ≡ none
          → (kind : String) × ((v ≡ str kind) × Valid kind row)
      go (str kind) e = (kind, (refl, known kind _ refl e))
      go _ e = cc
