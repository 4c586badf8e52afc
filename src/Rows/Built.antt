-- ===== src/Rows/Built.antt =====
-- The rows that src/ai_cli/name_registry.py builds satisfy its own invariants.
use ai_cli_utils.Prelude.{
  ◌≡◌, refl, String, Bool, true, false, Option, none, some, List, [], ◌∷◌, All, eq_refl, ◌==◌,
}
use ai_cli_utils.Value.Dicts.{value_eq}
use ai_cli_utils.Rows.{
  SessionRow, Activation, opt, session_row, spare_row, label_row, LabelRow, activate_spare,
  row_problem, valid_token, path_like, absolute_text,
}

-- an optional text as the texts that it gives
abbrev pub texts_in : Option String → List String
texts_in none = []
texts_in (some s) = s ∷ []

module _ (is_absolute : String → Bool) where
  abbrev pub Relative : List String → Type 0
  Relative = All (λ s. path_like is_absolute s ≡ false)

  opt-Relative :
      (o : Option String) → Relative (texts_in o) → absolute_text is_absolute (opt o) ≡ false
  opt-Relative none h = refl
  opt-Relative (some s) h = h.0

  -- A session row is valid if its name is a token, it has a stamp, and no text that it holds is an
  -- absolute path, the words that the row itself uses included.
  pub session_row-Relative :
      (writer : String) (r : SessionRow) (stamp : String)
      → valid_token "session" r.name ≡ true
      → (stamp == "") ≡ false
      → Relative (
          "session" ∷ "active" ∷ writer ∷ stamp ∷ r.name ∷ r.title ∷ r.repo ∷ r.repo_alias
          ∷ r.host_alias ∷ r.machine ∷ r.client ∷ r.source ∷ [])
      → Relative (texts_in r.label)
      → Relative (texts_in r.tier)
      → Relative (texts_in r.worktree)
      → row_problem is_absolute (session_row writer r stamp) ≡ none
  unfolding row_problem session_row value_eq
  session_row-Relative writer r stamp token stamped
        (h0, (h1, (h2, (h3, (h4, (h5, (h6, (h7, (h8, (h9, (h10, (h11, u)))))))))))) l t w =
      rw (
        token,
        eq_refl r.name,
        stamped,
        h0,
        h1,
        h2,
        h3,
        h4,
        h5,
        h6,
        h7,
        h8,
        h9,
        h10,
        h11,
        opt-Relative r.label l,
        opt-Relative r.tier t,
        opt-Relative r.worktree w,
      )

  -- A label row is valid if its token is a label token, it has a stamp, and no text that it holds is
  -- an absolute path, the words that the row itself uses included.
  pub label_row-Relative :
      (writer : String) (r : LabelRow) (stamp : String)
      → valid_token "label" r.token ≡ true
      → (stamp == "") ≡ false
      → Relative (
          "label" ∷ "active" ∷ "custom" ∷ writer ∷ stamp ∷ r.token ∷ r.title ∷ r.repo ∷ r.repo_alias
          ∷ r.host_alias ∷ r.label ∷ r.machine ∷ r.client ∷ [])
      → Relative (texts_in r.worktree)
      → row_problem is_absolute (label_row writer r stamp) ≡ none
  unfolding row_problem label_row value_eq
  label_row-Relative writer r stamp token stamped
        (h0, (h1, (h2, (h3, (h4, (h5, (h6, (h7, (h8, (h9, (h10, (h11, (h12, u))))))))))))) w =
      rw (
        token,
        stamped,
        h0,
        h1,
        h2,
        h3,
        h4,
        h5,
        h6,
        h7,
        h8,
        h9,
        h10,
        h11,
        h12,
        opt-Relative r.worktree w,
      )

  -- A spare that was built and that a session takes is first a valid spare row and then a valid
  -- session row, if its name is a token, its reservation has a stamp, and no text of the two is an
  -- absolute path, the words that the rows themselves use included.
  pub activate_spare-Relative :
      (writer name host_alias machine stamp : String) (a : Activation) (taken : String)
      → valid_token "session" name ≡ true
      → (stamp == "") ≡ false
      → Relative (
          "spare" ∷ "session" ∷ "active" ∷ writer ∷ stamp ∷ taken ∷ name ∷ host_alias ∷ machine
          ∷ a.title ∷ a.repo ∷ a.repo_alias ∷ a.client ∷ [])
      → Relative (texts_in a.label)
      → Relative (texts_in a.worktree)
      → (row_problem is_absolute (spare_row writer name host_alias machine stamp) ≡ none)
        × (row_problem is_absolute
              (activate_spare (spare_row writer name host_alias machine stamp) a taken)
            ≡ none)
  unfolding row_problem spare_row activate_spare value_eq
  activate_spare-Relative writer name host_alias machine stamp a taken token stamped
        (h0, (h1, (h2, (h3, (h4, (h5, (h6, (h7, (h8, (h9, (h10, (h11, (h12, u))))))))))))) l w =
      (
        rw (token, eq_refl name, stamped, h0, h2, h3, h4, h6, h7, h8),
        rw (
          token,
          eq_refl name,
          stamped,
          h0,
          h1,
          h2,
          h3,
          h4,
          h5,
          h6,
          h7,
          h8,
          h9,
          h10,
          h11,
          h12,
          opt-Relative a.label l,
          opt-Relative a.worktree w,
        ),
      )
