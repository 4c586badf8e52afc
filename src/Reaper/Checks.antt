-- ===== src/Reaper/Checks.antt =====
-- The pure checks of src/ai_cli/stale_session_reaper.py.
use Prim.Native.Char.{code}
use ai_cli_utils.Prelude.{
  ℕ, String, Bool, true, false, not, ◌&&◌, ◌||◌, Option, none, some, List, [], ◌∷◌, map, length,
  all, ltb, leb, eqb, ◌==◌, if◌then◌else◌,
}
use ai_cli_utils.Value.{
  Numbers, Value, Fields, null, bool, num, str, arr, obj, get, get_or, is_text,
}
use ai_cli_utils.Reaper.Types.{
  Mode, observe, reap, ReaperConfig, Pane, SessionCandidate, ProcessIdentity, ProcessObservation,
  Attempt, returned, raised,
}
use ai_cli_utils.Reaper.Exec.{
  Reason, heartbeat_invalid, generation_mismatch, heartbeat_boot_mismatch, heartbeat_not_stale,
}

abbrev pub codes : String → List ℕ
codes String.[] = []
codes (String.◌∷◌ c s) = code c ∷ codes s

abbrev pub nonempty {ℓ} : {A : Type ℓ} → List A → Bool
nonempty [] = false
nonempty (x ∷ xs) = true

-- `<sigil>\d+`, a full match
unfoldable pub sigil_number : (ℕ → Bool) → ℕ → List ℕ → Bool
sigil_number is_digit sigil [] = false
sigil_number is_digit sigil (c ∷ rest) = eqb c sigil && (nonempty rest && all is_digit rest)

abbrev pub between : ℕ → ℕ → ℕ → Bool
between low high c = leb low c && leb c high

-- `[A-Za-z0-9_-]`
abbrev pub token_char : ℕ → Bool
token_char c = between 65 90 c || between 97 122 c || between 48 57 c || eqb c 95 || eqb c 45

-- `_GENERATION_TOKEN_RE.fullmatch`
unfoldable pub generation_token : List ℕ → Bool
generation_token cs = leb 1 (length cs) && leb (length cs) 128 && all token_char cs

-- `_pane_identified`
unfoldable pub pane_identified : Pane → Bool
pane_identified pane = elim pane.pid [
  | some pid ↦ ltb 0 pid
  | none ↦ elim pane.dead_time [ none ↦ false | some t ↦ ltb 0 t ]
]

abbrev pub contains : List String → String → Bool
contains [] a = false
contains (x ∷ xs) a = x == a || contains xs a

-- `len(pane_ids) == len(set(pane_ids))`
abbrev pub distinct : List String → Bool
distinct [] = true
distinct (x ∷ xs) = not (contains xs x) && distinct xs

-- `_valid_candidate`
unfoldable pub valid_candidate : (ℕ → Bool) → SessionCandidate → Bool
unfolding sigil_number generation_token pane_identified
valid_candidate is_digit c =
    not (c.session_id == "")
    && (not (c.session_name == ""))
    && (not (c.generation_token == ""))
    && (nonempty c.panes)
    && (sigil_number is_digit b'$' (codes c.session_id))
    && (generation_token (codes c.generation_token))
    && (all (λ p. sigil_number is_digit b'%' (codes p.pane_id)) c.panes)
    && (all pane_identified c.panes)
    && (distinct (map (λ p. p.pane_id) c.panes))

abbrev pub option_eqb : Option ℕ → Option ℕ → Bool
option_eqb none none = true
option_eqb (some a) (some b) = eqb a b
option_eqb _ _ = false

-- `==` of two `Pane`s
unfoldable pub pane_eq : Pane → Pane → Bool
pane_eq p q = p.pane_id == q.pane_id && option_eqb p.pid q.pid && option_eqb p.dead_time q.dead_time

module _ (n : Numbers) where
  open n use {Number, is_int, is_finite, eq, le, sub, of_nat}

  -- `_finite_number`; a `bool` is no number here
  abbrev pub checked_finite : Number → Option Bool → Attempt (Option Number)
  checked_finite x none = raised
  checked_finite x (some true) = returned (some x)
  checked_finite x (some false) = returned none

  abbrev pub finite_number : Value Number → Attempt (Option Number)
  finite_number (num x) = checked_finite x (is_finite x)
  finite_number _ = returned none

  -- `value == 1`, where Python also has `True == 1`
  abbrev pub equals_one : Value Number → Bool
  equals_one (num x) = eq x (of_nat 1)
  equals_one (bool b) = b
  equals_one _ = false

  -- `mode in {"observe", "reap"}`: a value that cannot be hashed raises `TypeError`
  abbrev pub read_mode : Value Number → Attempt (Option Mode)
  read_mode (str s) =
      returned (if s == "observe" then some observe else if s == "reap" then some reap else none)
  read_mode (arr _) = raised
  read_mode (obj _) = raised
  read_mode _ = returned none

  -- a positive `int`, and no `bool`
  abbrev pub read_threshold : Value Number → Option Number
  read_threshold (num x) = if is_int x && not (le x (of_nat 0)) then some x else none
  read_threshold _ = none

  abbrev pub both : Option Mode → Option Number → Option (ReaperConfig Number)
  both (some mode) (some x) = some (record { mode = mode; stale_after_seconds = x })
  both _ _ = none

  abbrev pub with_mode :
      Attempt (Option Mode) → Option Number → Attempt (Option (ReaperConfig Number))
  with_mode (returned mode) threshold = returned (both mode threshold)
  with_mode raised threshold = raised

  -- `raw`, the table under `stale_session_reaper`
  abbrev pub read_table : Value Number → Attempt (Option (ReaperConfig Number))
  read_table null = returned (some (record { mode = observe; stale_after_seconds = of_nat 600 }))
  read_table (obj raw) =
      with_mode (read_mode (get_or "mode" (str "observe") raw))
        (read_threshold (get_or "stale_after_seconds" (num (of_nat 600)) raw))
  read_table _ = returned none

  unfoldable pub read_reaper_config : Fields Number → Attempt (Option (ReaperConfig Number))
  read_reaper_config config = read_table (get "stale_session_reaper" config)

  unfoldable pub identity_eq : ProcessIdentity Number → ProcessIdentity Number → Bool
  identity_eq a b = a.backend == b.backend && eq a.marker b.marker

  abbrev pub same_identity :
      String → Option (ProcessIdentity Number) → Option (ProcessIdentity Number) → Bool
  same_identity state before after =
      if state == "GONE" then elim after [ none ↦ true | some _ ↦ false ] else elim before [
        | none ↦ false
        | some i ↦ elim after [ none ↦ false | some j ↦ identity_eq i j ]
      ]

  unfoldable pub same_observation : ProcessObservation Number → ProcessObservation Number → Bool
  unfolding pane_eq
  same_observation before after =
      pane_eq before.pane after.pane
      && before.state == after.state
      && same_identity before.state before.identity after.identity

  -- `_same_snapshot`
  unfoldable pub same_snapshot :
      List (ProcessObservation Number) → List (ProcessObservation Number) → Bool
  unfolding same_observation
  same_snapshot [] [] = true
  same_snapshot (b ∷ bs) (a ∷ as') = same_observation b a && same_snapshot bs as'
  same_snapshot _ _ = false

  -- `now - stamp` against the threshold: the last tests of `_heartbeat_is_stale`
  abbrev pub stamp_verdict :
      ReaperConfig Number → Number → Attempt (Option Number) → Attempt (Option Reason)
  stamp_verdict cfg now raised = raised
  stamp_verdict cfg now (returned none) = returned (some heartbeat_invalid)
  stamp_verdict cfg now (returned (some stamp)) =
      if not (le stamp now)
      then returned (some heartbeat_invalid)
      else if le (sub now stamp) cfg.stale_after_seconds
      then returned (some heartbeat_not_stale)
      else returned none

  -- What `_heartbeat_is_stale` decides on a record: why it is not stale, or `none`; or it raises.
  unfoldable pub record_verdict :
      ReaperConfig Number
      → SessionCandidate
      → Fields Number
      → String
      → Number
      → Attempt (Option Reason)
  record_verdict cfg c fields boot now =
      if not (equals_one (get "version" fields))
      then returned (some heartbeat_invalid)
      else if not (
          is_text (get "session_name" fields) c.session_name
          && is_text (get "generation_token" fields) c.generation_token)
      then returned (some generation_mismatch)
      else if not (is_text (get "boot_generation" fields) boot)
      then returned (some heartbeat_boot_mismatch)
      else stamp_verdict cfg now (finite_number (get "monotonic_recorded_at" fields))

  abbrev pub fields_of : Value Number → Option (Fields Number)
  fields_of (obj fields) = some fields
  fields_of _ = none

  -- `now` is tested once the record and the boot are, and then the record
  abbrev pub clocked_verdict : Option Bool → Attempt (Option Reason) → Attempt (Option Reason)
  clocked_verdict none rest = raised
  clocked_verdict (some true) rest = rest
  clocked_verdict (some false) rest = returned (some heartbeat_invalid)

  unfoldable pub heartbeat_verdict :
      ReaperConfig Number
      → SessionCandidate
      → Value Number
      → Option String
      → Number
      → Attempt (Option Reason)
  unfolding record_verdict
  heartbeat_verdict cfg c value boot now = elim (fields_of value) [
    | none ↦ returned (some heartbeat_invalid)
    | some fields ↦ elim boot [
      | none ↦ returned (some heartbeat_invalid)
      | some b ↦
          if b == ""
          then returned (some heartbeat_invalid)
          else clocked_verdict (is_finite now) (record_verdict cfg c fields b now)
    ]
  ]
