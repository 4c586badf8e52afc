-- ===== src/Reaper/Verdicts.antt =====
-- What the reaper's tests decide: a stale heartbeat, the exact session, the settings.
use ai_cli_utils.Prelude.{
  ◌≡◌, ◌↔◌, refl, sym, ap, String, Bool, true, false, Option, none, some, List, [], ◌∷◌, keep, In,
  inl, inr, In-keep, keep-In, some-inj, subst, arith, eq_iff, ◌==◌,
}
use ai_cli_utils.Value.{Numbers, Value, Fields, null, bool, num, str, arr, obj, get, is_text}
use ai_cli_utils.Reaper.Types.{ReaperConfig, SessionCandidate, Machine, Attempt, returned, raised}
use ai_cli_utils.Reaper.Checks.{
  finite_number, checked_finite, equals_one, heartbeat_verdict, record_verdict, stamp_verdict,
}
use ai_cli_utils.Reaper.Evaluate.{exact_current, sole}

is_text_iff : {N : Type 0} (v : Value N) (s : String) → (is_text v s ≡ true) ↔ (v ≡ str s)
is_text_iff null s = (λ h. cc, λ h. cc)
is_text_iff (bool b) s = (λ h. cc, λ h. cc)
is_text_iff (num x) s = (λ h. cc, λ h. cc)
is_text_iff (str t) s = (λ h. ap str ((eq_iff t s).0 h), λ h. (eq_iff t s).1 (cc))
is_text_iff (arr xs) s = (λ h. cc, λ h. cc)
is_text_iff (obj fs) s = (λ h. cc, λ h. cc)

obj-inj : {N : Type 0} {a b : Fields N} → obj a ≡ obj b → a ≡ b
obj-inj h = cc

module _ (n : Numbers) where
  open n use {Number, is_finite, le, sub}

  finite_number_iff :
      (v : Value Number) (x : Number)
      → (finite_number n v ≡ returned (some x)) ↔ ((v ≡ num x) × (is_finite x ≡ some true))
  finite_number_iff null x = (λ h. cc, λ h. cc h.0)
  finite_number_iff (bool b) x = (λ h. cc, λ h. cc h.0)
  finite_number_iff (num y) x = go (is_finite y) refl
    where
      same : returned (some y) ≡ returned (some x) → y ≡ x
      same h = cc

      go :
          (o : Option Bool)
          → is_finite y ≡ o
          → (checked_finite n y o ≡ returned (some x))
            ↔ ((num y ≡ num x) × (is_finite x ≡ some true))
      go none e = (λ h. cc, λ h. cc)
      go (some true) e =
          (λ h. (ap num (same h), subst (λ z. is_finite z ≡ some true) (same h) e), λ h. cc h.0)
      go (some false) e = (λ h. cc, λ h. cc)
  finite_number_iff (str t) x = (λ h. cc, λ h. cc h.0)
  finite_number_iff (arr xs) x = (λ h. cc, λ h. cc h.0)
  finite_number_iff (obj fs) x = (λ h. cc, λ h. cc h.0)

  -- A heartbeat record that shows its generation to be stale at the time `now` of the boot `boot`.
  pub record IsStale (cfg : ReaperConfig Number) (c : SessionCandidate) (value : Value Number)
      (boot : Option String) (now : Number) : Type 0 where
    pub fields : Fields Number
    pub is_object : value ≡ obj fields
    pub booted : String
    pub is_booted : boot ≡ some booted
    pub named_boot : (booted == "") ≡ false
    pub finite_now : is_finite now ≡ some true
    pub version : equals_one n (get "version" fields) ≡ true
    pub same_name : get "session_name" fields ≡ str c.session_name
    pub same_generation : get "generation_token" fields ≡ str c.generation_token
    pub same_boot : get "boot_generation" fields ≡ str booted
    pub stamp : Number
    pub is_stamp : get "monotonic_recorded_at" fields ≡ num stamp
    pub finite_stamp : is_finite stamp ≡ some true
    pub past : le stamp now ≡ true
    pub old : le (sub now stamp) cfg.stale_after_seconds ≡ false

  module _ (cfg : ReaperConfig Number) (c : SessionCandidate) where
    stamp_verdict_iff :
        (now : Number) (x : Attempt (Option Number))
        → (stamp_verdict n cfg now x ≡ returned none) ↔ (
            (stamp : Number) × (x ≡ returned (some stamp))
            × (le stamp now ≡ true)
            × (le (sub now stamp) cfg.stale_after_seconds ≡ false))
    stamp_verdict_iff now raised = (λ h. cc, λ h. cc h.1)
    stamp_verdict_iff now (returned none) = (λ h. cc, λ h. cc h.1)
    stamp_verdict_iff now (returned (some s)) =
        (λ h. (s, refl, ground arith, ground arith), λ h. ground arith)

    record_sound :
        (fields : Fields Number) (b : String) (now : Number)
        → (b == "") ≡ false
        → is_finite now ≡ some true
        → record_verdict n cfg c fields b now ≡ returned none
        → IsStale cfg c (obj fields) (some b) now
    unfolding record_verdict
    record_sound fields b now named finite h =
        let (s, e, past, old) =
          (stamp_verdict_iff now (finite_number n (get "monotonic_recorded_at" fields))).0
            (ground arith) in
        record {
          fields = fields;
          is_object = refl;
          booted = b;
          is_booted = refl;
          named_boot = named;
          finite_now = finite;
          version = ground arith;
          same_name = (is_text_iff (get "session_name" fields) c.session_name).0 (ground arith);
          same_generation =
              (is_text_iff (get "generation_token" fields) c.generation_token).0 (ground arith);
          same_boot = (is_text_iff (get "boot_generation" fields) b).0 (ground arith);
          stamp = s;
          is_stamp = ((finite_number_iff (get "monotonic_recorded_at" fields) s).0 e).0;
          finite_stamp = ((finite_number_iff (get "monotonic_recorded_at" fields) s).0 e).1;
          past = past;
          old = old;
        }

    record_complete :
        (fields : Fields Number) (b : String) (now : Number)
        → IsStale cfg c (obj fields) (some b) now
        → record_verdict n cfg c fields b now ≡ returned none
    unfolding record_verdict
    record_complete fields b now s =
        let same : s.fields ≡ fields = obj-inj (sym s.is_object) in
        let boots : s.booted ≡ b = some-inj (sym s.is_booted) in
        ground (
          arith,
          same,
          boots,
          s.version,
          s.past,
          s.old,
          (is_text_iff (get "session_name" s.fields) c.session_name).1 s.same_name,
          (is_text_iff (get "generation_token" s.fields) c.generation_token).1 s.same_generation,
          (is_text_iff (get "boot_generation" s.fields) s.booted).1 s.same_boot,
          (finite_number_iff (get "monotonic_recorded_at" s.fields) s.stamp).1
              (s.is_stamp, s.finite_stamp),
          (stamp_verdict_iff now (returned (some s.stamp))).1 (s.stamp, refl, s.past, s.old),
        )

    heartbeat_sound :
        (value : Value Number) (boot : Option String) (now : Number)
        → heartbeat_verdict n cfg c value boot now ≡ returned none
        → IsStale cfg c value boot now
    unfolding heartbeat_verdict
    heartbeat_sound (obj fields) (some b) now h =
        record_sound fields b now (ground arith) (ground arith)
          (unfold record_verdict in ground arith)
    heartbeat_sound (obj fields) none now h = cc
    heartbeat_sound null boot now h = cc
    heartbeat_sound (bool b) boot now h = cc
    heartbeat_sound (num x) boot now h = cc
    heartbeat_sound (str t) boot now h = cc
    heartbeat_sound (arr xs) boot now h = cc

    heartbeat_complete :
        (value : Value Number) (boot : Option String) (now : Number)
        → IsStale cfg c value boot now
        → heartbeat_verdict n cfg c value boot now ≡ returned none
    unfolding heartbeat_verdict
    heartbeat_complete (obj fields) (some b) now s =
        let boots : s.booted ≡ b = some-inj (sym s.is_booted) in
        ground (arith, record_complete fields b now s, boots, s.named_boot, s.finite_now)
    heartbeat_complete (obj fields) none now s = cc s.is_booted
    heartbeat_complete null boot now s = cc s.is_object
    heartbeat_complete (bool b) boot now s = cc s.is_object
    heartbeat_complete (num x) boot now s = cc s.is_object
    heartbeat_complete (str t) boot now s = cc s.is_object
    heartbeat_complete (arr xs) boot now s = cc s.is_object

    -- A heartbeat is judged stale exactly when it is a JSON object of the present version that names
    -- the session, its generation and the present boot, with a finite time that is not in the future
    -- and that lies more than the threshold back.
    pub heartbeat_verdict_iff :
        (value : Value Number) (boot : Option String) (now : Number)
        → (heartbeat_verdict n cfg c value boot now ≡ returned none) ↔ IsStale cfg c value boot now
    heartbeat_verdict_iff value boot now =
        (heartbeat_sound value boot now, heartbeat_complete value boot now)

module _ (n : Numbers) (m : Machine n) (c : SessionCandidate) where
  sole_lem :
      (cs : List SessionCandidate) (d : SessionCandidate) → sole n m cs ≡ some d → cs ≡ d ∷ []
  sole_lem (x ∷ []) d h = ap (λ y. y ∷ []) (some-inj h)
  sole_lem [] d h = cc
  sole_lem (x ∷ y ∷ cs) d h = cc

  only : (e d : SessionCandidate) → In e (d ∷ []) → e ≡ d
  only e d (inl same) = same
  only e d (inr mem) = absurd mem

  -- The session that is found again is listed, has the ID, the name and the generation of the
  -- original, and is the only listed session with that ID.
  pub exact_current_sound :
      (listed : List SessionCandidate) (d : SessionCandidate)
      → exact_current n m c listed ≡ some d
      → In d listed
        × (d.session_id ≡ c.session_id)
        × (d.session_name ≡ c.session_name)
        × (d.generation_token ≡ c.generation_token)
        × ((e : SessionCandidate) → In e listed → e.session_id ≡ c.session_id → e ≡ d)
  unfolding exact_current
  exact_current_sound listed d h =
      let same_id : SessionCandidate → Bool = λ e. e.session_id == c.session_id in
      let matches : List SessionCandidate = keep same_id listed in
      let alone : matches ≡ d ∷ [] = sole_lem matches d (ground arith) in
      let found : In d listed × (same_id d ≡ true) =
        In-keep d same_id listed (subst (In d) (sym alone) (inl refl)) in
      (
        found.0,
        (eq_iff d.session_id c.session_id).0 found.1,
        (eq_iff d.session_name c.session_name).0 (ground (arith, alone)),
        (eq_iff d.generation_token c.generation_token).0 (ground (arith, alone)),
        λ e mem same. only e d (
            subst (In e) alone
              (keep-In e same_id listed mem ((eq_iff e.session_id c.session_id).1 same))),
      )
