-- ===== src/Sessions/Veto/Bootable.antt =====
-- When `boot_veto` of src/ai_cli/session_run_state.py allows a relaunch.
use ai_cli_utils.Prelude.{
  ◌≡◌, refl, ◌↔◌, String, Bool, true, false, not, ◌||◌, Option, none, some, [], ◌∷◌, arith,
  if◌then◌else◌,
}
use ai_cli_utils.Value.{get, get_or, str, is_text}
use ai_cli_utils.Value.Dicts.{PyValue, Dict}
use ai_cli_utils.Sessions.Store.{Result, ok, err, ◌>>=◌}
use ai_cli_utils.Sessions.Recipe.{valid_boot_recipe}
use ai_cli_utils.Sessions.Veto.{
  Relaunch, Veto, already_attempted, cause, settled_veto, live_veto, boot_veto, text_in,
  boot_causes, attempted,
}

ok-inj : {A : Type 0} {a b : A} → ok a ≡ ok b → a ≡ b
ok-inj h = cc

-- a gate that vetoes when its test holds
gate :
    (b : Bool) (v : Veto) (rest : Result (Option Veto))
    → (if b then ok (some v) else rest) ≡ ok none
    → (b ≡ false) × (rest ≡ ok none)
gate true v rest h = cc
gate false v rest h = (refl, h)

neither : (a b : Bool) → (not a || not b) ≡ false → (a ≡ true) × (b ≡ true)
neither a b h = ground arith

denial : (a : Bool) → not a ≡ false → a ≡ true
denial a h = ground arith

module _ (is_absolute : String → Bool) where
  -- the cause is one that a boot answers, the record's policy and the settings allow it, and the
  -- recipe is valid
  pub record Permitted (r : Dict) (cfg : Relaunch) (settled : PyValue) : Type 0 where
    pub boot_cause : text_in settled boot_causes ≡ true
    pub policy : text_in (get_or "relaunch" (str "auto") r) ("auto" ∷ "always" ∷ []) ≡ true
    pub enabled : text_in settled cfg.causes ≡ true
    pub recipe : valid_boot_recipe is_absolute r ≡ true

  pub record Bootable (r : Dict) (cfg : Relaunch) (host : String) (boot : Option String)
      (alive : Option Bool) (tombstone : Bool) : Type 0 where
    pub on_boot : cfg.on_boot ≡ true
    pub is_local : is_text (get "kind" r) "local" ≡ true
    pub is_own : is_text (get "owning_host" r) host ≡ true
    pub not_denied : tombstone ≡ false
    pub is_dead : alive ≡ some false
    pub not_attempted : attempted r boot ≡ false
    pub settled : PyValue
    pub is_cause : cause r boot ≡ ok settled
    pub permitted : Permitted r cfg settled

  settled_veto-Permitted :
      (r : Dict) (cfg : Relaunch) (settled : PyValue)
      → settled_veto is_absolute r cfg settled ≡ none
      → Permitted r cfg settled
  unfolding settled_veto
  settled_veto-Permitted r cfg settled h = record {
    boot_cause = ground arith;
    policy = ground arith;
    enabled = ground arith;
    recipe = ground arith;
  }

  Permitted-settled_veto :
      (r : Dict) (cfg : Relaunch) (settled : PyValue)
      → Permitted r cfg settled
      → settled_veto is_absolute r cfg settled ≡ none
  unfolding settled_veto
  Permitted-settled_veto r cfg settled p =
      ground (arith, p.boot_cause, p.policy, p.enabled, p.recipe)

  -- what `live_veto` asks
  live_veto-Bootable :
      (r : Dict) (cfg : Relaunch) (boot : Option String) (alive : Option Bool)
      → live_veto is_absolute r cfg boot alive ≡ ok none
      → (alive ≡ some false)
        × ((attempted r boot ≡ false)
            × ((settled : PyValue) × ((cause r boot ≡ ok settled) × Permitted r cfg settled)))
  live_veto-Bootable r cfg boot none h = cc
  live_veto-Bootable r cfg boot (some true) h = cc
  live_veto-Bootable r cfg boot (some false) h = (refl, go (attempted r boot) refl h)
    where
      caused :
          (c : Result PyValue)
          → (do settled ← c; ok (settled_veto is_absolute r cfg settled)) ≡ ok none
          → (settled : PyValue) × ((c ≡ ok settled) × Permitted r cfg settled)
      caused (ok settled) e = (settled, (refl, settled_veto-Permitted r cfg settled (ok-inj e)))
      caused (err x) e = cc

      go :
          (b : Bool)
          → attempted r boot ≡ b
          → (if b
              then ok (some already_attempted)
              else (do settled ← cause r boot; ok (settled_veto is_absolute r cfg settled)))
            ≡ ok none
          → (b ≡ false)
            × ((settled : PyValue) × ((cause r boot ≡ ok settled) × Permitted r cfg settled))
      go true e x = cc
      go false e x = (refl, caused (cause r boot) x)

  Bootable-live_veto :
      (r : Dict) (cfg : Relaunch) (boot : Option String)
      → attempted r boot ≡ false
      → (settled : PyValue) → cause r boot ≡ ok settled
      → Permitted r cfg settled
      → live_veto is_absolute r cfg boot (some false) ≡ ok none
  Bootable-live_veto r cfg boot h settled e p = rw (h, e, Permitted-settled_veto r cfg settled p)

  module _ (r : Dict) (cfg : Relaunch) (host : String) (boot : Option String) (alive : Option Bool)
      (tombstone : Bool) where
    veto-Bootable :
        boot_veto is_absolute r cfg host boot alive tombstone ≡ ok none
        → Bootable r cfg host boot alive tombstone
    unfolding boot_veto
    veto-Bootable h =
        (let (on, rest) = gate _ _ _ h in
          let (own, rest') = gate _ _ _ rest in
          let (clear, live) = gate _ _ _ rest' in
          let (is_local, is_own) = neither _ _ own in
          let (dead, (fresh, (settled, (e, p)))) = live_veto-Bootable r cfg boot alive live in
          record {
            on_boot = denial _ on;
            is_local = is_local;
            is_own = is_own;
            not_denied = clear;
            is_dead = dead;
            not_attempted = fresh;
            settled = settled;
            is_cause = e;
            permitted = p;
          })

    Bootable-veto :
        Bootable r cfg host boot alive tombstone
        → boot_veto is_absolute r cfg host boot alive tombstone ≡ ok none
    unfolding boot_veto
    Bootable-veto b =
        (let e = Bootable-live_veto r cfg boot b.not_attempted b.settled b.is_cause b.permitted in
          rw (b.on_boot, b.is_local, b.is_own, b.not_denied, b.is_dead, e))

    -- A relaunch on boot is allowed exactly when it is switched on, the record is local and owned by
    -- this host, no safety file denies it, the session is known to be dead, this boot has not tried
    -- it, and its cause is settled and permitted: one that a boot answers and the settings enable,
    -- under a policy of `auto` or `always`, with a valid recipe.
    pub boot_veto_iff :
        (boot_veto is_absolute r cfg host boot alive tombstone ≡ ok none)
        ↔ Bootable r cfg host boot alive tombstone
    boot_veto_iff = (veto-Bootable, Bootable-veto)
