-- ===== src/Reaper/Settings.antt =====
-- What `read_reaper_config` accepts.
use ai_cli_utils.Prelude.{◌≡◌, refl, true, false, some, arith, eq_iff, ap}
use ai_cli_utils.Value.{Numbers, Value, Fields, null, bool, num, str, arr, obj, get, get_or}
use ai_cli_utils.Reaper.Types.{reap, ReaperConfig, returned}
use ai_cli_utils.Reaper.Checks.{read_mode, read_threshold, read_table, read_reaper_config}

module _ (n : Numbers) where
  open n use {Number, is_int, le, of_nat}

  -- what an accepted table with mode `reap` holds
  pub record AsksToReap (config : Fields Number) (cfg : ReaperConfig Number) : Type 0 where
    pub raw : Fields Number
    pub is_table : get "stale_session_reaper" config ≡ obj raw
    pub says_reap : get_or "mode" (str "observe") raw ≡ str "reap"
    pub threshold :
        get_or "stale_after_seconds" (num (of_nat 600)) raw ≡ num cfg.stale_after_seconds
    pub integer : is_int cfg.stale_after_seconds ≡ true
    pub positive : le cfg.stale_after_seconds (of_nat 0) ≡ false

  mode_reap : (v : Value Number) → read_mode n v ≡ returned (some reap) → v ≡ str "reap"
  mode_reap (str s) h = ap str ((eq_iff s "reap").0 (ground arith))
  mode_reap null h = cc
  mode_reap (bool b) h = cc
  mode_reap (num x) h = cc
  mode_reap (arr xs) h = cc
  mode_reap (obj fs) h = cc

  threshold_sound :
      (v : Value Number) (x : Number)
      → read_threshold n v ≡ some x
      → (v ≡ num x) × (is_int x ≡ true) × (le x (of_nat 0) ≡ false)
  threshold_sound (num y) x h = ground arith
  threshold_sound null x h = cc
  threshold_sound (bool b) x h = cc
  threshold_sound (str s) x h = cc
  threshold_sound (arr xs) x h = cc
  threshold_sound (obj fs) x h = cc

  table_sound :
      (v : Value Number) (cfg : ReaperConfig Number)
      → read_table n v ≡ returned (some cfg)
      → cfg.mode ≡ reap
      → (raw : Fields Number) × (v ≡ obj raw)
        × (read_mode n (get_or "mode" (str "observe") raw) ≡ returned (some reap))
        × (read_threshold n (get_or "stale_after_seconds" (num (of_nat 600)) raw)
            ≡ some cfg.stale_after_seconds)
  table_sound (obj raw) cfg h r = (raw, refl, ground arith, ground arith)
  table_sound null cfg h r = ground arith
  table_sound (bool b) cfg h r = cc
  table_sound (num x) cfg h r = cc
  table_sound (str s) cfg h r = cc
  table_sound (arr xs) cfg h r = cc

  -- The settings are in reap mode only if the configuration has a table for the reaper whose mode is
  -- the text "reap" and whose threshold, given or the default, is a positive integer.
  pub read_reaper_config-reap :
      (config : Fields Number) (cfg : ReaperConfig Number)
      → read_reaper_config n config ≡ returned (some cfg)
      → cfg.mode ≡ reap
      → AsksToReap config cfg
  unfolding read_reaper_config
  read_reaper_config-reap config cfg h r =
      let (raw, is_table, mode, threshold) =
        table_sound (get "stale_session_reaper" config) cfg h r in
      let (is_num, integer, positive) = threshold_sound _ cfg.stale_after_seconds threshold in
      record {
        raw = raw;
        is_table = is_table;
        says_reap = mode_reap (get_or "mode" (str "observe") raw) mode;
        threshold = is_num;
        integer = integer;
        positive = positive;
      }
