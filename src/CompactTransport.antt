-- ===== src/CompactTransport.antt =====
-- The transport of auto-compact prompts: src/ai_cli/compact_transport.py.
pub mod Refusals
use ai_cli_utils.Prelude.{
  String, Bool, true, false, not, ◌&&◌, ◌||◌, Option, none, some, ◌==◌, if◌then◌else◌,
}
use ai_cli_utils.Value.{Value, null, bool, num, str, arr, obj, end, get_or}
use ai_cli_utils.Value.Dicts.{PyValue, Dict}
use ai_cli_utils.Sessions.Store.{Result, ok, err, type_error}

-- the reasons that `probe_pty` gives
pub data Detail : Type 0 where
  no_termios no_openpty no_setsid no_controlling_terminal : Detail
  nothing_arrived corrupted allocation_failed carries : Detail
  not_probed opted_out : Detail

pub record PtyProbe : Type 0 where
  pub usable : Bool
  pub detail : Detail
  pub platform_supported : Bool

-- what the platform offers
pub record Platform : Type 0 where
  pub termios : Bool
  pub openpty : Bool
  pub setsid : Bool
  pub tiocsctty : Bool

-- how the round trip ends: an error of the system, an error of termios, which is none of the system,
-- nothing to read in time, or what the slave read
pub data RoundTrip : Type 0 where
  os_error termios_error timed_out : RoundTrip
  arrived : String → RoundTrip

-- what `probe_pty` answers, or that the error of termios escapes it
pub data Probed : Type 0 where
  probed : PtyProbe → Probed
  probe_raises : Probed

-- `_PROBE_MARKER`
abbrev pub probe_marker : String
probe_marker = "ai-cli-compact-transport-probe\n"

abbrev pub unsupported : Detail → PtyProbe
unsupported why = record { usable = false; detail = why; platform_supported = false }

abbrev pub failed : Detail → PtyProbe
failed why = record { usable = false; detail = why; platform_supported = true }

abbrev pub judge_round_trip : RoundTrip → Probed
judge_round_trip os_error = probed (failed allocation_failed)
judge_round_trip termios_error = probe_raises
judge_round_trip timed_out = probed (failed nothing_arrived)
judge_round_trip (arrived text) =
    if not (text == probe_marker)
    then probed (failed corrupted)
    else probed (record { usable = true; detail = carries; platform_supported = true })

unfoldable pub probe_pty : Platform → RoundTrip → Probed
probe_pty p trip =
    if not p.termios
    then probed (unsupported no_termios)
    else if not p.openpty
    then probed (unsupported no_openpty)
    else if not p.setsid
    then probed (unsupported no_setsid)
    else if not p.tiocsctty
    then probed (unsupported no_controlling_terminal)
    else judge_round_trip trip

abbrev pub is_false : PyValue → Bool
is_false (bool b) = not b
is_false _ = false

abbrev pub use_pty : PyValue → Result PyValue
use_pty (obj fs) = ok (get_or "use_pty" (bool true) fs)
use_pty _ = err type_error

abbrev pub config_or_empty : Option Dict → Dict
config_or_empty none = end
config_or_empty (some fs) = fs

abbrev pub map_is_false : Result PyValue → Result Bool
map_is_false (ok v) = ok (is_false v)
map_is_false (err e) = err e

-- `config_opts_out`
unfoldable pub config_opts_out : Option Dict → Result Bool
config_opts_out config =
    map_is_false (use_pty (get_or "session" (obj end) (config_or_empty config)))

pub data Kind : Type 0 where
  tmux pty : Kind

pub record CompactTransport : Type 0 where
  pub kind : Option Kind
  pub pty_detail : Detail
  pub platform_limited : Bool

abbrev pub is_none : Option Kind → Bool
is_none none = true
is_none (some k) = false

-- the properties `usable` and `must_refuse`
unfoldable pub usable : CompactTransport → Bool
usable t = not (is_none t.kind)

unfoldable pub must_refuse : CompactTransport → Bool
must_refuse t = is_none t.kind && not t.platform_limited

abbrev pub of_probe : PtyProbe → CompactTransport
of_probe p =
    if p.usable
    then record { kind = some pty; pty_detail = p.detail; platform_limited = false }
    else record { kind = none; pty_detail = p.detail; platform_limited = not p.platform_supported }

-- what `resolve` answers or raises from the configuration, or that the error of the probe escapes it
pub data Resolution : Type 0 where
  answers : Result CompactTransport → Resolution
  probe_escapes : Resolution

abbrev pub of_probed : Probed → Resolution
of_probed (probed p) = answers (ok (of_probe p))
of_probed probe_raises = probe_escapes

abbrev pub without_tmux : Result Bool → Probed → Resolution
without_tmux (err e) p = answers (err e)
without_tmux (ok true) p =
    answers (ok (record { kind = none; pty_detail = opted_out; platform_limited = false }))
without_tmux (ok false) p = of_probed p

-- `resolve`: the answer of `probe` is looked at only when tmux is no choice and the pty is one
unfoldable pub resolve : Bool → Option Dict → Probed → Resolution
unfolding config_opts_out
resolve tmux_usable config probe =
    if tmux_usable
    then answers
        (ok (record { kind = some tmux; pty_detail = not_probed; platform_limited = false }))
    else without_tmux (config_opts_out config) probe
