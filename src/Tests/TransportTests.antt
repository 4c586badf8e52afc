-- ===== src/Tests/TransportTests.antt =====
-- A machine without tmux whose pty carries the marker.
use ai_cli_utils.Prelude.{◌≡◌, refl, true, false, none}
use ai_cli_utils.Sessions.Store.{ok}
use ai_cli_utils.CompactTransport.{Platform, arrived, probe_marker, config_opts_out}
use ai_cli_utils.CompactTransport.Refusals.{Ends, resolve-Resolved}

abbrev posix : Platform
posix = record { termios = true; openpty = true; setsid = true; tiocsctty = true }

allowed_example : config_opts_out none ≡ ok false
unfolding config_opts_out
allowed_example = refl

resolve-Resolved_example : Ends false none false posix (arrived probe_marker)
resolve-Resolved_example =
    resolve-Resolved false none false posix (arrived probe_marker) allowed_example
