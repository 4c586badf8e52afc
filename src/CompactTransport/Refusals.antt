-- ===== src/CompactTransport/Refusals.antt =====
-- When a launch is refused for want of a transport: src/ai_cli/compact_transport.py.
use ai_cli_utils.Prelude.{
  ◌≡◌, refl, sym, ap, ◌∙◌, eq_iff, ◌↔◌, ◌⊎◌, inl, inr, Bool, true, false, not, Option, none, some,
  ◌==◌, if◌then◌else◌,
}
use ai_cli_utils.Value.Dicts.{Dict}
use ai_cli_utils.Sessions.Store.{ok}
use ai_cli_utils.CompactTransport.{
  Platform, Detail, not_probed, opted_out, tmux, failed, unsupported, corrupted, carries,
  allocation_failed, nothing_arrived, no_termios, no_openpty, no_setsid, no_controlling_terminal,
  PtyProbe, RoundTrip, arrived, os_error, termios_error, timed_out, probed, probe_marker, probe_pty,
  judge_round_trip, config_opts_out, CompactTransport, must_refuse, usable, of_probe, of_probed,
  without_tmux, answers, probe_escapes, resolve,
}

impossible : {A : Type 0} → false ≡ true → A
impossible h = cc

-- all that a pty needs is there
abbrev pub Supported : Platform → Type 0
Supported p = (p.termios ≡ true) × ((p.openpty ≡ true) × ((p.setsid ≡ true) × (p.tiocsctty ≡ true)))

-- the error of termios ends the round trip of a pty that was to be probed
abbrev pub Escapes : Bool → Bool → Platform → RoundTrip → Type 0
Escapes tmux_usable out p trip =
    (tmux_usable ≡ false) × ((out ≡ false) × (Supported p × (trip ≡ termios_error)))

-- what an answer of the probe says on a supported platform
record Judged (trip : RoundTrip) (probe : PtyProbe) : Type 0 where
  judged : judge_round_trip trip ≡ probed probe
  carried : (probe.usable ≡ true) ↔ (trip ≡ arrived probe_marker)
  achievable : probe.platform_supported ≡ true
  no_error : ¬ (trip ≡ termios_error)

judge_round_trip-Judged :
    (trip : RoundTrip) → ((probe : PtyProbe) × Judged trip probe) ⊎ (trip ≡ termios_error)
judge_round_trip-Judged os_error = inl (
  failed allocation_failed,
  record {
    judged = refl;
    carried = (λ h. impossible h, λ h. cc);
    achievable = refl;
    no_error = λ h. cc;
  },
)
judge_round_trip-Judged timed_out = inl (
  failed nothing_arrived,
  record {
    judged = refl;
    carried = (λ h. impossible h, λ h. cc);
    achievable = refl;
    no_error = λ h. cc;
  },
)
judge_round_trip-Judged termios_error = inr refl
judge_round_trip-Judged (arrived text) = inl (go (text == probe_marker) refl)
  where
    differs : (text == probe_marker) ≡ false → arrived text ≡ arrived probe_marker → ⊥
    differs e h = cc (same (inj h), e)
      where
        inj : arrived text ≡ arrived probe_marker → text ≡ probe_marker
        inj h = cc

        same : text ≡ probe_marker → (text == probe_marker) ≡ true
        same h = (eq_iff text probe_marker).1 h

    go : (b : Bool) → (text == probe_marker) ≡ b → (probe : PtyProbe) × Judged (arrived text) probe
    go true e = (
      record { usable = true; detail = carries; platform_supported = true },
      record {
        judged = rw e;
        carried = (λ h. ap arrived ((eq_iff text probe_marker).0 e), λ h. refl);
        achievable = refl;
        no_error = λ h. cc;
      },
    )
    go false e = (
      failed corrupted,
      record {
        judged = rw e;
        carried = (λ h. impossible h, λ h. absurd (differs e h));
        achievable = refl;
        no_error = λ h. cc;
      },
    )

-- the platform supports a pty, or the probe says that it does not
platform_lem :
    (p : Platform)
    → Supported p
      ⊎ (¬ Supported p
          × ((why : Detail) × ((trip : RoundTrip) → probe_pty p trip ≡ probed (unsupported why))))
unfolding probe_pty
platform_lem p = go p.termios p.openpty p.setsid p.tiocsctty
  where
    go :
        (a b c d : Bool)
        → ((a ≡ true) × ((b ≡ true) × ((c ≡ true) × (d ≡ true))))
          ⊎ (¬ ((a ≡ true) × ((b ≡ true) × ((c ≡ true) × (d ≡ true))))
              × ((why : Detail) × ((trip : RoundTrip)
                    → (if not a
                        then probed (unsupported no_termios)
                        else if not b
                        then probed (unsupported no_openpty)
                        else if not c
                        then probed (unsupported no_setsid)
                        else if not d
                        then probed (unsupported no_controlling_terminal)
                        else judge_round_trip trip)
                      ≡ probed (unsupported why))))
    go true true true true = inl (refl, (refl, (refl, refl)))
    go false b c d = inr (λ h. impossible h.0, (no_termios, λ trip. refl))
    go true false c d = inr (λ h. impossible h.1.0, (no_openpty, λ trip. refl))
    go true true false d = inr (λ h. impossible h.1.1.0, (no_setsid, λ trip. refl))
    go true true true false = inr (λ h. impossible h.1.1.1, (no_controlling_terminal, λ trip. refl))

supported_lem :
    (p : Platform) (trip : RoundTrip) → Supported p → probe_pty p trip ≡ judge_round_trip trip
unfolding probe_pty
supported_lem p trip (a, (b, (c, d))) = rw (a, b, c, d)

-- when a transport is found, and when its lack refuses the launch
pub record Resolved (tmux_usable out : Bool) (p : Platform) (trip : RoundTrip)
    (t : CompactTransport) : Type 0 where
  pub found :
      (usable t ≡ true)
      ↔ ((tmux_usable ≡ true) ⊎ ((out ≡ false) × (Supported p × (trip ≡ arrived probe_marker))))
  pub refused :
      (must_refuse t ≡ true)
      ↔ ((tmux_usable ≡ false) × ((out ≡ true) ⊎ (Supported p × (usable t ≡ false))))
  pub no_escape : ¬ Escapes tmux_usable out p trip

-- an answer, or the error that escapes
abbrev pub Ends : Bool → Option Dict → Bool → Platform → RoundTrip → Type 0
Ends tmux_usable config out p trip =
    ((t : CompactTransport) × ((resolve tmux_usable config (probe_pty p trip) ≡ answers (ok t))
        × Resolved tmux_usable out p trip t))
    ⊎ ((resolve tmux_usable config (probe_pty p trip) ≡ probe_escapes)
        × Escapes tmux_usable out p trip)

from_probe :
    (p : Platform) (trip : RoundTrip) (probe : PtyProbe)
    → ((probe.usable ≡ true) ↔ (Supported p × (trip ≡ arrived probe_marker)))
    → ((probe.platform_supported ≡ true) ↔ Supported p)
    → ¬ (Supported p × (trip ≡ termios_error))
    → Resolved false false p trip (of_probe probe)
unfolding usable must_refuse
from_probe p trip probe = go probe.usable probe.detail probe.platform_supported
  where
    go :
        (u : Bool) (d : Detail) (b : Bool)
        → ((u ≡ true) ↔ (Supported p × (trip ≡ arrived probe_marker)))
        → ((b ≡ true) ↔ Supported p)
        → ¬ (Supported p × (trip ≡ termios_error))
        → Resolved false false p trip
            (of_probe (record { usable = u; detail = d; platform_supported = b }))
    go true d b u s n = record {
      found = (λ h. inr (refl, u.0 refl), λ h. refl);
      refused = (
        λ h. impossible h,
        λ h. elim h.1 [ inl x ↦ impossible x | inr x ↦ impossible (sym x.1) ],
      );
      no_escape = λ h. n h.1.1;
    }
    go false d true u s n = record {
      found = (λ h. impossible h, λ h. elim h [ inl x ↦ impossible x | inr x ↦ u.1 x.1 ]);
      refused = (λ h. (refl, inr (s.0 refl, refl)), λ h. refl);
      no_escape = λ h. n h.1.1;
    }
    go false d false u s n = record {
      found = (λ h. impossible h, λ h. elim h [ inl x ↦ impossible x | inr x ↦ u.1 x.1 ]);
      refused = (λ h. impossible h, λ h. elim h.1 [ inl x ↦ impossible x | inr x ↦ s.1 x.0 ]);
      no_escape = λ h. n h.1.1;
    }

-- If the setting of the pty can be read, the probe's error of termios escapes exactly if tmux does
-- not host the launch, the setting allows a pty, the platform supports one and setting its terminal
-- up fails in this way. In every other case there is an answer: a launch has a transport exactly if
-- tmux hosts it, or the setting allows a pty, the platform supports one and the marker came through
-- it unchanged, and it is refused exactly if tmux does not host it and either the setting rules the
-- pty out or a supported platform left it without a transport.
pub resolve-Resolved :
    (tmux_usable : Bool) (config : Option Dict) (out : Bool) (p : Platform) (trip : RoundTrip)
    → config_opts_out config ≡ ok out
    → Ends tmux_usable config out p trip
unfolding resolve usable must_refuse
resolve-Resolved true config out p trip h = inl (
  record { kind = some tmux; pty_detail = not_probed; platform_limited = false },
  (
    refl,
    record {
      found = (λ u. inl refl, λ u. refl);
      refused = (λ u. impossible u, λ u. impossible (sym u.0));
      no_escape = λ u. impossible (sym u.0);
    },
  ),
)
resolve-Resolved false config true p trip h = inl (
  record { kind = none; pty_detail = opted_out; platform_limited = false },
  (
    rw h,
    record {
      found =
          (λ u. impossible u, λ u. elim u [ inl x ↦ impossible x | inr x ↦ impossible (sym x.0) ]);
      refused = (λ u. (refl, inl refl), λ u. refl);
      no_escape = λ u. impossible (sym u.1.0);
    },
  ),
)
resolve-Resolved false config false p trip h = probing (platform_lem p)
  where
    judging :
        Supported p
        → ((probe : PtyProbe) × Judged trip probe) ⊎ (trip ≡ termios_error)
        → Ends false config false p trip
    judging s (inl (probe, j)) = inl (
      of_probe probe,
      (
        ap (λ r. without_tmux r (probe_pty p trip)) h
            ∙ ap of_probed (supported_lem p trip s ∙ j.judged),
        from_probe p trip probe (λ u. (s, j.carried.0 u), λ u. j.carried.1 u.1)
            (λ u. s, λ u. j.achievable) (λ u. j.no_error u.1),
      ),
    )
    judging s (inr e) = inr (
      ap (λ r. without_tmux r (probe_pty p trip)) h
          ∙ ap of_probed (supported_lem p trip s ∙ ap judge_round_trip e),
      (refl, (refl, (s, e))),
    )

    probing :
        Supported p
          ⊎ (¬ Supported p
              × ((why : Detail) × ((t : RoundTrip) → probe_pty p t ≡ probed (unsupported why))))
        → Ends false config false p trip
    probing (inl s) = judging s (judge_round_trip-Judged trip)
    probing (inr (n, (why, e))) = inl (
      of_probe (unsupported why),
      (
        ap (λ r. without_tmux r (probe_pty p trip)) h ∙ ap of_probed (e trip),
        from_probe p trip (unsupported why) (λ u. impossible u, λ u. absurd (n u.0))
            (λ u. impossible u, λ u. absurd (n u)) (λ u. n u.0),
      ),
    )
