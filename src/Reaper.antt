-- ===== src/Reaper.antt =====
-- src/ai_cli/stale_session_reaper.py: the fail-closed evaluation of stale tmux sessions.
pub mod Types
pub mod Exec
pub mod Checks
pub mod Observe
pub mod Evaluate
pub mod Emits
pub mod Probe
pub mod Snapshot
pub mod Quiet
pub mod Warrant
pub mod Fence
pub mod Settings
pub mod Safety
pub mod Verdicts
pub mod Run
pub mod Total
