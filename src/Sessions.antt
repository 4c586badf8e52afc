-- ===== src/Sessions.antt =====
-- The machine-local session registry and its durable supervisor state: src/ai_cli/session_registry.py
-- and src/ai_cli/session_run_state.py.
pub mod Store
pub mod Tracking
pub mod Launch
pub mod Prune
pub mod Recipe
pub mod Veto
pub mod Transitions
pub mod Marks
