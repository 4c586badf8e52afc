-- ===== src/Names.antt =====
-- Session names: the picker of src/ai_cli/session_naming.py and the registry of
-- src/ai_cli/name_registry.py.
pub mod Number
pub mod Pick
pub mod Segment
pub mod Snapshot
pub mod Transact
pub mod Reserve
pub mod ByHand
pub mod Ledger
pub mod Release
pub mod Spool
