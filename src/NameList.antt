-- ===== src/NameList.antt =====
-- src/ai_cli/name_list.py: the available-name list. Names are lists of code points.
pub mod Edits
pub mod Subset
