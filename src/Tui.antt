-- ===== src/Tui.antt =====
-- pkg/tui: the interactive list.
pub mod Item
pub mod Fuzzy
pub mod Cursor
pub mod Tree
pub mod Update
pub mod Tests
