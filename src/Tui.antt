-- ===== src/Tui.antt =====
-- crates/mgmt-tui: the terminal interface.
pub mod Keymap
