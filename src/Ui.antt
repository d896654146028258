-- ===== src/Ui.antt =====
-- The terminal desktop of tools/te-rs/src/ui.rs: panes, and the desktop that holds them.
pub mod Canvas
pub mod Pane
pub mod Desktop
pub mod Render
