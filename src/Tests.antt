-- ===== src/Tests.antt =====
-- Runs on concrete inputs, and an application of each result to one.
pub mod Frames
pub mod Connections
pub mod Resources
pub mod Desktops
pub mod Adapters
pub mod Frontends
pub mod Debuggers
pub mod Consoles
pub mod Sessions
pub mod Emulators
pub mod Screens
pub mod Uploads
pub mod Terminals
pub mod Captures
