-- ===== src/Frontend.antt =====
-- The frontend of tools/te-rs/src/main.rs: what it sends, its options, and the loop of its windows
-- in three parts, an item of the stream, a key, and the end of a pass.
pub mod Requests
pub mod CopyMode
pub mod Session
pub mod Sending
pub mod Keys
pub mod Timers
pub mod Monitor
pub mod Upload
pub mod Terminal
pub mod Options
