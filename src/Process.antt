-- ===== src/Process.antt =====
-- The two main programs as they run: what they open, start and close, and how they end.
pub mod Effects
pub mod Telemetry
pub mod Migrations
pub mod Servers
pub mod Mains
pub mod Open
pub mod Closing
