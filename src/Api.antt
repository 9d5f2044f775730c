-- ===== src/Api.antt =====
-- The HTTP API: internal/api.
pub mod Http
pub mod Create
pub mod Created
pub mod Auth
pub mod Policy
pub mod Access
pub mod Inserts
pub mod Transaction
pub mod Replay
pub mod Read
pub mod Reading
pub mod Walk
pub mod Serve
