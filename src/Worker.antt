-- ===== src/Worker.antt =====
-- The worker: cmd/worker/main.go and internal/worker.
pub mod Pipeline
pub mod Plan
pub mod Execute
pub mod Outcomes
pub mod Runs
pub mod Calls
pub mod Unrolled
pub mod Verify
pub mod Health
pub mod Deploy
pub mod Background
pub mod Again
pub mod Blocked
pub mod Manifest
pub mod Written
pub mod Render
pub mod Settings
pub mod Assembly
pub mod Completed
pub mod Commands
pub mod Apply
pub mod Applied
