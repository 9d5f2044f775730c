-- ===== src/Examples.antt =====
-- Concrete runs: each theorem at inputs where its conditions hold.
pub mod Values
pub mod Runs
pub mod Requests
pub mod Queries
pub mod Checks
pub mod Tasks
pub mod Stages
pub mod Reruns
pub mod Deployment
pub mod Systems
pub mod Processes
