-- ===== src/Verification.antt =====
-- The heuristic verification of manifests and images: internal/verification/heuristic.go.
pub mod Score
pub mod Yaml
pub mod Quantities
pub mod Scans
pub mod Resources
pub mod Bounds
pub mod Labels
pub mod Governed
pub mod Judge
pub mod Judged
