-- ===== src/Tests.antt =====
-- Runs of the definitions at concrete inputs, and the theorems applied there.
pub mod Json
pub mod Diff
pub mod Comparison
pub mod Outcomes
pub mod Accounting
pub mod Closure
pub mod Scan
pub mod Schedules
pub mod Fingerprints
pub mod Digests
pub mod Par
pub mod Exploration
pub mod Claims
pub mod Prepare
