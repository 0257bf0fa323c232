-- ===== src/Outcomes.antt =====
-- proxy/outcomes.py, in one module for each group of its functions.
pub mod State
pub mod Accounting
pub mod Views
pub mod Sticky
pub mod Maintenance
pub mod History
pub mod Standing
pub mod Admission
pub mod Breaker
pub mod Reads
pub mod Invariant
pub mod Sessions
pub mod Deletion
