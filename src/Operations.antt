-- ===== src/Operations.antt =====
-- src/qste/operations.py and the check of its results in src/qste/core/contracts.py.
pub mod Results
pub mod Validation
pub mod Failures
pub mod Outcomes
pub mod Domains
pub mod Exits
pub mod Reasons
pub mod Statuses
