-- ===== src/Quanta.antt =====
-- src/qste/quanta: paired-score runs and the assessment of candidates.
pub mod Intervals
pub mod Assess
pub mod Verdict
pub mod Contract
pub mod Decisions
pub mod Evidence
pub mod Conformance
pub mod Budget
pub mod Charges
pub mod Budgets
pub mod Executions
