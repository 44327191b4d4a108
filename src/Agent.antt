-- ===== src/Agent.antt =====
-- src/qste/agent: the host that decides on the revisions that an executor proposes.
pub mod Limits
pub mod Actions
pub mod Revision
pub mod Changes
pub mod Safety
pub mod Budgets
