-- ===== src/Policy.antt =====
-- src/qste/policy/service.py: authorization as executable state, appeals and repairs.
pub mod State
pub mod Propagation
pub mod Appeals
pub mod Targets
pub mod Members
pub mod Closures
