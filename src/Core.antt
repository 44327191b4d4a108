-- ===== src/Core.antt =====
-- src/qste/core: the JSON values that records are made of, and their contracts.
pub mod Json
