-- ===== src/Witnesses.antt =====
-- The theorems applied at concrete inputs.
pub mod Storage
pub mod Policy
pub mod Quanta
pub mod Relations
pub mod Arms
pub mod Agent
pub mod Representations
pub mod Operations
pub mod Artifacts
