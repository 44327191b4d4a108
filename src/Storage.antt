-- ===== src/Storage.antt =====
-- src/qste/storage/database.py: the append-only metadata plane of a workspace.
pub mod Tables
pub mod Records
pub mod Events
pub mod Transactions
pub mod References
pub mod Rows
pub mod Closure
pub mod Reads
pub mod RoundTrip
pub mod History
pub mod Growth
pub mod Consistency
pub mod Lineage
pub mod Verification
pub mod Soundness
pub mod Refusal
