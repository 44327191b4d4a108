-- ===== src/Artifacts.antt =====
-- src/qste/storage/artifacts.py and paths.py: immutable files of a workspace, named by their digests.
pub mod Paths
pub mod Objects
pub mod Appends
pub mod Reads
pub mod Stores
pub mod Targets
pub mod Outcomes
pub mod RoundTrip
