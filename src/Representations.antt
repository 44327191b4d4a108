-- ===== src/Representations.antt =====
-- src/qste/representations/stft.py: the bounded STFT representation and its candidates.
pub mod Cells
pub mod Intervention
pub mod Controls
pub mod Effects
pub mod Refinement
pub mod Subsets
pub mod Masks
pub mod Edges
pub mod Closure
pub mod Completeness
pub mod Candidates
pub mod Grid
pub mod Places
pub mod Singles
pub mod Selection
pub mod Enumeration
