-- ===== src/Relations.antt =====
-- src/qste/relations: the comparison of the candidates of two arms.
pub mod Pairs
pub mod Components
pub mod Searches
pub mod Closures
pub mod Partition
pub mod Orders
pub mod Sorting
pub mod Matching
pub mod Selections
pub mod Certificate
pub mod Optimality
pub mod Matches
pub mod Resolution
pub mod Assertions
pub mod Decomposition
pub mod Rules
pub mod Sound
pub mod Containment
pub mod Coverage
pub mod Arms
pub mod Complete
pub mod Origins
pub mod Insides
pub mod Offers
pub mod Returns
pub mod Ready
pub mod Compared
pub mod Eligibility
