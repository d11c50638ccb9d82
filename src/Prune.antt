-- ===== src/Prune.antt =====
-- The package prune: which resources may be pruned, which are, and the pruner that deletes them.
pub mod Registry
pub mod Strategies
pub mod Pruner
mod Sorting
mod Tests
