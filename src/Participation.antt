-- ===== src/Participation.antt =====
-- packages/core/src/participation: which player takes part in which game, in two indexes.
pub mod Store
pub mod Policy
pub mod Manager
pub mod View
pub mod Index
pub mod Reach
pub mod Joining
pub mod Leaving
mod Tests
