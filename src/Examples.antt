-- ===== src/Examples.antt =====
-- The theorems at concrete inputs, and the concrete services that they use.
pub mod Data
pub mod BlockData
pub mod Elections
pub mod Trees
pub mod Tables
pub mod Appends
pub mod Blocks
pub mod Channel
pub mod Queues
pub mod Volumes
pub mod Updates
