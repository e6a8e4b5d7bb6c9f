-- ===== src/Deploy.antt =====
-- The deployment scripts of scripts/, the tasks that they run, and the files that they keep.
pub mod Store
pub mod Guards
pub mod Tasks
pub mod Prepare
pub mod Phase1
pub mod Phase2
pub mod Phase3
pub mod Full
mod Tests
