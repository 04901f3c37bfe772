-- ===== src/Sweep.antt =====
-- sweep.py: sweeps over a base scenario.
pub mod Checks
pub mod Data
pub mod Blocks
pub mod Spec
pub mod Ids
pub mod Runs
pub mod Expand
pub mod Grid
pub mod Oat
pub mod Portable
mod Tests
