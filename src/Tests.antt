-- ===== src/Tests.antt =====
-- The theorems at concrete inputs.
pub mod Regions
pub mod Floats
pub mod Tiles
pub mod Records
pub mod Inputs
pub mod Terminals
pub mod Journals
pub mod Screens
pub mod Credits
