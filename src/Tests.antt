-- ===== src/Tests.antt =====
-- The theorems at concrete inputs, and small runs of the code.
pub mod Memory
pub mod Machines
pub mod Sessions
pub mod Graphs
pub mod Loops
pub mod Structs
pub mod Extraction
pub mod Frames
pub mod Drawing
pub mod Purging
