-- ===== src/Extract.antt =====
-- Package cfsmextract: the extraction of session graphs from the SSA form of a program.
pub mod Program
pub mod State
pub mod Nodes
pub mod Frames
pub mod Memory
pub mod Moves
pub mod Comm
pub mod Run
pub mod Main
pub mod Keeps
pub mod Registered
pub mod Acyclic
pub mod Balanced
