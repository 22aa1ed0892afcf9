-- ===== src/SessType.antt =====
-- Package cfsmextract/sesstype without its translation to CFSMs: the session graph, its sessions
-- and the stack of nodes.
pub mod Node
pub mod Session
pub mod Stack
pub mod Dot
