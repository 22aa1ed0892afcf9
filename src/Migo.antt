-- ===== src/Migo.antt =====
-- migoextract: the loops and the structs of the functions that are analysed.
pub mod Int64
pub mod Loop
pub mod Structs
