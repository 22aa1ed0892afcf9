-- ===== src/Cfsm.antt =====
-- cfsmextract/sesstype/cfsm.go: the translation of a session to communicating finite state
-- machines. `Library` is what it calls, `Machine` translates a role, `Channel` a channel.
pub mod Library
pub mod Machine
pub mod Channel
