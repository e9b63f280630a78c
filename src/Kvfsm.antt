-- ===== src/Kvfsm.antt =====
-- pkg/kvfsm: the replicated state machine over the store.
pub mod Encoding
pub mod Acl
pub mod Cascade
pub mod Compare
pub mod Apply
