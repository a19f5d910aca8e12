-- ===== src/Rdm.antt =====
-- Reliable datagrams: src/core/RdmConnection.cc and RdmStack.cc.
pub mod Connection
pub mod Stack
pub mod Completion
pub mod External
pub mod Contexts
