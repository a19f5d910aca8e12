-- ===== src/Msg.antt =====
-- Connections that are connected: src/core/MsgConnection.cc and src/core/MsgStack.cc.
pub mod Connection
pub mod Stack
