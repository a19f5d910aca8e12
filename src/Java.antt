-- ===== src/Java.antt =====
-- The Java binding (src/java): its native methods, and the pool of buffers that they use.
pub mod MemPool
pub mod Binding
pub mod EqService
pub mod CqService
pub mod RdmService
pub mod Connection
