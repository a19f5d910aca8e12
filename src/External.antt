-- ===== src/External.antt =====
-- What the Java binding drives: src/external_demultiplexer and src/external_service.
pub mod Events
pub mod Completion
pub mod EqService
pub mod CqService
pub mod RdmService
