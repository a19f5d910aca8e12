-- ===== src/Event.antt =====
-- Connection events: src/demultiplexer/Proactor.cc, EqDemultiplexer.cc and EqHandler.cc, as they
-- are compiled on Linux.
pub mod Proactor
pub mod Handler
pub mod Lifecycle
pub mod Establish
pub mod Completion
pub mod Thread
pub mod Codes
