-- ===== src/Lib.antt =====
-- HPNL, a network library over libfabric: stacks open a fabric and its queues, connections send
-- and receive chunks of registered memory, chunk managers hand chunks out, and a proactor passes
-- the events of the queues to handlers.
--
-- The parts, and where they are modelled. A method becomes a run (Base/Run): from a state it
-- goes to a value and a new state, or to a fault, which is a null pointer that is dereferenced,
-- an assertion that fails, or an index out of bounds. The state of a method is the object's own
-- fields, what it shares with other objects, and the trace of the calls of other libraries
-- (Fabric).
--
--   Base       shared helpers: Boolean tests, lists, std::map as an association list, runs
--   Fabric     libfabric, epoll and malloc: a library answers each call by the calls made before it.
--              Fabric/Handles counts how often a handle was opened and given back.
--   Chunk      struct Chunk and the interface ChunkMgr (include/HPNL/ChunkMgr.h).
--              Chunk/External is src/chunk/ExternalChunkMgr.cc, Chunk/Pool is src/chunk/ChunkMgr.cc.
--   Msg        Msg/Connection is src/core/MsgConnection.cc, with its transfers in Msg/Connection/Io.
--              Msg/Stack is src/core/MsgStack.cc: the constructor and init there, the buffers for
--              remote access in Msg/Stack/Rma, the table of connections in Msg/Stack/Table.
--   Event      src/demultiplexer: Event/Proactor is the table of handlers and epoll, Event/Handler the
--              events of a connection and the wait for one (EqHandler.cc, EqDemultiplexer.cc,
--              Proactor.cc). Event/Completion is the loop over a completion queue
--              (CqDemultiplexer.cc), Event/Thread the threads (ThreadWrapper.h), Event/Codes the
--              codes by which events are reported (EventType.h).
--   Rdm        Rdm/Connection is src/core/RdmConnection.cc, with init and the destructor in
--              Rdm/Connection/Setup; Rdm/Stack is src/core/RdmStack.cc, Rdm/Completion
--              src/demultiplexer/RdmCqDemultiplexer.cc, and Rdm/External is
--              src/external_demultiplexer/ExternalRdmCqDemultiplexer.cc.
--   External   src/external_demultiplexer, which the Java binding polls: External/Events is
--              ExternalEqDemultiplexer.cc, External/Completion ExternalCqDemultiplexer.cc. Of
--              src/external_service, External/EqService is ExternalEqService.cc, External/CqService
--              ExternalCqService.h, and External/RdmService ExternalRdmService.cc.
--   Service    src/service/Service.cc: the constructor and init there, listen, connect and get_con in
--              Service/Open, the threads, the end and the buffers for remote access in
--              Service/Control, the setters in Service/Setters, and in Service/Entries
--              what its threads call. Service/Session follows a client's connection through its life.
--              Service/Client and Service/Server are src/service/Client.cc and Server.cc.
--   Java       the binding: Java/MemPool is the pool of buffers (MemPool.java, in
--              java/hpnl/src/main/java/com/intel/hpnl/core). Of java/native, Java/Binding is what the
--              native methods share, Java/EqService com_intel_hpnl_core_EqService.cc, and in the same
--              way Java/CqService, Java/RdmService, and Java/Connection, with the methods of
--              com_intel_hpnl_core_RdmConnection.cc. Java/EqService/Session follows a connection
--              through its life.
--   Examples   concrete inputs for the theorems
--
-- A definition has the name of the method in small letters; a part of a long method is a
-- definition of its own, named for the label or the step in the code. Pointers are numbers, and
-- 0 is the null pointer. Objects that others refer to by pointer stand in tables by address: the
-- chunks in a heap, the connections of a stack in its world. A stack calls its connections, a
-- connection calls its chunk manager, and a handler calls the proactor and the stack. A service
-- builds the stack, the demultiplexers and the proactor, and starts a thread for each queue. A
-- Java object holds its native service and its pool; what the native methods call on it is kept
-- as a list of upcalls.
--
-- Bounds. Unsigned counters wrap at 2 ^ 64, and the ids of ExternalChunkMgr at 2 ^ 32. A size
-- that passes through an int keeps its low 32 bits with the sign extended. Sizes and numbers
-- that the code passes as an int and never makes negative are natural numbers. All loops are
-- over lists or over a number of rounds that is known before, so no fuel is needed, but for two:
-- the loop over a completion queue runs over the readings that the clock will give, and the loop
-- that waits for buffers in the Java binding runs for a number of rounds. Where the pool grows,
-- one round more than there are buffers missing is enough. An index past the ten completion
-- queues of a stack is a fault.
--
-- Parameters. Libfabric, epoll, std::thread, and malloc, which also stands for allocateDirect,
-- are one parameter, and the clock is the list of its readings. Parameters, too, are the free
-- store of boost::pool, with the laws that its documentation states, what is read of an fi_info
-- or of an event, and the bytes of an endpoint's name. A value that the code leaves
-- uninitialised is a parameter as well.
--
-- Threads. A thread of ThreadWrapper is a step relation of its own, with a flag that others set;
-- the methods of a service run one at a time, and a call that waits for a thread is taken to
-- come back.
--
-- Not modelled. Locks and condition variables, since each method is one step here; the texts of
-- addresses, the log to stderr, and plain getters. Of the Java binding, the lookups of ids and
-- classes, exceptions in Java, and what the Java objects do with the upcalls. The branches for
-- macOS, and the programs of examples and tests, are not part of this development.
pub mod Base
pub mod Fabric
pub mod Chunk
pub mod Msg
pub mod Event
pub mod External
pub mod Rdm
pub mod Service
pub mod Java
pub mod Examples
