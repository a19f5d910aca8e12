-- ===== src/Examples.antt =====
-- Inputs at which the theorems are applied: libraries, memories, and a stack with one connection.
pub mod Store
pub mod Chunks
pub mod Stacks
pub mod Events
pub mod Peers
pub mod Services
pub mod Externals
pub mod Ends
pub mod Bindings
pub mod Requests
pub mod Completions
use hpnl.Base.{◌+◌, ◌∷◌, [], true, false, pos, success, minus_one, length, replicate}
use hpnl.Fabric.{Call, Lib, Obj}
use hpnl.Chunk.{new_chunk, Heap, Mem}
use hpnl.Chunk.External.{ExternalChunkMgr, State, empty}
use hpnl.Msg.Connection.{MsgConnection}
use hpnl.Msg.Connection
use hpnl.Msg.Connection.Io.{Infos}
use hpnl.Msg.Stack.{MsgStack, World}
use hpnl.Msg.Stack
use hpnl.Event.Proactor.{EqHandler, Reactor, new_handler}

-- Every call succeeds, with a handle of its own; one address is inserted at a time.
abbrev pub works : Lib
works t (Call.av_insert _ _) = record { ret = pos 1; out = length t + 1 }
works t _ = record { ret = success; out = length t + 1 }

-- No completion queue opens.
abbrev pub no_queues : Lib
no_queues t (Call.cq_open _) = record { ret = minus_one; out = 0 }
no_queues t c = works t c

-- The chunk at address `p` has the id `p`.
abbrev pub heap : Heap
heap p = record new_chunk { buffer_id = p; capacity = 16; mr = p + 100 }

abbrev pub manager : ExternalChunkMgr
manager = record empty { bufs = 7 ∷ 8 ∷ [] }

abbrev pub manager_state : State
manager_state = record { self = manager; env = heap; trace = [] }

abbrev pub memory : Mem ExternalChunkMgr
memory = record { heap = heap; mgr = manager }

abbrev pub infos : Infos
infos = record { dest_addr = λ i. i; src_addr = λ i. i; port = λ a. a }

-- A connection at address 50, with the info 9, on the event queue 60.
abbrev pub connection : MsgConnection
connection = record (Connection.construct 50 1 9 2 3 true 1 0 false 0) { con_eq = 60; ep = 61 }

abbrev pub world : World ExternalChunkMgr
world = record { mem = memory; cons = (50, connection) ∷ [] }

-- A stack with two queues, and its third turn.
abbrev pub stack : MsgStack
stack = record (Stack.construct 2 1 true false) {
  cqs = 3 ∷ 4 ∷ replicate 8 0;
  con_map = (60, 50) ∷ [];
  rma_chunk_map = (5, 7) ∷ [];
  seq_num = 3;
  initialized = true;
}

abbrev pub stack_state : Obj MsgStack (World ExternalChunkMgr)
stack_state = record { self = stack; env = world; trace = [] }

abbrev pub handler : EqHandler
handler = new_handler 60

abbrev pub reactor : Obj Reactor (World ExternalChunkMgr)
reactor = record {
  self = record { event_map = (60, handler) ∷ []; event_ptr = 0; fabric = 1; stack = stack };
  env = world;
  trace = [];
}
