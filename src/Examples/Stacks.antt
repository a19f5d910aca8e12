-- ===== src/Examples/Stacks.antt =====
-- Stacks and connections at concrete inputs.
use hpnl.Base.{◌≡◌, refl, [], ◌∷◌, arith, true, false}
use hpnl.Base.StdMap.{lookup}
use hpnl.Base.Run.{Returns, ◌>>=◌}
use hpnl.Fabric.{Call, Obj}
use hpnl.Fabric.Handles.{Accounted, opened, closed}
use hpnl.Chunk.{Mem}
use hpnl.Chunk.External.{ExternalChunkMgr, external_chunk_mgr}
use hpnl.Msg.Connection.{MsgConnection, open_endpoint}
use hpnl.Msg.Connection.Open.{Opened, open_endpoint-Opened}
use hpnl.Msg.Stack.{init, construct}
use hpnl.Msg.Stack.Cleanup.{SetUp}
use hpnl.Msg.Stack.Setup.{init-SetUp}
use hpnl.Msg.Stack.Table.Accepted.{Accepted}
use hpnl.Msg.Stack.Rma.{reg_rma_buffer, get_rma_chunk}
use hpnl.Msg.Stack.Rma.Lookup.{Registers, reg_rma_buffer-Registers, get_rma_chunk-forgets}
use hpnl.Examples.{works, no_queues, memory, connection, world, stack_state}

init-SetUp_example : Returns (SetUp no_queues external_chunk_mgr) (
    init no_queues external_chunk_mgr
      (record { self = construct 2 1 true false; env = world; trace = [] }))
init-SetUp_example = init-SetUp no_queues external_chunk_mgr 2 1 true false world (omega arith)

reg_rma_buffer-Registers_example :
    Returns
      (Registers works external_chunk_mgr 1000 64 6 stack_state)
      (reg_rma_buffer works external_chunk_mgr 1000 64 6 stack_state)
unfolding lookup
reg_rma_buffer-Registers_example =
    reg_rma_buffer-Registers works external_chunk_mgr 1000 64 6 stack_state refl

get_rma_chunk-forgets_example :
    Returns
      (λ found _. found ≡ 0)
      ((do
        _ ← get_rma_chunk works external_chunk_mgr 6
        _ ← reg_rma_buffer works external_chunk_mgr 1000 64 6
        get_rma_chunk works external_chunk_mgr 6)
        stack_state)
unfolding lookup
get_rma_chunk-forgets_example =
    get_rma_chunk-forgets works external_chunk_mgr 1000 64 6 stack_state refl

-- A connection that is not open, and one that is, after the calls that opened it.
abbrev fresh : Obj MsgConnection (Mem ExternalChunkMgr)
fresh = record { self = record connection { ep = 0; con_eq = 0 }; env = memory; trace = [] }

nothing_held : Accounted works [] []
unfolding opened closed
nothing_held = record { balance = λ h ne. omega arith }

open_endpoint-Opened_example :
    Returns (Opened works external_chunk_mgr []) (open_endpoint works external_chunk_mgr fresh)
open_endpoint-Opened_example =
    open_endpoint-Opened works external_chunk_mgr [] fresh refl refl nothing_held

abbrev live : Obj MsgConnection (Mem ExternalChunkMgr)
live = record {
  self = record connection { ep = 3; con_eq = 2; info = 1 };
  env = memory;
  trace = Call.endpoint 2 1 ∷ Call.eq_open 1 ∷ Call.getinfo 0 0 1 0 ∷ [];
}

live-Accounted : Accounted works live.trace (3 ∷ 2 ∷ 1 ∷ [])
unfolding opened closed
live-Accounted = record { balance = λ h ne. ground arith }
