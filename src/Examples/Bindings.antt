-- ===== src/Examples/Bindings.antt =====
-- The Java binding at concrete inputs.
use hpnl.Base.{ℕ, refl, [], none, some, false, arith}
use hpnl.Base.StdMap.{lookup}
use hpnl.Base.Run.{Returns}
use hpnl.External.EqService.{ExternalEqService}
use hpnl.External.Events.{ExternalEqDemultiplexer}
use hpnl.Java.Binding.{Binding}
use hpnl.Java.EqService.{EqBinding, native_connect, shutdown1}
use hpnl.Java.EqService.Closing.{running, IsShut, shutdown1-IsShut}
use hpnl.Java.EqService.Connecting.{Answered, native_connect-Answered}
use hpnl.Java.EqService.Session.{Answer, native_connect-live}
use hpnl.Java.MemPool.{MemPool}
use hpnl.Msg.Connection
use hpnl.Msg.Stack
use hpnl.Examples.Services.{works-opens}
use hpnl.Examples.{works, infos, connection, stack, world}

-- A pool that grows by so many buffers.
abbrev pool : ℕ → MemPool
pool n = record { buffer_size = 16; next_buffer_num = n; seq_id = 0; buffer_map = [] }

abbrev pub object : {S : Type 0} → Binding S
object = record { native_handle = none; buffer_pool = none; upcalls = [] }

abbrev pub demultiplexer : ExternalEqDemultiplexer
demultiplexer = record { stack = stack; event_ptr = 0; fabric = 1; fid_map = [] }

abbrev pub service : ExternalEqService
service = record {
  eq_demultiplexer = some demultiplexer;
  worker_num = 2;
  buffer_num = 2;
  is_server = false;
}

abbrev client : ℕ → EqBinding
client n = running (record object { buffer_pool = some (pool n) }) service demultiplexer world []

native_connect-Answered_example :
    Returns
      (Answered works infos 5 6 0 4 demultiplexer)
      (native_connect works infos 3 5 6 0 (client 1))
unfolding Stack.construct
native_connect-Answered_example =
    native_connect-Answered works infos 5 6 0 4 demultiplexer works-opens (ground arith) refl 2
      service (pool 1) (client 1) refl refl refl refl (ground arith) (omega arith)

shutdown1-IsShut_example :
    Returns
      (λ _ t. IsShut works infos object service 60 50 connection demultiplexer world [] t)
      (shutdown1 works infos 60 (running object service demultiplexer world []))
unfolding lookup Connection.construct
shutdown1-IsShut_example =
    shutdown1-IsShut works infos object service 60 50 connection demultiplexer world [] refl refl
      (omega arith) (ground arith)

-- A demultiplexer whose stack has no connections yet.
abbrev unconnected : ExternalEqDemultiplexer
unconnected = record demultiplexer { stack = record stack { con_map = [] } }

native_connect-live_example : Returns (Answer works infos 5 6 0 4 unconnected 2) (
    native_connect works infos 3 5 6 0
      (running (record object { buffer_pool = some (pool 1) }) service unconnected world []))
unfolding Stack.construct lookup
native_connect-live_example =
    native_connect-live works infos 5 6 0 4 unconnected (λ t e. absurd (omega (arith, e))) 2
      (record service { eq_demultiplexer = some unconnected }) (pool 1)
      (running (record object { buffer_pool = some (pool 1) }) service unconnected world [])
      works-opens (ground arith) refl refl refl refl refl (ground arith) (omega arith)
