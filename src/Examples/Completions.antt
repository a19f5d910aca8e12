-- ===== src/Examples/Completions.antt =====
-- Completions, in the library and in the Java binding, at concrete inputs.
use hpnl.Base.{◌≡◌, refl, [], ◌∷◌, true, false, arith, pos, success}
use hpnl.Base.StdMap.{lookup}
use hpnl.Base.Run.{Returns}
use hpnl.Fabric.{Call, Lib, Obj}
use hpnl.Chunk.External.{ExternalChunkMgr, external_chunk_mgr}
use hpnl.Event.Completion.{CqDemultiplexer, Entry}
use hpnl.External.Completion.{ExternalCqDemultiplexer, Report, is_time, on_entry}
use hpnl.External.Completion.Agreement.{Agrees, on_entry-Agrees}
use hpnl.External.CqService.{ExternalCqService, Slot}
use hpnl.Java.CqService.{wait_cq_event}
use hpnl.Java.CqService.Received.{IsReceived, received, wait_cq_event-IsReceived}
use hpnl.Java.CqService.Received
use hpnl.Msg.Connection.{MsgConnection, ConStatus}
use hpnl.Msg.Stack.{World}
use hpnl.Examples.{works, infos, connection, stack, world, heap}
use hpnl.Examples.Bindings.{object}

-- Each read of a completion queue gives a completion.
abbrev pub completes : Lib
completes t (Call.cq_read _) = record { ret = pos 1; out = 0 }
completes t c = works t c

-- A receive into the chunk 7, of five bytes.
abbrev pub receive : Entry
receive = record {
  op_context = 7;
  is_recv = true;
  is_send = false;
  is_read = false;
  is_write = false;
  len = 5;
}

abbrev connected : MsgConnection
connected = record connection {
  status = ConStatus.connected;
  recv_callback = 90;
  send_callback = 91;
}

abbrev busy_world : World ExternalChunkMgr
busy_world = record {
  mem = record world.mem { heap = λ p. record (heap p) { con = 50 } };
  cons = (50, connected) ∷ [];
}

abbrev queue : ExternalCqDemultiplexer
queue = record { stack = stack; cq = 3; start = 0; end = 0; fabric = 1; fd = 0; event_ptr = 3 }

abbrev queues : ExternalCqService
queues = record { worker_num = 1; stack = stack; cq_demultiplexer = Slot.live queue ∷ [] }

wait_cq_event-IsReceived_example :
    Returns
      (λ o t.
        IsReceived completes infos object 7 50 connected
          (received connected 7 7 5
            (record { code = success; eq = 0; ck = 0; buffer_id = 0; block_buffer_size = 0 }))
          busy_world
          (Call.cq_read 3 ∷ [])
          o
          t)
      (wait_cq_event completes infos
        (λ _. receive)
        0
        0
        0
        0
        (Received.running object queues busy_world []))
unfolding lookup is_time
wait_cq_event-IsReceived_example =
    wait_cq_event-IsReceived completes infos (λ _. receive) 7 50 connected receive queue busy_world
      [] refl (record { some_entry = refl; not_none = refl; entry = refl })
      (record { context = refl; recv = refl }) (ground arith) refl (ground arith) refl (omega arith)
      object queues 0 0 0 0 refl

-- What the library polls, and the variables of a caller in the binding.
abbrev polled : Obj CqDemultiplexer (World ExternalChunkMgr)
polled = record {
  self = record { stack = stack; work_num = 0; cq = 3; fabric = 1; fd = 0; event_ptr = 3 };
  env = busy_world;
  trace = [];
}

abbrev caller : Report
caller = record { code = success; eq = 0; ck = 0; buffer_id = 0; block_buffer_size = 0 }

on_entry-Agrees_example :
    Returns
      (λ o t.
        Agrees works external_chunk_mgr infos receive connected polled o × (t.env ≡ busy_world))
      (on_entry works receive caller (record { self = queue; env = busy_world; trace = [] }))
unfolding lookup
on_entry-Agrees_example =
    on_entry-Agrees works external_chunk_mgr infos receive connected polled (ground arith) refl
      (record { self = queue; env = busy_world; trace = [] }) caller refl (ground arith)
      (ground arith)
