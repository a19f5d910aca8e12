-- ===== src/Examples/Requests.antt =====
-- Buffers and datagrams of the Java binding, and the ends of stacks and connections, at concrete
-- inputs.
use hpnl.Base.{
  ◌+◌, ◌*◌, ◌≡◌, ◌≤◌, ◌^◌, ◌⊎◌, ◌↔◌, refl, [], ◌∷◌, none, true, false, arith, success, count, take,
  replicate, failed,
}
use hpnl.Base.StdMap.{lookup, assign, subscript}
use hpnl.Base.Run.{fault, Returns, ◌>>=◌}
use hpnl.Fabric.{Call, Obj}
use hpnl.Fabric.Handles.{closed}
use hpnl.Chunk.{Mem, update}
use hpnl.Chunk.External.{ExternalChunkMgr, external_chunk_mgr}
use hpnl.Event.Completion.{Entry}
use hpnl.Event.Proactor.{is_negative}
use hpnl.External.RdmService.{ExternalRdmService}
use hpnl.Java.EqService.{reg_rma_buffer}
use hpnl.Java.EqService.Closing.{running}
use hpnl.Java.EqService.Remote.{reg_rma_buffer-Answer, registration}
use hpnl.Java.RdmService
use hpnl.Java.RdmService.Bare
use hpnl.Java.RdmService.Bare.{send_buf-wait_event}
use hpnl.Java.RdmService.Received.{IsReceived, wait_event-IsReceived}
use hpnl.Msg.Stack.{open_cqs}
use hpnl.Msg.Stack.Broken.{in_init, open_cqs-destruct}
use hpnl.Msg.Stack.Cleanup.{single}
use hpnl.Msg.Stack.Table.{destruct}
use hpnl.Rdm.Connection.{RdmConnection, send_buf}
use hpnl.Rdm.Contexts.{posted_context}
use hpnl.Rdm.External.{ExternalRdmCqDemultiplexer}
use hpnl.Rdm.External
use hpnl.Rdm.Stack
use hpnl.Examples.{works, no_queues, infos, stack, world, heap}
use hpnl.Examples.Bindings.{object, service, demultiplexer}
use hpnl.Examples.Completions.{completes, receive}
use hpnl.Examples.Peers.{names, node}

reg_rma_buffer-Answer_example :
    ((failed (registration works infos object service demultiplexer world [] (λ h. h) 64 16 9).ret
        ≡ true)
      × (reg_rma_buffer works infos (λ h. h) 64 16 9 (running object service demultiplexer world [])
          ≡ fault))
    ⊎ ((failed (registration works infos object service demultiplexer world [] (λ h. h) 64 16 9).ret
          ≡ false)
        × Returns
            (λ r _. (is_negative r ≡ true) ↔ (
              2 ^ 63
              ≤ (registration works infos object service demultiplexer world []
                  (λ h. h)
                  64
                  16
                  9).out))
            (reg_rma_buffer works infos
              (λ h. h)
              64
              16
              9
              (running object service demultiplexer world [])))
reg_rma_buffer-Answer_example =
    reg_rma_buffer-Answer works infos object service demultiplexer world [] (λ h. h) 64 16 9 refl
      (ground arith) (ground arith) (ground arith) (λ _. ground arith)

-- Two queues are open, and the third does not open.
open_cqs-destruct_example :
    Returns
      (λ _ t.
        closed 8 t.trace
        ≡ closed 8 (Call.new ∷ [])
          + count 8 (
              single no_queues external_chunk_mgr
                (in_init 3 1 true false 2 3 4 5 6 (7 ∷ 8 ∷ replicate 8 0)))
          + 2 * count 8 (take 3 (7 ∷ 8 ∷ replicate 8 0)))
      ((open_cqs no_queues external_chunk_mgr 1 2 >>= λ _.
          destruct no_queues external_chunk_mgr infos)
        (record {
          self = in_init 3 1 true false 2 3 4 5 6 (7 ∷ 8 ∷ replicate 8 0);
          env = world;
          trace = Call.new ∷ [];
        }))
open_cqs-destruct_example =
    open_cqs-destruct no_queues external_chunk_mgr infos 8 (ground arith) 3 1 true false 2 3 4 5 6
      (7 ∷ 8 ∷ replicate 8 0) (omega arith) 0 2 world (Call.new ∷ []) (omega arith) refl

-- A completion of the send that `sendBuf` of the node has posted with the context 1.
abbrev send : Entry
send = record {
  op_context = 1;
  is_recv = false;
  is_send = true;
  is_read = false;
  is_write = false;
  len = 6;
}

abbrev peers : ExternalRdmCqDemultiplexer
peers = record {
  stack = Stack.construct 1 true true;
  cq = 3;
  start = 0;
  end = 0;
  fabric = 1;
  fd = 0;
  event_ptr = 3;
}

abbrev peer_service : ExternalRdmService
peer_service = record { demultiplexer = none; buffer_num = 1; is_server = true }

-- The node after `sendBuf`.
abbrev sent : Obj RdmConnection (Mem ExternalChunkMgr)
sent = record node {
  self = record node.self { address_map = (2, 0) ∷ [] };
  env = record node.env { heap = update heap 1 (record (heap 1) { ctx_chunk = 0 }) };
  trace = Call.send 5 11 6 0 1 ∷ Call.av_straddr 6 3 ∷ Call.malloc 64 ∷ [];
}

send_buf-wait_event_example :
    (posted_context sent.trace ≡ 1)
    × (RdmService.wait_event completes names
          (λ _. send)
          0
          0
          (Bare.running object peer_service peers (record { mem = sent.env; cons = [] }) [])
        ≡ fault)
unfolding send_buf External.is_time subscript assign lookup
send_buf-wait_event_example =
    send_buf-wait_event completes names 11 6 node sent success (λ _. send) 0 0 send object
      peer_service peers (record { mem = sent.env; cons = [] }) [] refl (ground arith) refl
      (record { busy = refl; some_entry = refl; not_none = refl; entry = refl })
      (record { context = refl; recv = refl; send = refl })

-- Each context has the chunk 7, of the node at 70.
abbrev listening : RdmService.Env
listening = record {
  mem = record node.env { heap = λ p. record (heap p) { con = 70; ctx_chunk = 7 } };
  cons = (70, node.self) ∷ [];
}

wait_event-IsReceived_example :
    Returns
      (λ r t.
        IsReceived completes names object 7 70 node.self 5 listening (Call.cq_read 3 ∷ []) r t)
      (RdmService.wait_event completes names
        (λ _. receive)
        0
        0
        (Bare.running object peer_service peers listening []))
unfolding lookup External.is_time
wait_event-IsReceived_example =
    wait_event-IsReceived completes names object 7 70 node.self (λ _. receive) 7 0 0 receive peers
      listening [] (record { busy = refl; some_entry = refl; not_none = refl; entry = refl })
      (record { context = refl; recv = refl }) (ground arith) refl peer_service (ground arith) refl
      refl
