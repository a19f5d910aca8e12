-- ===== src/Examples/Ends.antt =====
-- The ends of chunk managers and services, and the chunks of completions, at concrete inputs.
use hpnl.Base.{
  ℕ, List, zero, suc, get_elem?, ◌<◌, ◌+◌, ◌*◌, ◌≡◌, ◌≢◌, ◌≤◌, ◌↔◌, refl, [], ◌∷◌, none, some, true,
  false, arith, success,
}
use hpnl.Base.StdMap.{lookup}
use hpnl.Base.Run.{Returns, ok, ◌>>◌}
use hpnl.Fabric.{Obj}
use hpnl.Chunk.{Heap, new_chunk}
use hpnl.Chunk.External.{ExternalChunkMgr, external_chunk_mgr}
use hpnl.Event.Codes.{EventType, value}
use hpnl.Event.Completion.{Entry}
use hpnl.External.Completion
use hpnl.External.Completion.Sent.{IsSend, send-reported}
use hpnl.External.CqService.{ExternalCqService, Slot, init}
use hpnl.External.CqService.Broken.{Outcome, init-Outcome}
use hpnl.External.RdmService.{ExternalRdmService, is_buffer_enough}
use hpnl.External.RdmService.Buffers.{Buffer, set_buffers, is_buffer_enough_iff}
use hpnl.Msg.Connection.Io.{send}
use hpnl.Msg.Connection
use hpnl.Msg.Stack.{World}
use hpnl.Rdm.Connection.{decode_chunk}
use hpnl.Rdm.Connection.Codec.{decode-short}
use hpnl.Rdm.External.{ExternalRdmCqDemultiplexer, Report, wait_event}
use hpnl.Rdm.External.Clock.{InOrder, wait_event-InOrder}
use hpnl.Rdm.Stack
use hpnl.Examples.{works, infos, connection, stack, world, memory}
use hpnl.Examples.Peers.{names}

decode-short_example :
    decode_chunk (1 ∷ 2 ∷ []) (record new_chunk { size = 1; bytes = 7 ∷ 8 ∷ 9 ∷ [] }) ≡ none
decode-short_example =
    decode-short (1 ∷ 2 ∷ []) (record new_chunk { size = 1; bytes = 7 ∷ 8 ∷ 9 ∷ [] }) (omega arith)
      (omega arith) (omega arith)

-- A service with two queues.
abbrev cq_service : Obj ExternalCqService (World ExternalChunkMgr)
cq_service = record {
  self = record {
    worker_num = 2;
    stack = stack;
    cq_demultiplexer = Slot.null ∷ Slot.null ∷ Slot.null ∷ [];
  };
  env = world;
  trace = [];
}

stack_queues : (j : ℕ) → j < 2 → (q : ℕ) × (get_elem? stack.cqs j ≡ some q) × (q ≢ 0)
stack_queues zero l = (3, refl, ground arith)
stack_queues (suc zero) l = (4, refl, ground arith)
stack_queues (suc (suc j)) l = absurd (omega arith)

init-Outcome_example : Returns (Outcome works 2) (init works 0 cq_service)
init-Outcome_example = init-Outcome works 0 cq_service (omega arith) stack_queues

abbrev rdm_service : Obj ExternalRdmService (Stack.World ExternalChunkMgr)
rdm_service = record {
  self = record { demultiplexer = none; buffer_num = 2; is_server = true };
  env = record { mem = memory; cons = [] };
  trace = [];
}

abbrev buffers : List Buffer
buffers =
    record { address = 100; size = 8; id = 0 } ∷ record { address = 108; size = 8; id = 1 } ∷ []

is_buffer_enough_iff_example :
    Returns
      (λ b t. (t.self ≡ rdm_service.self) × ((b ≡ true) ↔ (2 * 2 ≤ 2 + 2)))
      ((set_buffers works names buffers >> is_buffer_enough works external_chunk_mgr names)
        rdm_service)
is_buffer_enough_iff_example = is_buffer_enough_iff works names buffers rdm_service (omega arith)

-- Each completion is a send with a context.
abbrev sends : ℕ → Entry
sends i = record {
  op_context = 7;
  is_recv = false;
  is_send = true;
  is_read = false;
  is_write = false;
  len = 0;
}

abbrev reader : Obj ExternalRdmCqDemultiplexer Heap
reader = record {
  self = record {
    stack = Stack.construct 2 false true;
    cq = 3;
    start = 5;
    end = 8;
    fabric = 1;
    fd = 2;
    event_ptr = 3;
  };
  env = memory.heap;
  trace = [];
}

reader-InOrder : InOrder 10 reader.self
reader-InOrder = record { start = omega arith; end = omega arith }

abbrev nothing : Report
nothing = record { code = success; ck = 0; block_buffer_size = 0 }

wait_event-InOrder_example :
    Returns (λ _ t. InOrder 12 t.self) (wait_event works sends 10 12 nothing reader)
wait_event-InOrder_example =
    wait_event-InOrder works sends (λ i. ground arith) 10 12 nothing reader (omega arith)
      reader-InOrder

send-reported_example :
    Returns
      (λ _ t.
        (e : Entry) (old : Completion.Report)
        (d : Obj Completion.ExternalCqDemultiplexer (World ExternalChunkMgr))
        → d.env.mem ≡ t.env
        → lookup 50 d.env.cons ≡ some connection
        → IsSend 7 e
        → Completion.on_entry works e old d
          ≡ ok
              (Completion.Outcome.reported
                (record old { code = value EventType.send_event; eq = 60; ck = 7; buffer_id = 7 }))
              (record d { self = record d.self { end = d.self.start } }))
      (send works external_chunk_mgr infos 7
        (record { self = connection; env = memory; trace = [] }))
unfolding Connection.construct
send-reported_example =
    send-reported works external_chunk_mgr infos 7
      (record { self = connection; env = memory; trace = [] }) (ground arith) (ground arith)
