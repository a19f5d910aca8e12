-- ===== src/Examples/Events.antt =====
-- Handlers of events at concrete inputs.
use hpnl.Base.{ℕ, [], ◌∷◌, false, negsuc, ◌≡◌, ◌≢◌, refl, arith, success}
use hpnl.Base.StdMap.{lookup, has}
use hpnl.Base.Run.{Returns, fault}
use hpnl.Fabric.{Call, Lib, Obj}
use hpnl.Chunk.External.{ExternalChunkMgr, external_chunk_mgr}
use hpnl.Msg.Stack.{World}
use hpnl.Event.Completion.{CqDemultiplexer, Entry, Poll, poll}
use hpnl.Event.Completion
use hpnl.Event.Completion.Polling.{poll-done}
use hpnl.Msg.Connection.{construct}
use hpnl.Msg.Connection.Io.{Infos}
use hpnl.Event.Proactor.{EqHandler, new_handler}
use hpnl.Event.Handler.{on_close, on_connected}
use hpnl.Event.Lifecycle.{IsOpen, IsClosed, on_close-IsClosed}
use hpnl.Event.Establish.{Connected, on_connected-Connected, on_connected_fault}
use hpnl.Examples.{works, infos, connection, handler, reactor, stack, world}

reactor-IsOpen : IsOpen handler 50 connection reactor
unfolding lookup has new_handler
reactor-IsOpen = record {
  some_eq = ground arith;
  some_con = ground arith;
  handled = refl;
  known = refl;
  there = refl;
}

on_close-IsClosed_example :
    Returns
      (λ r t. (r ≡ success) × IsClosed handler 50 connection reactor t)
      (on_close works external_chunk_mgr infos handler reactor)
on_close-IsClosed_example =
    on_close-IsClosed works external_chunk_mgr infos handler 50 connection reactor reactor-IsOpen

on_connected-Connected_example :
    Returns
      (λ r t.
        (r ≡ success)
        × (t.self ≡ reactor.self)
        × Connected handler 50 connection t
        × ((q : ℕ) → q ≢ 50 → lookup q t.env.cons ≡ lookup q reactor.env.cons))
      (on_connected works external_chunk_mgr infos handler reactor)
unfolding construct
on_connected-Connected_example =
    on_connected-Connected works external_chunk_mgr infos handler 50 connection reactor
      reactor-IsOpen (ground arith) (ground arith)

-- No address of an fi_info is there.
abbrev no_addresses : Infos
no_addresses = record { dest_addr = λ i. 0; src_addr = λ i. 0; port = λ a. 0 }

on_connected_fault_example :
    on_connected works external_chunk_mgr no_addresses handler reactor ≡ fault
on_connected_fault_example =
    on_connected_fault works external_chunk_mgr no_addresses handler 50 connection reactor
      reactor-IsOpen refl

abbrev second : EqHandler
second = new_handler 70

-- The completion queues stay empty.
abbrev empty_queues : Lib
empty_queues t (Call.cq_read _) = record { ret = negsuc 10; out = 0 }
empty_queues t c = works t c

abbrev poller : Obj CqDemultiplexer (World ExternalChunkMgr)
poller = record { self = Completion.construct stack 0 0; env = world; trace = [] }

abbrev no_entries : ℕ → Entry
no_entries i = record {
  op_context = i;
  is_recv = false;
  is_send = false;
  is_read = false;
  is_write = false;
  len = 0;
}

poll-done_example :
    Returns
      (λ r t. (r ≡ Poll.done) × (t.self ≡ poller.self) × (t.env ≡ poller.env))
      (poll empty_queues external_chunk_mgr infos no_entries 100 100 (110 ∷ 120 ∷ 130 ∷ []) poller)
poll-done_example =
    poll-done empty_queues external_chunk_mgr infos no_entries 100 100 130 2 (110 ∷ 120 ∷ 130 ∷ [])
      poller (λ t. refl) refl (omega arith) (omega arith)
