-- ===== src/Examples/Services.antt =====
-- A client's service, its connection and its threads at concrete inputs.
use hpnl.Base.{[], ◌∷◌, some, true, false, ◌≡◌, ◌≤◌, ◌⊎◌, ◌+◌, refl, arith, pos}
use hpnl.Base.StdMap.{lookup, has}
use hpnl.Base.Run.{Returns, fault}
use hpnl.Chunk.External.{ExternalChunkMgr, external_chunk_mgr}
use hpnl.Msg.Stack
use hpnl.Msg.Stack.{MsgStack}
use hpnl.Msg.Connection
use hpnl.Event.Proactor.{new_handler}
use hpnl.Event.Thread.{Body, Place, Step, ends}
use hpnl.Event.Thread.Ending.{Steps, stop-ends}
use hpnl.Msg.Stack.Table.Dialled.{OpensQueues}
use hpnl.Service.{AnyStack, construct}
use hpnl.Service.Control.{start, shutdown, delete_threads}
use hpnl.Service.Control.Abort.{start-delete_threads}
use hpnl.Service.Control.Shutdown.{IsDone, DoneBelow, shutdown-delete_threads}
use hpnl.Service.Session.{Serv, IsUp, InSession}
use hpnl.Service.Session.Ending.{HasLived, live, live-IsOver}
use hpnl.Examples.{works, infos, connection, handler, stack, world}

-- The stack of a client with no connection yet.
abbrev client_stack : MsgStack
client_stack = record stack { con_map = []; is_server = false }

abbrev pub client : MsgStack → Serv ExternalChunkMgr
client k = record {
  self = record (construct 2 1 false) {
    stack = AnyStack.msg_stack k;
    eq_demultiplexer = some (record { event_ptr = 0; fabric = 1 });
    proactor = some ((60, handler) ∷ []);
    buf_mgr = true;
  };
  env = record { mem = world.mem; cons = world.cons; peers = [] };
  trace = [];
}

pub client-IsUp :
    (k : MsgStack) → IsUp k (record { event_ptr = 0; fabric = 1 }) ((60, handler) ∷ []) (client k)
client-IsUp k = record { stack = refl; demultiplexer = refl; proactor = refl }

-- In `works` the answers of fi_eq_open are numbered by the calls before them.
pub works-opens : OpensQueues works
works-opens t fabric good = ground arith

client-InSession : InSession handler 50 connection (client stack)
unfolding lookup has new_handler
client-InSession = record {
  k = stack;
  d = record { event_ptr = 0; fabric = 1 };
  handlers = (60, handler) ∷ [];
  up = client-IsUp stack;
  opened = record {
    some_eq = ground arith;
    some_con = ground arith;
    handled = refl;
    known = refl;
    there = refl;
  };
}

live-IsOver_example :
    Returns
      (HasLived works external_chunk_mgr infos handler 50 connection (client stack))
      (live works external_chunk_mgr infos handler (client stack))
unfolding Connection.construct
live-IsOver_example =
    live-IsOver works external_chunk_mgr infos handler 50 connection (client stack) client-InSession
      (ground arith) (ground arith)

-- The service with its threads running.
abbrev running : Serv ExternalChunkMgr
running = record (client stack) {
  self = record (client stack).self {
    eq_thread = some (record { handle = 11; done = false });
    cq_thread =
        some (record { handle = 12; done = false })
        ∷ some (record { handle = 13; done = false })
        ∷ [];
  };
}

shutdown-delete_threads_example :
    Returns
      (λ _ t.
        IsDone t.self.eq_thread
        × IsDone t.self.rdm_cq_thread
        × DoneBelow 2 t.self
        × Returns (λ _ _. Unit {0}) (delete_threads works t))
      (shutdown works running)
unfolding construct
shutdown-delete_threads_example = shutdown-delete_threads works running (omega arith)

-- A thread that is told to stop before its third call.
abbrev told : Body
told = record { place = Place.before; done = true; entries = 2 }

last_steps : Steps 3 told (record { place = Place.ended; done = true; entries = 3 })
unfolding ends
last_steps =
    Steps.step Step.call
      (Steps.step (Step.return (pos 0)) (Steps.step (Step.leave refl) Steps.rest))

stop-ends_example :
    (3 ≤ 3)
    × (3 ≤ 2 + 1)
    × ((Place.ended ≡ Place.ended)
        ⊎ ((u : Body) × Step (record { place = Place.ended; done = true; entries = 3 }) u))
stop-ends_example =
    stop-ends 3 told (record { place = Place.ended; done = true; entries = 3 }) refl last_steps

start-delete_threads_example :
    Returns (λ _ t. delete_threads works t ≡ fault) (start works (client stack))
unfolding construct
start-delete_threads_example =
    start-delete_threads works ((60, handler) ∷ []) (client stack) refl refl (omega arith)
      (λ t. ground arith)
