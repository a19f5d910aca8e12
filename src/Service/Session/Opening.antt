-- ===== src/Service/Session/Opening.antt =====
-- What `connect` of a client comes to.
use hpnl.Base.{ℕ, ◌≡◌, ◌≢◌, some, true, ◌∷◌, ℤ, failed, success, minus_one}
use hpnl.Base.StdMap.{StdMap, lookup}
use hpnl.Base.Run.{ok}
use hpnl.Fabric.{Call, Lib, Obj}
use hpnl.Chunk.{ChunkMgr, ChunkMgrLaws}
use hpnl.Msg
use hpnl.Msg.Connection.{MsgConnection, ConStatus}
use hpnl.Msg.Connection.Io.{Infos}
use hpnl.Msg.Stack.{MsgStack}
use hpnl.Msg.Stack.Table
use hpnl.Msg.Stack.Table.Dialled.{Outcome, queue_given, resolved}
use hpnl.Rdm.Connection.{Names}
use hpnl.Event.Proactor.{EqHandler, register_handler}
use hpnl.Service.{Service, EqDemultiplexer, msg_stack, on_reactor}
use hpnl.Service.Session.{Serv, InSession, inner, outer}

module _ {G : Type 0} (lib : Lib) (mgr : ChunkMgr G) (infos : Infos) (names : Names) where
  -- The handler of an event queue with the callbacks of a service, but for the new one at `a`.
  abbrev pub handler_of : (eq a : ℕ) → Service → EqHandler
  handler_of eq a v = record {
    eq = eq;
    recv_callback = v.recv_callback;
    send_callback = v.send_callback;
    read_callback = v.read_callback;
    write_callback = v.write_callback;
    accept_request_callback = a;
    connected_callback = v.connected_callback;
    shutdown_callback = v.shutdown_callback;
  }

  module _ (laws : ChunkMgrLaws mgr) (k : MsgStack) (d : EqDemultiplexer)
      (handlers : StdMap EqHandler) (q addr port junk : ℕ) (s : Serv G) where
    -- What the stack's `connect` has come to.
    abbrev Called : ℕ → Obj MsgStack (Msg.Stack.World G) → Type 0
    Called eq u = Outcome lib mgr infos laws (inner k s) addr port s.self.buf_mgr junk q eq u

    -- The handler that is registered once the stack has come to `u`, and the service then.
    abbrev registered : (eq : ℕ) → Obj MsgStack (Msg.Stack.World G) → EqHandler
    registered eq u = handler_of eq (lib u.trace Call.new).out s.self

    abbrev ready : Obj MsgStack (Msg.Stack.World G) → Serv G
    ready u = record (outer s u) {
      self = record s.self {
        stack = msg_stack u.self;
        accept_request_callback = (lib u.trace Call.new).out;
      };
      trace = Call.new ∷ u.trace;
    }

    -- The stack gives no connection, and the result is -1; or it gives one, and the registration of its
    -- handler fails, with the result; or the connection, which waits to be established, is open under
    -- the service's handler, in the stack's and in the proactor's table, and the result is 0.
    pub data Opens : ℤ → Serv G → Type 0 where
      not_connected :
          (u : Obj MsgStack (Msg.Stack.World G)) → Called 0 u → Opens minus_one (outer s u)
      not_registered :
          {r : ℤ} {t : Serv G} (eq : ℕ) (u : Obj MsgStack (Msg.Stack.World G))
          → Called eq u
          → eq ≢ 0
          → on_reactor (register_handler lib (registered eq u)) (ready u) ≡ ok r t
          → failed r ≡ true
          → Opens r t
      opens :
          {t : Serv G} (eq p : ℕ) (c : MsgConnection) (u : Obj MsgStack (Msg.Stack.World G))
          → Called eq u
          → c.con_eq ≡ eq
          → c.status ≡ ConStatus.connect_req
          → (session : InSession (registered eq u) p c t)
          → lookup eq session.handlers ≡ some (registered eq u)
          → Opens success t

    -- The queue that fi_eq_open gives in this call, and the address that `new` gives.
    abbrev queue : ℕ
    queue = (queue_given lib mgr infos laws (inner k s) addr port).out

    abbrev address : ℕ
    address = (lib (resolved lib mgr infos laws (inner k s) addr port).trace Call.new).out
