-- ===== src/Service/Session.antt =====
-- A client's connection in its service: the tables that it stands in, and what methods of the
-- proactor and the stack change for it.
pub mod Opening
pub mod Ending
pub mod Closing
use hpnl.Base.{ℕ, ◌≡◌, refl, some, sym, subst}
use hpnl.Base.StdMap.{StdMap}
use hpnl.Base.Run.{M, Returns, returns, Returns-bind, and_then, Run}
use hpnl.Fabric.{Obj}
use hpnl.Msg
use hpnl.Msg.Connection.{MsgConnection}
use hpnl.Msg.Stack.{MsgStack}
use hpnl.Msg.Stack.Table
use hpnl.Event.Proactor.{EqHandler, Reactor}
use hpnl.Event.Lifecycle.{IsOpen}
use hpnl.Service.{
  Service, World, EqDemultiplexer, msg_stack, on_msg, with_msg, on_reactor, with_reactor,
}

abbrev pub Serv : Type 0 → Type 0
Serv G = Obj Service (World G)

module _ {G : Type 0} where
  -- The service as its proactor and stack see it.
  abbrev pub view :
      MsgStack → EqDemultiplexer → StdMap EqHandler → Serv G → Obj Reactor (Msg.Stack.World G)
  view k d handlers s = record {
    self = record { event_map = handlers; event_ptr = d.event_ptr; fabric = d.fabric; stack = k };
    env = record { mem = s.env.mem; cons = s.env.cons };
    trace = s.trace;
  }

  -- The service has a stack for connections, a demultiplexer, and a proactor with a table.
  pub record IsUp (k : MsgStack) (d : EqDemultiplexer) (handlers : StdMap EqHandler) (s : Serv G)
      : Type 0 where
    pub stack : s.self.stack ≡ msg_stack k
    pub demultiplexer : s.self.eq_demultiplexer ≡ some d
    pub proactor : s.self.proactor ≡ some handlers

  -- In the service, the connection `c` at `p` is open under the handler.
  pub record InSession (h : EqHandler) (p : ℕ) (c : MsgConnection) (s : Serv G) : Type 0 where
    pub k : MsgStack
    pub d : EqDemultiplexer
    pub handlers : StdMap EqHandler
    pub up : IsUp k d handlers s
    pub opened : IsOpen h p c (view k d handlers s)

  -- A method of the proactor, and what comes of it.
  pub on_reactor-IsUp :
      {A : Type 0} {P : A → Obj Reactor (Msg.Stack.World G) → Type 0} (k : MsgStack)
      (d : EqDemultiplexer) (handlers : StdMap EqHandler)
      (m : M (Obj Reactor (Msg.Stack.World G)) A) (s : Serv G)
      → IsUp k d handlers s
      → Returns P (m (view k d handlers s))
      → Returns
          (λ a t.
            (k' : MsgStack) × (d' : EqDemultiplexer) × (handlers' : StdMap EqHandler) × IsUp k' d'
              handlers' t
            × P a (view k' d' handlers' t))
          (on_reactor m s)
  unfolding on_reactor with_reactor
  on_reactor-IsUp k d handlers m s up r =
      rw (up.stack, up.demultiplexer, up.proactor)
        (Returns-bind r λ a t p. returns (
          t.self.stack,
          record { event_ptr = t.self.event_ptr; fabric = t.self.fabric },
          t.self.event_map,
          record { stack = refl; demultiplexer = refl; proactor = refl },
          p,
        ))

  -- The stack's view of the service, and the service after a method of the stack.
  abbrev pub inner : MsgStack → Serv G → Obj MsgStack (Msg.Stack.World G)
  inner k s = record {
    self = k;
    env = record { mem = s.env.mem; cons = s.env.cons };
    trace = s.trace;
  }

  abbrev pub outer : Serv G → Obj MsgStack (Msg.Stack.World G) → Serv G
  outer s u = record {
    self = record s.self { stack = msg_stack u.self };
    env = record s.env { mem = u.env.mem; cons = u.env.cons };
    trace = u.trace;
  }

  -- A method of the stack, and what comes of it.
  pub on_msg-bind :
      {A B : Type 0} {P : A → Obj MsgStack (Msg.Stack.World G) → Type 0} {Q : B → Serv G → Type 0}
      (k : MsgStack) (m : M (Obj MsgStack (Msg.Stack.World G)) A) (s : Serv G)
      (f : A → Serv G → Run B (Serv G))
      → s.self.stack ≡ msg_stack k
      → Returns P (m (inner k s))
      → ((a : A) (u : Obj MsgStack (Msg.Stack.World G)) → P a u → Returns Q (f a (outer s u)))
      → Returns Q (and_then (on_msg m s) f)
  unfolding on_msg with_msg
  on_msg-bind {Q = Q} k m s f e r next =
      let mid : Returns (λ a t. Returns Q (f a t)) (with_msg (msg_stack k) m s) =
        Returns-bind r λ a u p. returns (next a u p) in
      subst (λ stack. Returns Q (and_then (with_msg stack m s) f)) (sym e)
        (Returns-bind mid λ a t n. n)

  -- A method of the stack that comes last.
  pub on_msg-Returns :
      {A : Type 0} {P : A → Obj MsgStack (Msg.Stack.World G) → Type 0} {Q : A → Serv G → Type 0}
      (k : MsgStack) (m : M (Obj MsgStack (Msg.Stack.World G)) A) (s : Serv G)
      → s.self.stack ≡ msg_stack k
      → Returns P (m (inner k s))
      → ((a : A) (u : Obj MsgStack (Msg.Stack.World G)) → P a u → Q a (outer s u))
      → Returns Q (on_msg m s)
  unfolding on_msg with_msg
  on_msg-Returns {Q = Q} k m s e r next =
      let last : Returns Q (with_msg (msg_stack k) m s) =
        Returns-bind r λ a u p. returns (next a u p) in
      subst (λ stack. Returns Q (with_msg stack m s)) (sym e) last
