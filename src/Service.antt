-- ===== src/Service.antt =====
-- `Service` (src/service/Service.cc and .h): what a client or a server of the library has. `Client`
-- and `Server` (Client.cc, Server.cc) pass each call on to it.
pub mod Open
pub mod Control
pub mod Setters
pub mod Entries
pub mod Session
pub mod Client
pub mod Server
use hpnl.Base.{
  ℕ, zero, suc, ◌+◌, List, [], Option, none, some, Bool, true, false, ltb, if◌then◌else◌, ℤ, failed,
  success, set, replicate,
}
use hpnl.Base.StdMap.{StdMap}
use hpnl.Base.Run.{ok, fault, M, ◌>>=◌, ◌>>◌, pure, require, and_then}
use hpnl.Fabric.{Lib, Obj, put, self}
use hpnl.Chunk.{Mem, ChunkMgr}
use hpnl.Msg.Connection.{MsgConnection}
use hpnl.Msg.Connection.Io.{Infos}
use hpnl.Msg.Stack.{MsgStack}
use hpnl.Rdm.Connection.{RdmConnection, Names}
use hpnl.Rdm.Stack.{RdmStack}
use hpnl.Rdm.Completion.{RdmCqDemultiplexer}
use hpnl.Rdm
use hpnl.Msg
use hpnl.Event.Proactor.{EqHandler, Reactor, init_demultiplexer}
use hpnl.Event.Completion.{CqDemultiplexer}
use hpnl.Event
use hpnl.Event.Thread.{ThreadWrapper}

-- `Stack*`: none yet, or one of the two classes.
pub data AnyStack : Type 0 where
  no_stack : AnyStack
  msg_stack : MsgStack → AnyStack
  rdm_stack : RdmStack → AnyStack

-- The fields of `EqDemultiplexer`.
pub record EqDemultiplexer : Type 0 where
  pub event_ptr : ℕ
  pub fabric : ℕ

-- `proactor` is its table of handlers, or `none` for the null pointer, as for the other objects.
-- Callbacks are addresses, and of the chunk manager it is known whether there is one.
pub record Service : Type 0 where
  pub stack : AnyStack
  pub proactor : Option (StdMap EqHandler)
  pub eq_demultiplexer : Option EqDemultiplexer
  pub cq_demultiplexer : List (Option CqDemultiplexer)
  pub rdm_cq_demultiplexer : Option RdmCqDemultiplexer
  pub buf_mgr : Bool
  pub recv_callback : ℕ
  pub send_callback : ℕ
  pub read_callback : ℕ
  pub write_callback : ℕ
  pub accept_request_callback : ℕ
  pub connected_callback : ℕ
  pub shutdown_callback : ℕ
  pub worker_num : ℕ
  pub buffer_num : ℕ
  pub is_server : Bool
  pub msg : Bool
  pub eq_thread : Option ThreadWrapper
  pub cq_thread : List (Option ThreadWrapper)
  pub rdm_cq_thread : Option ThreadWrapper

abbrev pub max_workers : ℕ
max_workers = 10

unfoldable pub construct : (worker_num buffer_num : ℕ) (is_server : Bool) → Service
construct worker_num buffer_num is_server = record {
  stack = no_stack;
  proactor = none;
  eq_demultiplexer = none;
  cq_demultiplexer = replicate max_workers none;
  rdm_cq_demultiplexer = none;
  buf_mgr = false;
  recv_callback = 0;
  send_callback = 0;
  read_callback = 0;
  write_callback = 0;
  accept_request_callback = 0;
  connected_callback = 0;
  shutdown_callback = 0;
  worker_num = worker_num;
  buffer_num = buffer_num;
  is_server = is_server;
  msg = true;
  eq_thread = none;
  cq_thread = replicate max_workers none;
  rdm_cq_thread = none;
}

-- The connections of both kinds in memory, by address, and the chunks.
pub record World (G : Type 0) : Type 0 where
  pub mem : Mem G
  pub cons : StdMap MsgConnection
  pub peers : StdMap RdmConnection

abbrev pub ServiceM : Type 0 → Type 0 → Type 0
ServiceM G A = M (Obj Service (World G)) A

abbrev pub handlers_of : Option (StdMap EqHandler) → StdMap EqHandler
handlers_of none = []
handlers_of (some handlers) = handlers

module _ {G A : Type 0} where
  -- A method of the stack, which is to be a `MsgStack`.
  unfoldable pub with_msg : AnyStack → M (Obj MsgStack (Msg.Stack.World G)) A → ServiceM G A
  with_msg (msg_stack k) m s =
      and_then
        (m (record {
          self = k;
          env = record { mem = s.env.mem; cons = s.env.cons };
          trace = s.trace;
        }))
        (λ a t. ok a (record {
          self = record s.self { stack = msg_stack t.self };
          env = record s.env { mem = t.env.mem; cons = t.env.cons };
          trace = t.trace;
        }))
  with_msg other m s = fault

  unfoldable pub on_msg : M (Obj MsgStack (Msg.Stack.World G)) A → ServiceM G A
  unfolding with_msg
  on_msg m s = with_msg s.self.stack m s

  -- A method of the stack, which is to be an `RdmStack`.
  with_rdm : AnyStack → M (Obj RdmStack (Rdm.Stack.World G)) A → ServiceM G A
  with_rdm (rdm_stack k) m s =
      and_then
        (m (record {
          self = k;
          env = record { mem = s.env.mem; cons = s.env.peers };
          trace = s.trace;
        }))
        (λ a t. ok a (record {
          self = record s.self { stack = rdm_stack t.self };
          env = record s.env { mem = t.env.mem; peers = t.env.cons };
          trace = t.trace;
        }))
  with_rdm other m s = fault

  unfoldable pub on_rdm : M (Obj RdmStack (Rdm.Stack.World G)) A → ServiceM G A
  unfolding with_rdm
  on_rdm m s = with_rdm s.self.stack m s

  -- A method of the proactor or of its `EqDemultiplexer`, which works on the `MsgStack`.
  unfoldable pub with_reactor :
      AnyStack
      → Option EqDemultiplexer
      → (handlers : StdMap EqHandler) → M (Obj Reactor (Msg.Stack.World G)) A
      → ServiceM G A
  with_reactor (msg_stack k) (some d) handlers m s =
      and_then
        (m (record {
          self = record {
            event_map = handlers;
            event_ptr = d.event_ptr;
            fabric = d.fabric;
            stack = k;
          };
          env = record { mem = s.env.mem; cons = s.env.cons };
          trace = s.trace;
        }))
        (λ a t. ok a (record {
          self = record s.self {
            stack = msg_stack t.self.stack;
            eq_demultiplexer =
                some (record { event_ptr = t.self.event_ptr; fabric = t.self.fabric });
            proactor = elim s.self.proactor [ none ↦ none | some _ ↦ some t.self.event_map ];
          };
          env = record s.env { mem = t.env.mem; cons = t.env.cons };
          trace = t.trace;
        }))
  with_reactor stack d handlers m s = fault

  unfoldable pub on_reactor : M (Obj Reactor (Msg.Stack.World G)) A → ServiceM G A
  unfolding with_reactor
  on_reactor m s =
      with_reactor s.self.stack s.self.eq_demultiplexer (handlers_of s.self.proactor) m s

module _ {G : Type 0} (lib : Lib) (mgr : ChunkMgr G) (infos : Infos) (names : Names) where
  -- `cq_demultiplexer[i] = new CqDemultiplexer(stack, i)` and its `init`.
  open_cq : (i junk : ℕ) → AnyStack → ServiceM G ℤ
  unfolding Event.Completion.construct Event.Completion.init
  open_cq i junk (msg_stack k) s =
      and_then
        (Event.Completion.init lib mgr infos (record {
          self = Event.Completion.construct k i junk;
          env = record { mem = s.env.mem; cons = s.env.cons };
          trace = s.trace;
        }))
        (λ r t. ok r (record {
          self = record s.self { cq_demultiplexer = set s.self.cq_demultiplexer i (some t.self) };
          env = record s.env { mem = t.env.mem; cons = t.env.cons };
          trace = t.trace;
        }))
  open_cq i junk other s = fault

  -- The loop of `init`, at round `i` with `n` rounds to go. A round past the end of the array is a
  -- fault.
  unfoldable pub open_cqs : (n i junk : ℕ) → ServiceM G ℤ
  unfolding open_cq
  open_cqs zero i junk = pure success
  open_cqs (suc n) i junk = do
    require (ltb i max_workers)
    v ← self
    r ← open_cq i junk v.stack
    let rest = open_cqs n (i + 1) junk
    if failed r then pure r else rest

  unfoldable pub init_msg : (junk : ℕ) → ServiceM G ℤ
  unfolding Msg.Stack.construct Msg.Stack.init open_cqs on_msg on_reactor
  init_msg junk = do
    put λ v. record v {
      stack = msg_stack (Msg.Stack.construct v.worker_num v.buffer_num v.is_server false);
    }
    r ← on_msg (Msg.Stack.init lib mgr)
    if failed r then pure r else do
      put λ v. record v { eq_demultiplexer = some (record { event_ptr = junk; fabric = junk }) }
      r ← on_reactor (init_demultiplexer lib)
      if failed r then pure r else do
        v ← self
        r ← open_cqs v.worker_num 0 junk
        if failed r then pure r else do put λ v. record v { proactor = some [] }; pure success

  open_rdm_cq : (junk : ℕ) → AnyStack → ServiceM G ℤ
  unfolding Rdm.Completion.construct Rdm.Completion.init
  open_rdm_cq junk (rdm_stack k) s =
      and_then
        (Rdm.Completion.init lib mgr names (record {
          self = Rdm.Completion.construct k junk;
          env = record { mem = s.env.mem; cons = s.env.peers };
          trace = s.trace;
        }))
        (λ r t. ok r (record {
          self = record s.self { rdm_cq_demultiplexer = some t.self };
          env = record s.env { mem = t.env.mem; peers = t.env.cons };
          trace = t.trace;
        }))
  open_rdm_cq junk other s = fault

  unfoldable pub init_rdm : (junk : ℕ) → ServiceM G ℤ
  unfolding Rdm.Stack.construct Rdm.Stack.init open_rdm_cq on_rdm
  init_rdm junk = do
    put λ v. record v { stack = rdm_stack (Rdm.Stack.construct v.buffer_num v.is_server false) }
    r ← on_rdm (Rdm.Stack.init lib mgr names)
    if failed r then pure r else do
      v ← self
      r ← open_rdm_cq junk v.stack
      if failed r then pure r else do put λ v. record v { proactor = some [] }; pure success

  unfoldable pub init : (msg : Bool) (junk : ℕ) → ServiceM G ℤ
  unfolding init_msg init_rdm
  init msg junk = do put λ v. record v { msg = msg }; if msg then init_msg junk else init_rdm junk
