-- ===== src/Service/Session/Closing.antt =====
-- A connection that the user of the service shuts down.
use hpnl.Base.{ℕ, ◌≡◌, none, ◌==◌, if◌then◌else◌}
use hpnl.Base.StdMap.{StdMap, lookup, assign}
use hpnl.Fabric.{Lib}
use hpnl.Chunk.{ChunkMgr, ChunkMgrLaws}
use hpnl.Msg.Connection.{MsgConnection}
use hpnl.Msg.Connection
use hpnl.Msg.Connection.Io.{Infos}
use hpnl.Msg.Stack.{MsgStack}
use hpnl.Msg.Stack.Table
use hpnl.Rdm.Connection.{Names}
use hpnl.Event.Proactor.{EqHandler}
use hpnl.Service.{EqDemultiplexer}
use hpnl.Service.Session.{Serv, IsUp}

module _ {G : Type 0} (lib : Lib) (mgr : ChunkMgr G) (infos : Infos) (names : Names)
    (laws : ChunkMgrLaws mgr) where
  -- The connection `p` is gone from its service, with its queue; the others stay.
  pub record IsGone (eq p : ℕ) (k : MsgStack) (handlers : StdMap EqHandler) (s t : Serv G)
      : Type 0 where
    pub k' : MsgStack
    pub d' : EqDemultiplexer
    pub handlers' : StdMap EqHandler
    pub up : IsUp k' d' handlers' t
    pub no_handler : (i : ℕ) → lookup i handlers' ≡ (if eq == i then none else lookup i handlers)
    pub no_entry : (i : ℕ) → lookup i k'.con_map ≡ (if eq == i then none else lookup i k.con_map)
    pub no_con : (i : ℕ) → lookup i t.env.cons ≡ (if p == i then none else lookup i s.env.cons)

  -- Before the connection is deleted.
  record Left (eq p : ℕ) (c : MsgConnection) (k : MsgStack) (handlers : StdMap EqHandler)
      (s t : Serv G) : Type 0 where
    left_k : MsgStack
    left_d : EqDemultiplexer
    left_handlers : StdMap EqHandler
    up : IsUp left_k left_d left_handlers t
    no_handler : (i : ℕ) → lookup i left_handlers ≡ (if eq == i then none else lookup i handlers)
    no_entry : (i : ℕ) → lookup i left_k.con_map ≡ (if eq == i then none else lookup i k.con_map)
    cons : t.env.cons ≡ assign p c s.env.cons
