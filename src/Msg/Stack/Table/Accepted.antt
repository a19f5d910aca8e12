-- ===== src/Msg/Stack/Table/Accepted.antt =====
-- What accepting a request does to the table of connections.
use hpnl.Base.{ℕ, ◌≡◌, true, false, if◌then◌else◌, failed, ℤ}
use hpnl.Base.Run.{◌>>=◌}
use hpnl.Fabric.{Call, Lib, Obj}
use hpnl.Chunk.{Mem, ChunkMgr, ChunkMgrLaws}
use hpnl.Msg.Connection
use hpnl.Msg.Connection.{MsgConnection, ConStatus}
use hpnl.Msg.Connection.Io.{Infos}
use hpnl.Msg.Connection.Io
use hpnl.Msg.Stack.Table.Assign.{Stk, Placed, InitEnds, opened_queue}

module _ {G : Type 0} (lib : Lib) (mgr : ChunkMgr G) (infos : Infos) (laws : ChunkMgrLaws mgr) where
  abbrev State : Type 0
  State = Stk lib mgr infos laws

  -- The outcome of accepting a request: the null pointer, with the stack as it was, just where the
  -- connection's `init` has failed; and the connection in the table just where it has not. In the
  -- second case the result is the queue that fi_eq_open gave, or the null pointer, if fi_accept has
  -- failed.
  pub data Accepted (s : State) (info junk q r : ℕ) (t : State) : Type 0 where
    not_opened :
        (code : ℤ) (u : Obj MsgConnection (Mem G))
        → InitEnds lib mgr infos laws s info true junk q code u
        → failed code ≡ true
        → r ≡ 0
        → t.self ≡ s.self
        → Accepted s info junk q r t
    entered :
        (code : ℤ) (u : Obj MsgConnection (Mem G))
        → InitEnds lib mgr infos laws s info true junk q code u
        → failed code ≡ false
        → r ≡ (
            if failed (lib u.trace (Call.accept u.self.ep)).ret
            then 0
            else (opened_queue lib mgr infos laws s info).out)
        → Placed lib mgr infos laws s info ConStatus.accept_req t
        → Accepted s info junk q r t
