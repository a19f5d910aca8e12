-- ===== src/Service/Open.antt =====
-- How a service comes to its connections: `listen`, `connect` and `get_con`.
use hpnl.Base.{ℕ, Option, none, some, ◌==◌, if◌then◌else◌, ℤ, failed, success, minus_one}
use hpnl.Base.StdMap.{StdMap, lookup, assign}
use hpnl.Base.Run.{ok, fault, ◌>>=◌, ◌>>◌, pure}
use hpnl.Fabric.{Call, Lib, fi, put, self}
use hpnl.Chunk.{ChunkMgr}
use hpnl.Msg.Connection.Io.{Infos}
use hpnl.Msg.Stack.Table
use hpnl.Rdm.Connection.{Names}
use hpnl.Rdm.Stack
use hpnl.Event.Proactor.{EqHandler, new_handler, register_handler}
use hpnl.Service.{Service, ServiceM, on_msg, on_rdm, on_reactor}

-- The handler for a queue, with the service's callbacks.
unfoldable pub handler_for : (eq : ℕ) → Service → EqHandler
unfolding new_handler
handler_for eq v = record (new_handler eq) {
  recv_callback = v.recv_callback;
  send_callback = v.send_callback;
  read_callback = v.read_callback;
  write_callback = v.write_callback;
  accept_request_callback = v.accept_request_callback;
  connected_callback = v.connected_callback;
  shutdown_callback = v.shutdown_callback;
}

module _ {G : Type 0} (lib : Lib) (mgr : ChunkMgr G) (infos : Infos) (names : Names) where
  unfoldable pub register : Option (StdMap EqHandler) → EqHandler → ServiceM G ℤ
  register none h = pure minus_one
  register (some _) h = do
    r ← on_reactor (register_handler lib h)
    if failed r then pure r else pure success

  -- A new `AcceptRequestCallback`, and the handler's place in the proactor, if there is one.
  unfoldable pub handle : (eq : ℕ) → ServiceM G ℤ
  unfolding handler_for register
  handle eq = do
    a ← fi lib Call.new
    put λ v. record v { accept_request_callback = a.out }
    v ← self
    register v.proactor (handler_for eq v)

  -- The callbacks of an `RdmConnection`.
  unfoldable pub set_callbacks : (p : ℕ) → ServiceM G (Unit {0})
  set_callbacks p s = elim (lookup p s.env.peers) [
    | none ↦ fault
    | some c ↦ ok tt (record s {
      env = record s.env {
        peers =
            assign p
              (record c {
                recv_callback = s.self.recv_callback;
                send_callback = s.self.send_callback;
              })
              s.env.peers;
      };
    })
  ]

  unfoldable pub listen_msg : (addr port : ℕ) → ServiceM G ℤ
  unfolding handle on_msg
  listen_msg addr port = do
    eq ← on_msg (Table.bind lib mgr infos addr port)
    if eq == 0
        then pure minus_one
        else do r ← on_msg (Table.listen lib mgr infos); if failed r then pure r else handle eq

  unfoldable pub listen_rdm : (addr port : ℕ) → ServiceM G ℤ
  unfolding set_callbacks on_rdm
  listen_rdm addr port = do
    v ← self
    p ← on_rdm (Stack.bind lib mgr names addr port v.buf_mgr)
    if p == 0 then pure minus_one else do set_callbacks p; pure success

  unfoldable pub listen : (addr port : ℕ) → ServiceM G ℤ
  unfolding listen_msg listen_rdm
  listen addr port = do
    v ← self
    if v.is_server
        then (if v.msg then listen_msg addr port else listen_rdm addr port)
        else pure minus_one

  -- The part of `connect` behind its guard. `junk` is what the constructor of the connection leaves
  -- as it finds it.
  unfoldable pub dial : (addr port junk : ℕ) → ServiceM G ℤ
  unfolding handle on_msg
  dial addr port junk = do
    v ← self
    eq ← on_msg (Table.connect lib mgr infos addr port v.buf_mgr junk)
    if eq == 0 then pure minus_one else handle eq

  unfoldable pub connect : (addr port junk : ℕ) → ServiceM G ℤ
  unfolding dial
  connect addr port junk = do v ← self; if v.is_server then pure minus_one else dial addr port junk

  -- The connection, or the null pointer.
  unfoldable pub get_con : (addr port : ℕ) → ServiceM G ℕ
  unfolding set_callbacks on_rdm
  get_con addr port = do
    v ← self
    if v.is_server then pure 0 else do
      p ← on_rdm (Stack.get_con lib mgr names addr port v.buf_mgr)
      if p == 0 then pure 0 else do set_callbacks p; pure p
