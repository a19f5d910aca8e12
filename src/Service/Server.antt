-- ===== src/Service/Server.antt =====
-- `Server` (src/service/Server.cc), which passes each call on to its service.
use hpnl.Base.{ℕ, Bool, true, ℤ}
use hpnl.Fabric.{Lib, put}
use hpnl.Chunk.{ChunkMgr}
use hpnl.Msg.Connection.Io.{Infos}
use hpnl.Rdm.Connection.{Names}
use hpnl.Service.{Service, ServiceM}
use hpnl.Service
use hpnl.Service.Open
use hpnl.Service.Control
use hpnl.Service.Setters

-- The service of a new server.
unfoldable pub construct : (worker_num buffer_num : ℕ) → Service
unfolding Service.construct
construct worker_num buffer_num = Service.construct worker_num buffer_num true

-- The setters.
unfoldable pub set_chunk_mgr : {G : Type 0} → (chunk_mgr : Bool) → ServiceM G (Unit {0})
unfolding Setters.set_chunk_mgr
set_chunk_mgr chunk_mgr = put (Setters.set_chunk_mgr chunk_mgr)

unfoldable pub set_send_callback : {G : Type 0} → (callback : ℕ) → ServiceM G (Unit {0})
unfolding Setters.set_send_callback
set_send_callback callback = put (Setters.set_send_callback callback)

unfoldable pub set_recv_callback : {G : Type 0} → (callback : ℕ) → ServiceM G (Unit {0})
unfolding Setters.set_recv_callback
set_recv_callback callback = put (Setters.set_recv_callback callback)

unfoldable pub set_read_callback : {G : Type 0} → (callback : ℕ) → ServiceM G (Unit {0})
unfolding Setters.set_read_callback
set_read_callback callback = put (Setters.set_read_callback callback)

unfoldable pub set_write_callback : {G : Type 0} → (callback : ℕ) → ServiceM G (Unit {0})
unfolding Setters.set_write_callback
set_write_callback callback = put (Setters.set_write_callback callback)

unfoldable pub set_connected_callback : {G : Type 0} → (callback : ℕ) → ServiceM G (Unit {0})
unfolding Setters.set_connected_callback
set_connected_callback callback = put (Setters.set_connected_callback callback)

unfoldable pub set_shutdown_callback : {G : Type 0} → (callback : ℕ) → ServiceM G (Unit {0})
unfolding Setters.set_shutdown_callback
set_shutdown_callback callback = put (Setters.set_shutdown_callback callback)

module _ {G : Type 0} (lib : Lib) (mgr : ChunkMgr G) (infos : Infos) (names : Names) where
  unfoldable pub destruct : ServiceM G (Unit {0})
  unfolding Control.destruct
  destruct = Control.destruct lib mgr infos names

  unfoldable pub init : (msg : Bool) (junk : ℕ) → ServiceM G ℤ
  unfolding Service.init
  init msg junk = Service.init lib mgr infos names msg junk

  unfoldable pub start : ServiceM G (Unit {0})
  unfolding Control.start
  start = Control.start lib

  unfoldable pub listen : (ip port : ℕ) → ServiceM G ℤ
  unfolding Open.listen
  listen ip port = Open.listen lib mgr infos names ip port

  unfoldable pub shutdown : ServiceM G (Unit {0})
  unfolding Control.shutdown
  shutdown = Control.shutdown lib

  unfoldable pub shutdown_con : (con : ℕ) → ServiceM G (Unit {0})
  unfolding Control.shutdown_con
  shutdown_con con = Control.shutdown_con lib mgr infos names con

  unfoldable pub wait : ServiceM G (Unit {0})
  unfolding Control.wait
  wait = Control.wait lib

  unfoldable pub reg_rma_buffer : (buffer buffer_size buffer_id : ℕ) → ServiceM G ℕ
  unfolding Control.reg_rma_buffer
  reg_rma_buffer buffer buffer_size buffer_id =
      Control.reg_rma_buffer lib mgr infos names buffer buffer_size buffer_id

  unfoldable pub unreg_rma_buffer : (buffer_id : ℕ) → ServiceM G (Unit {0})
  unfolding Control.unreg_rma_buffer
  unreg_rma_buffer buffer_id = Control.unreg_rma_buffer lib mgr infos names buffer_id

  unfoldable pub get_rma_buffer : (buffer_id : ℕ) → ServiceM G ℕ
  unfolding Control.get_rma_buffer
  get_rma_buffer buffer_id = Control.get_rma_buffer lib mgr infos names buffer_id
