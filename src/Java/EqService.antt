-- ===== src/Java/EqService.antt =====
-- The native methods of EqService (java/native/com_intel_hpnl_core_EqService.cc).
pub mod Connecting
pub mod Closing
pub mod Remote
pub mod Established
pub mod Session
use hpnl.Base.{
  ℕ, ◌-◌, ◌^◌, List, [], ◌∷◌, Option, none, some, Bool, true, false, not, ◌==◌, ltb, if◌then◌else◌,
  ℤ, pos, negsuc, success, minus_one,
}
use hpnl.Base.StdMap.{lookup, assign}
use hpnl.Base.Run.{ok, fault, M, ◌>>=◌, ◌>>◌, pure, require, when}
use hpnl.Fabric.{Lib, Obj, put, self}
use hpnl.Chunk.{with_mgr}
use hpnl.Chunk.External.{ExternalChunkMgr, external_chunk_mgr}
use hpnl.Chunk.External
use hpnl.Event.Codes.{EventType, value}
use hpnl.Event.Handler.{Event}
use hpnl.Event.Proactor.{is_negative}
use hpnl.External.EqService.{ExternalEqService, on_mgr, on_stack}
use hpnl.External.EqService
use hpnl.External.Events.{Report}
use hpnl.Java.Binding.{Upcall, Binding, is_code, on_service, call, refill_pool}
use hpnl.Java.MemPool.{MemoryService}
use hpnl.Java.MemPool
use hpnl.Msg.Connection.{MsgConnection, ConStatus, rank}
use hpnl.Msg.Connection
use hpnl.Msg.Connection.Io.{Infos}
use hpnl.Msg.Stack.{World}
use hpnl.Msg.Stack.Table

abbrev pub Env : Type 0
Env = World ExternalChunkMgr

abbrev pub EqBinding : Type 0
EqBinding = Obj (Binding ExternalEqService) Env

abbrev pub EqM : Type 0 → Type 0
EqM A = M EqBinding A

-- An unsigned number of 64 bits, as a jlong.
abbrev pub to_jlong : ℕ → ℤ
to_jlong n = if ltb n (2 ^ 63) then pos n else negsuc (2 ^ 64 - 1 - n)

-- The connection at an address.
abbrev pub con_at : ℕ → EqM MsgConnection
con_at p s = elim (lookup p s.env.cons) [ none ↦ fault | some c ↦ ok c s ]

abbrev pub put_con : ℕ → MsgConnection → EqM (Unit {0})
put_con p c s = ok tt (record s { env = record s.env { cons = assign p c s.env.cons } })

-- The calls of `pushSendBuffer` for the chunks of a connection.
unfoldable pub push_all : (eq : ℕ) → List ℕ → EqM (Unit {0})
push_all eq [] = pure tt
push_all eq (ck ∷ cks) = do
  v ← λ s. ok (s.env.mem.heap ck) s
  call (Upcall.push_send_buffer eq v.buffer_id)
  push_all eq cks

-- What is done at a connected event.
unfoldable pub on_connected : (eq con : ℕ) (ret : ℤ) → EqM (Unit {0})
unfolding push_all
on_connected eq con ret = do
  require (not (con == 0))
  c ← con_at con
  call (Upcall.establish_connection eq con c.cq_index c.dest_port c.src_port)
  push_all eq c.send_chunks
  call (Upcall.handle_eq_callback eq ret 0)
  put_con con (record c { status = ConStatus.connected })

module _ (lib : Lib) (infos : Infos) where
  -- What the pool of buffers sees of the service.
  abbrev pub memory_service : MemoryService ExternalEqService Env
  memory_service = record {
    set_buffer = EqService.set_buffer lib external_chunk_mgr infos;
    is_buffer_enough = EqService.is_buffer_enough lib external_chunk_mgr infos;
  }

  unfoldable pub init : (worker_num buffer_num : ℕ) (is_server : Bool) (junk : ℕ) → EqM ℤ
  unfolding EqService.construct EqService.init on_service
  init worker_num buffer_num is_server junk = do
    put λ b. record b { native_handle = some (EqService.construct worker_num buffer_num is_server) }
    on_service (EqService.init lib external_chunk_mgr infos junk)

  -- `delete service`, with the chunk manager that the service has.
  unfoldable pub delete_service : M (Obj ExternalEqService Env) (Unit {0})
  unfolding EqService.destruct External.destruct
  delete_service = do
    EqService.destruct lib external_chunk_mgr infos
    on_mgr lib external_chunk_mgr infos (with_mgr (External.destruct lib))

  unfoldable pub free : EqM (Unit {0})
  unfolding delete_service on_service
  free = do
    b ← self
    elim b.native_handle [ none ↦ pure tt | some _ ↦ on_service delete_service ]
    put λ b. record b { native_handle = none }

  -- None where the loop that waits for buffers has not come to its end.
  unfoldable pub native_connect : (rounds ip port junk : ℕ) → EqM (Option ℤ)
  unfolding refill_pool on_service EqService.connect
  native_connect rounds ip port junk = do
    enough ← refill_pool lib memory_service rounds
    if not enough then pure none else do
      eq ← on_service (EqService.connect lib external_chunk_mgr infos ip port junk)
      pure (some (if eq == 0 then minus_one else pos eq))

  -- What is done at an accept event; false where the loop has not come to its end.
  unfoldable pub on_accept : (rounds info junk : ℕ) → EqM Bool
  unfolding refill_pool on_service EqService.accept EqService.add_eq_event
  on_accept rounds info junk = do
    enough ← refill_pool lib memory_service rounds
    if not enough then pure false else do
      eq ← on_service (EqService.accept lib external_chunk_mgr infos info junk)
      require (not (eq == 0))
      _ ← on_service (EqService.add_eq_event lib external_chunk_mgr infos eq)
      pure true

  -- What the binding does with what the demultiplexer has reported.
  unfoldable pub on_report : (rounds junk : ℕ) → Report → EqM (Option ℤ)
  unfolding on_accept on_connected value
  on_report rounds junk r =
      if is_negative r.code
      then pure (some r.code)
      else if is_code r.code (value EventType.accept_event)
      then (do ended ← on_accept rounds r.info junk; pure (if ended then some r.code else none))
      else if is_code r.code (value EventType.connected_event)
      then (do on_connected r.eq r.con r.code; pure (some r.code))
      else if is_code r.code (value EventType.shutdown)
      then (do call (Upcall.close_connection r.eq); pure (some r.code))
      else pure (some r.code)

  -- `junk` is what stands in the variable `eq`, and in a new connection.
  unfoldable pub wait_eq_event1 :
      (read_event : ℕ → Event) (overrun rounds junk : ℕ) → EqM (Option ℤ)
  unfolding on_report on_service EqService.wait_eq_event
  wait_eq_event1 read_event overrun rounds junk = do
    r ← on_service (
        EqService.wait_eq_event lib external_chunk_mgr infos read_event overrun
          (record { code = success; info = 0; eq = junk; con = 0 }))
    on_report rounds junk r

  unfoldable pub add_eq_event : (eq : ℕ) → EqM ℤ
  unfolding on_service EqService.add_eq_event
  add_eq_event eq = on_service (EqService.add_eq_event lib external_chunk_mgr infos eq)

  unfoldable pub delete_eq_event1 : (eq : ℕ) → EqM ℤ
  unfolding on_service EqService.delete_eq_event
  delete_eq_event1 eq = do
    b ← self
    elim b.native_handle [
      | none ↦ pure success
      | some _ ↦ on_service (EqService.delete_eq_event lib external_chunk_mgr infos eq)
    ]

  -- The connection that is shut down is not down yet.
  unfoldable pub shut_con : (eq p : ℕ) → EqM (Unit {0})
  unfolding on_service EqService.reap on_stack Table.on_con Connection.shutdown
  shut_con eq p = do
    c ← con_at p
    when (ltb (rank c.status) (rank ConStatus.down)) (do
      _ ← on_service (
          on_stack (
            Table.on_con lib external_chunk_mgr infos p
              (Connection.shutdown lib external_chunk_mgr)))
      c ← con_at p
      put_con p (record c { status = ConStatus.down })
      on_service (EqService.reap lib external_chunk_mgr infos eq))

  unfoldable pub shutdown1 : (eq : ℕ) → EqM (Unit {0})
  unfolding shut_con on_service EqService.get_connection
  shutdown1 eq = do
    p ← on_service (EqService.get_connection lib external_chunk_mgr infos eq)
    if p == 0 then pure tt else shut_con eq p

  unfoldable pub set_buffer1 : (buffer size id : ℕ) → EqM (Unit {0})
  unfolding on_service EqService.set_buffer
  set_buffer1 buffer size id =
      on_service (EqService.set_buffer lib external_chunk_mgr infos buffer size id)

  -- The key of the new buffer's registration. `key` is what fi_mr_reg has put there.
  unfoldable pub reg_rma_buffer : (key : ℕ → ℕ) (buffer size id : ℕ) → EqM ℤ
  unfolding on_service EqService.reg_rma_buffer
  reg_rma_buffer key buffer size id = do
    ck ← on_service (EqService.reg_rma_buffer lib external_chunk_mgr infos buffer size id)
    require (not (ck == 0))
    v ← λ s. ok (s.env.mem.heap ck) s
    require (not (v.mr == 0))
    pure (to_jlong (key v.mr))

  unfoldable pub unreg_rma_buffer : (id : ℕ) → EqM (Unit {0})
  unfolding on_service EqService.unreg_rma_buffer
  unreg_rma_buffer id = on_service (EqService.unreg_rma_buffer lib external_chunk_mgr infos id)

  -- `EqService.initBufferPool` and `reallocBufferPool` of the Java class.
  unfoldable pub init_buffer_pool :
      (init_buffer_num buffer_size next_buffer_num : ℕ) → EqM (Unit {0})
  unfolding on_service MemPool.construct
  init_buffer_pool init_buffer_num buffer_size next_buffer_num = do
    p ←
        on_service
          (MemPool.construct lib memory_service init_buffer_num buffer_size next_buffer_num)
    put λ b. record b { buffer_pool = some p }
