-- ===== src/Java/RdmService.antt =====
-- The native methods of RdmService (java/native/com_intel_hpnl_core_RdmService.cc).
pub mod Bare
pub mod Received
use hpnl.Base.{
  ℕ, List, [], ◌∷◌, Option, none, some, Bool, not, ◌==◌, failed, if◌then◌else◌, ℤ, pos, success,
  minus_one,
}
use hpnl.Base.StdMap.{lookup, assign}
use hpnl.Base.Run.{ok, fault, M, ◌>>=◌, ◌>>◌, pure, require, and_then, when}
use hpnl.Fabric.{Lib, Obj, put, self}
use hpnl.Chunk.{with_mgr, Mem}
use hpnl.Chunk.External.{ExternalChunkMgr, external_chunk_mgr}
use hpnl.Chunk.External
use hpnl.Event.Codes.{EventType, value}
use hpnl.Event.Completion.{Entry}
use hpnl.External.RdmService.{ExternalRdmService, on_mgr}
use hpnl.External.RdmService
use hpnl.Java.Binding.{Upcall, Binding, is_code, on_service, call, refill_pool}
use hpnl.Java.MemPool.{MemoryService}
use hpnl.Java.MemPool
use hpnl.Rdm.Connection.{RdmConnection, Names}
use hpnl.Rdm.Connection.Setup
use hpnl.Rdm.External.{Report}
use hpnl.Rdm.Stack.{World}

abbrev pub Env : Type 0
Env = World ExternalChunkMgr

abbrev pub RdmBinding : Type 0
RdmBinding = Obj (Binding ExternalRdmService) Env

abbrev pub RdmM : Type 0 → Type 0
RdmM A = M RdmBinding A

-- The connection at an address.
abbrev pub con_at : ℕ → RdmM RdmConnection
con_at p s = elim (lookup p s.env.cons) [ none ↦ fault | some c ↦ ok c s ]

-- A method of the connection at an address.
unfoldable pub on_con : {A : Type 0} → ℕ → M (Obj RdmConnection (Mem ExternalChunkMgr)) A → RdmM A
on_con p m s = elim (lookup p s.env.cons) [
  | none ↦ fault
  | some c ↦ and_then (m (record { self = c; env = s.env.mem; trace = s.trace })) (λ a t.
      ok a (record s {
        env = record { mem = t.env; cons = assign p t.self s.env.cons };
        trace = t.trace;
      }))
]

-- The calls of `pushSendBuffer` for the chunks of a connection.
unfoldable pub push_all : (con : ℕ) → List ℕ → RdmM (Unit {0})
push_all con [] = pure tt
push_all con (ck ∷ cks) = do
  v ← λ s. ok (s.env.mem.heap ck) s
  call (Upcall.push_peer_buffer con v.buffer_id)
  push_all con cks

-- What Java hears of a new connection.
unfoldable pub establish : (con : ℕ) → RdmM (Unit {0})
unfolding push_all
establish con = do call (Upcall.establish_peer con); c ← con_at con; push_all con c.send_chunks

module _ (lib : Lib) (names : Names) where
  -- What the pool of buffers sees of the service.
  abbrev pub memory_service : MemoryService ExternalRdmService Env
  memory_service = record {
    set_buffer = RdmService.set_buffer lib external_chunk_mgr names;
    is_buffer_enough = RdmService.is_buffer_enough lib external_chunk_mgr names;
  }

  unfoldable pub init : (buffer_num : ℕ) (is_server : Bool) (junk : ℕ) → RdmM ℤ
  unfolding RdmService.construct RdmService.init on_service
  init buffer_num is_server junk = do
    put λ b. record b { native_handle = some (RdmService.construct buffer_num is_server) }
    on_service (RdmService.init lib external_chunk_mgr names junk)

  -- None where the loop that waits for buffers has not come to its end.
  unfoldable pub listen : (rounds ip port : ℕ) → RdmM (Option ℤ)
  unfolding refill_pool on_service RdmService.listen establish
  listen rounds ip port = do
    enough ← refill_pool lib memory_service rounds
    if not enough then pure none else do
      con ← on_service (RdmService.listen lib external_chunk_mgr names ip port)
      if con == 0 then pure (some minus_one) else do establish con; pure (some success)

  unfoldable pub get_con : (rounds ip port : ℕ) → RdmM (Option ℤ)
  unfolding refill_pool on_service RdmService.get_con establish
  get_con rounds ip port = do
    enough ← refill_pool lib memory_service rounds
    if not enough then pure none else do
      con ← on_service (RdmService.get_con lib external_chunk_mgr names ip port)
      if con == 0 then pure (some minus_one) else do establish con; pure (some (pos con))

  -- What the binding does with what the demultiplexer has reported. What `activate_recv_chunk` returns
  -- is dropped.
  unfoldable pub on_report : Report → RdmM ℤ
  unfolding on_con Setup.activate_recv_chunk value
  on_report r =
      if not (failed r.code)
      then pure success
      else if is_code r.code (value EventType.close_event)
      then pure minus_one
      else do
        require (not (r.ck == 0))
        v ← λ s. ok (s.env.mem.heap r.ck) s
        call (Upcall.handle_callback v.con r.code v.buffer_id r.block_buffer_size)
        when (is_code r.code (value EventType.recv_event)) (do
          _ ← on_con v.con (Setup.activate_recv_chunk lib external_chunk_mgr names r.ck)
          pure tt)
        pure r.code

  -- `first` and `second` are readings of the clock.
  unfoldable pub wait_event : (read_entry : ℕ → Entry) (first second : ℕ) → RdmM ℤ
  unfolding on_report on_service RdmService.wait_event
  wait_event read_entry first second = do
    r ← on_service (
        RdmService.wait_event lib external_chunk_mgr names read_entry first second
          (record { code = success; ck = 0; block_buffer_size = 0 }))
    on_report r

  -- The buffer is to be a direct one.
  unfoldable pub set_buffer1 : (buffer size id : ℕ) → RdmM (Unit {0})
  unfolding on_service RdmService.set_buffer
  set_buffer1 buffer size id = do
    require (not (buffer == 0))
    on_service (RdmService.set_buffer lib external_chunk_mgr names buffer size id)

  -- `delete service`, with the chunk manager that the service has.
  unfoldable pub delete_service : M (Obj ExternalRdmService Env) (Unit {0})
  unfolding RdmService.destruct External.destruct
  delete_service = do
    RdmService.destruct lib external_chunk_mgr names
    on_mgr lib external_chunk_mgr names (with_mgr (External.destruct lib))

  unfoldable pub free : RdmM (Unit {0})
  unfolding delete_service on_service
  free = do
    b ← self
    elim b.native_handle [ none ↦ pure tt | some _ ↦ on_service delete_service ]
    put λ b. record b { native_handle = none }

  -- `RdmService.initBufferPool` of the Java class.
  unfoldable pub init_buffer_pool :
      (init_buffer_num buffer_size next_buffer_num : ℕ) → RdmM (Unit {0})
  unfolding on_service MemPool.construct
  init_buffer_pool init_buffer_num buffer_size next_buffer_num = do
    p ←
        on_service
          (MemPool.construct lib memory_service init_buffer_num buffer_size next_buffer_num)
    put λ b. record b { buffer_pool = some p }
