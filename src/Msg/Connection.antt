-- ===== src/Msg/Connection.antt =====
-- `MsgConnection` (src/core/MsgConnection.cc and .h).
pub mod Open
pub mod Io
pub mod Fixed
pub mod Setters
use hpnl.Base.{
  ℕ, zero, suc, List, [], ◌∷◌, ◌++◌, map, Option, none, some, Bool, true, false, not, ◌==◌,
  if◌then◌else◌, ℤ, pos, failed, success, minus_one,
}
use hpnl.Base.Run.{ok, M, ◌>>=◌, ◌>>◌, pure, get, when}
use hpnl.Fabric.{Call, Lib, Obj, fi, fails, put, self, close_if, freeinfo_if}
use hpnl.Chunk.{Chunk, update, Mem, Used, ChunkMgr, with_mgr}

pub data ConStatus : Type 0 where
  idle connect_req accept_req connected shutdown_req down : ConStatus

-- The value of the enumerator, by which `<` compares.
abbrev pub rank : ConStatus → ℕ
rank idle = 0
rank connect_req = 1
rank accept_req = 2
rank connected = 3
rank shutdown_req = 4
rank down = 5

-- `this` is the connection's own address. Callbacks are addresses.
pub record MsgConnection : Type 0 where
  pub this : ℕ
  pub fabric : ℕ
  pub info : ℕ
  pub domain : ℕ
  pub con_cq : ℕ
  pub is_server : Bool
  pub buffer_num : ℕ
  pub cq_index : ℕ
  pub external_service : Bool
  pub con_eq : ℕ
  pub ep : ℕ
  pub status : ConStatus
  pub dest_port : ℕ
  pub src_port : ℕ
  pub recv_callback : ℕ
  pub send_callback : ℕ
  pub read_callback : ℕ
  pub write_callback : ℕ
  pub shutdown_callback : ℕ
  pub used_chunks : Used
  pub send_chunks : List ℕ

-- The constructor. It leaves `write_callback` as it finds it, `junk`.
unfoldable pub construct :
    (this fabric info domain cq : ℕ) (is_server : Bool) (buffer_num cq_index : ℕ)
    (external_service : Bool) (junk : ℕ)
    → MsgConnection
construct this fabric info domain cq is_server buffer_num cq_index external_service junk = record {
  this = this;
  fabric = fabric;
  info = info;
  domain = domain;
  con_cq = cq;
  is_server = is_server;
  buffer_num = buffer_num;
  cq_index = cq_index;
  external_service = external_service;
  con_eq = 0;
  ep = 0;
  status = idle;
  dest_port = 0;
  src_port = 0;
  recv_callback = 0;
  send_callback = 0;
  read_callback = 0;
  write_callback = junk;
  shutdown_callback = 0;
  used_chunks = [];
  send_chunks = [];
}

abbrev pub eagain : ℤ
eagain = pos 11

module _ {G : Type 0} (lib : Lib) (mgr : ChunkMgr G) where
  abbrev pub ConM : Type 0 → Type 0
  ConM A = M (Obj MsgConnection (Mem G)) A

  -- The labels `free_ep` and `free_eq` of `init`.
  unfoldable pub free_ep : ConM ℤ
  free_ep = do c ← self; close_if c.ep; put λ c. record c { ep = 0 }; pure minus_one

  unfoldable pub free_eq : ConM ℤ
  unfolding free_ep
  free_eq = do c ← self; close_if c.con_eq; put λ c. record c { con_eq = 0 }; free_ep

  -- The part of `init` that binds the endpoint to the queues.
  unfoldable pub bind_queues : ConM ℤ
  bind_queues = do
    c ← self
    b ← fi lib (Call.ep_bind c.ep c.con_eq)
    if fails b then free_eq else do
      d ← fi lib (Call.ep_bind c.ep c.con_cq)
      if fails d then free_eq else do _ ← fi lib (Call.enable c.ep); pure success

  unfoldable pub open_queue : ConM ℤ
  open_queue = do
    c ← self
    q ← fi lib (Call.eq_open c.fabric)
    if fails q then free_eq else do put λ c. record c { con_eq = q.out }; bind_queues

  -- The part of `init` before the loop.
  unfoldable pub open_endpoint : ConM ℤ
  open_endpoint = do
    c ← self
    e ← fi lib (Call.endpoint c.domain c.info)
    if fails e then free_ep else do put λ c. record c { ep = e.out }; open_queue

  -- The manager has changed the connection's record of chunks in use.
  abbrev pub note_used : Option Used → ConM (Unit {0})
  note_used none s = ok tt s
  note_used (some u) s = ok tt (record s { self = record s.self { used_chunks = u } })

  -- `chunk_mgr->get(this)`; 0 is the null pointer.
  unfoldable pub take_chunk : ConM ℕ
  take_chunk = do c ← self; r ← with_mgr (mgr.get (some c.used_chunks)); note_used r.1; pure r.0

  abbrev pub chunk_at : ℕ → ConM Chunk
  chunk_at ck s = ok (s.env.heap ck) s

  abbrev pub write_chunk : ℕ → Chunk → ConM (Unit {0})
  write_chunk ck v s = ok tt (record s { env = record s.env { heap = update s.env.heap ck v } })

  abbrev pub set_con : ℕ → ConM (Unit {0})
  set_con ck = do c ← self; v ← chunk_at ck; write_chunk ck (record v { con = c.this })

  -- With an external service each chunk is registered for itself.
  unfoldable pub register : ℕ → ConM Bool
  register ck = do
    c ← self
    v ← chunk_at ck
    a ← fi lib (Call.mr_reg c.domain v.buffer v.capacity)
    if fails a then pure false else do write_chunk ck (record v { mr = a.out }); pure true

  unfoldable pub register_if : Bool → ℕ → ConM Bool
  unfolding register
  register_if external ck s = if external then register ck s else ok true s

  -- The body of the loop of `init`: one chunk to receive into, and one to send from. The result is
  -- false where the code returns -1.
  unfoldable pub post_send_chunk : ConM Bool
  post_send_chunk = do
    ck ← take_chunk
    if ck == 0 then pure false else do
      good ← register ck
      if not good then pure false else do
        set_con ck
        put λ c. record c { send_chunks = c.send_chunks ++ (ck ∷ []) }
        pure true

  unfoldable pub post_recv : ℕ → ConM ℤ
  post_recv ck = do
    set_con ck
    c ← self
    v ← chunk_at ck
    a ← fi lib (Call.recv c.ep v.buffer v.capacity ck)
    pure (if fails a then minus_one else success)

  unfoldable pub post_round : ConM Bool
  post_round = do
    c ← self
    ck ← take_chunk
    if ck == 0 then pure false else do
      good ← register_if c.external_service ck
      if not good then pure false else do
        r ← post_recv ck
        if failed r then pure false else (if c.external_service then post_send_chunk else pure true)

  unfoldable pub post_all : ℕ → ConM ℤ
  unfolding post_round
  post_all zero = pure success
  post_all (suc n) = do
    good ← post_round
    let rest = post_all n
    if good then rest else pure minus_one

  unfoldable pub init : ConM ℤ
  init = do r ← open_endpoint; if failed r then pure r else do c ← self; post_all c.buffer_num

  unfoldable pub reclaim_all : List ℕ → ConM (Unit {0})
  reclaim_all [] = pure tt
  reclaim_all (ck ∷ cks) = do
    c ← self
    used ← with_mgr (mgr.reclaim ck (some c.used_chunks))
    note_used used
    reclaim_all cks

  unfoldable pub shutdown : ConM ℤ
  shutdown = do c ← self; a ← fi lib (Call.shutdown c.ep); pure a.ret

  -- The end of the destructor, which gives the handles back.
  unfoldable pub close_all : ConM (Unit {0})
  unfolding shutdown
  close_all = do
    c ← self
    when (not (c.ep == 0)) (do _ ← shutdown; pure tt)
    close_if c.ep
    put λ c. record c { ep = 0 }
    close_if c.con_eq
    put λ c. record c { con_eq = 0 }
    freeinfo_if c.info
    put λ c. record c { info = 0 }

  -- The destructor. The chunks in use are those at its start.
  unfoldable pub destruct : ConM (Unit {0})
  unfolding reclaim_all
  destruct = do
    c ← self
    reclaim_all (map (λ e. e.1) c.used_chunks)
    when c.external_service (reclaim_all c.send_chunks)
    close_all
