-- ===== src/Rdm/Connection/Setup.antt =====
-- How an `RdmConnection` is made, opened and deleted, and how it posts a chunk to receive into.
use hpnl.Base.{
  ℕ, zero, suc, List, [], ◌∷◌, ◌++◌, map, Option, none, some, Bool, true, false, not, ◌==◌,
  if◌then◌else◌, ℤ, success, minus_one, failed,
}
use hpnl.Base.StdMap.{insert}
use hpnl.Base.Run.{ok, ◌>>=◌, ◌>>◌, pure, require, when}
use hpnl.Fabric.{Call, Lib, fi, fails, put, self, close_if}
use hpnl.Chunk.{Used, ChunkMgr, with_mgr}
use hpnl.Rdm.Connection.{RdmConnection, Names, RdmM, chunk_at, write_chunk, insert_peer}

-- The constructor.
unfoldable pub construct :
    (this ip port info domain cq buffer_num : ℕ) (is_server external_service : Bool) → RdmConnection
construct this ip port info domain cq buffer_num is_server external_service = record {
  this = this;
  ip = ip;
  port = port;
  info = info;
  domain = domain;
  ep = 0;
  av = 0;
  con_cq = cq;
  buffer_num = buffer_num;
  is_server = is_server;
  external_service = external_service;
  local_name = [];
  address_map = [];
  used_chunks = [];
  send_chunks = [];
  send_chunks_map = [];
  recv_callback = 0;
  send_callback = 0;
}

module _ {G : Type 0} (lib : Lib) (mgr : ChunkMgr G) (names : Names) where
  abbrev Rdm : Type 0 → Type 0
  Rdm A = RdmM lib mgr names A

  -- A client asks for the server's fi_info; the hints are given back either way.
  unfoldable pub resolve : Rdm Bool
  resolve = do
    c ← self
    h ← fi lib Call.allocinfo
    require (not (h.out == 0))
    require (c.info == 0)
    a ← fi lib (Call.getinfo c.ip c.port 0 h.out)
    _ ← fi lib (Call.freeinfo h.out)
    if fails a then pure false else do put λ c. record c { info = a.out }; pure true

  unfoldable pub bind_endpoint : Rdm ℤ
  bind_endpoint = do
    c ← self
    b ← fi lib (Call.ep_bind c.ep c.con_cq)
    if fails b then pure minus_one else do
      d ← fi lib (Call.ep_bind c.ep c.av)
      if fails d then pure minus_one else do
        e ← fi lib (Call.enable c.ep)
        if fails e then pure minus_one else do
          n ← fi lib (Call.getname c.ep)
          put λ c. record c { local_name = names.bytes n.out }
          pure success

  unfoldable pub open_vector : Rdm ℤ
  unfolding bind_endpoint
  open_vector = do
    c ← self
    a ← fi lib (Call.av_open c.domain)
    if fails a then pure minus_one else do put λ c. record c { av = a.out }; bind_endpoint

  unfoldable pub open_endpoint : Rdm ℤ
  unfolding open_vector
  open_endpoint = do
    c ← self
    e ← fi lib (Call.endpoint c.domain c.info)
    if fails e then pure minus_one else do put λ c. record c { ep = e.out }; open_vector

  -- The part of `init` that opens the endpoint.
  unfoldable pub set_up : Rdm ℤ
  unfolding resolve open_endpoint
  set_up = do
    c ← self
    found ← (if c.is_server then pure true else resolve)
    if found then open_endpoint else pure minus_one

  -- A client inserts the server's address.
  unfoldable pub add_server : Rdm (Unit {0})
  unfolding insert_peer
  add_server = do
    c ← self
    text ← fi lib (Call.av_straddr c.av (names.dest_addr c.info))
    _ ← insert_peer lib mgr names text.out (names.dest_addr c.info)
    pure tt

  -- The manager has changed the connection's record of chunks in use.
  abbrev note_used : Option Used → Rdm (Unit {0})
  note_used none s = ok tt s
  note_used (some u) s = ok tt (record s { self = record s.self { used_chunks = u } })

  -- `chunk_mgr->get(this)`, which is dereferenced.
  unfoldable pub take_chunk : Rdm ℕ
  take_chunk = do
    c ← self
    r ← with_mgr (mgr.get (some c.used_chunks))
    note_used r.1
    require (not (r.0 == 0))
    pure r.0

  unfoldable pub post_recv : ℕ → Rdm ℤ
  post_recv ck = do
    c ← self
    v ← chunk_at lib mgr names ck
    write_chunk lib mgr names ck (record v { con = c.this })
    a ← fi lib (Call.recv c.ep v.buffer v.capacity ck)
    pure (if fails a then minus_one else success)

  -- The body of the loop of `init`: one chunk to receive into, and one to send from.
  unfoldable pub keep_chunk : Rdm (Unit {0})
  unfolding take_chunk
  keep_chunk = do
    n ← with_mgr mgr.free_size
    when (not (n == 0)) (do
      ck ← take_chunk
      v ← chunk_at lib mgr names ck
      put λ c. record c {
        send_chunks = c.send_chunks ++ (ck ∷ []);
        send_chunks_map = insert v.buffer_id ck c.send_chunks_map;
      })

  unfoldable pub post_round : Rdm ℤ
  unfolding take_chunk post_recv keep_chunk
  post_round = do
    n ← with_mgr mgr.free_size
    r ← (if n == 0 then pure success else do ck ← take_chunk; post_recv ck)
    if failed r then pure r else do c ← self; when c.external_service keep_chunk; pure success

  unfoldable pub post_all : ℕ → Rdm ℤ
  unfolding post_round
  post_all zero = pure success
  post_all (suc n) = do r ← post_round; let rest = post_all n; if failed r then pure r else rest

  unfoldable pub init : Rdm ℤ
  unfolding set_up add_server post_all
  init = do
    r ← set_up
    if failed r
        then pure r
        else do c ← self; when (not c.is_server) add_server; post_all c.buffer_num

  -- A null chunk stands for a new one.
  unfoldable pub activate_recv_chunk : ℕ → Rdm ℤ
  unfolding take_chunk post_recv
  activate_recv_chunk ck = do found ← (if ck == 0 then take_chunk else pure ck); post_recv found

  unfoldable pub reclaim_all : List ℕ → Rdm (Unit {0})
  reclaim_all [] = pure tt
  reclaim_all (ck ∷ cks) = do
    c ← self
    used ← with_mgr (mgr.reclaim ck (some c.used_chunks))
    note_used used
    reclaim_all cks

  -- The end of the destructor. A client gives its fi_info back, be it null.
  unfoldable pub close_all : Rdm (Unit {0})
  close_all = do
    c ← self
    when (not c.is_server) (do _ ← fi lib (Call.freeinfo c.info); put λ c. record c { info = 0 })
    close_if c.ep
    put λ c. record c { ep = 0 }
    close_if c.av
    put λ c. record c { av = 0 }

  -- The destructor. The chunks in use are those at its start.
  unfoldable pub destruct : Rdm (Unit {0})
  unfolding reclaim_all close_all
  destruct = do
    c ← self
    reclaim_all (map (λ e. e.1) c.used_chunks)
    when c.external_service (reclaim_all c.send_chunks)
    close_all
