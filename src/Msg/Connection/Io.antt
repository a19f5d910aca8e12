-- ===== src/Msg/Connection/Io.antt =====
-- The methods of `MsgConnection` that transfer data, connect and tell addresses.
use hpnl.Base.{ℕ, ◌+◌, not, ◌==◌, if◌then◌else◌, ℤ, pos, negsuc, success, minus_one}
use hpnl.Base.Run.{◌>>=◌, ◌>>◌, pure, require}
use hpnl.Fabric.{Call, Lib, fi, fails, self}
use hpnl.Chunk.{ChunkMgr, with_mgr}
use hpnl.Msg.Connection.{ConM, eagain, take_chunk, chunk_at, write_chunk, set_con, post_recv}

-- What the code reads of a `struct fi_info`: its addresses, and of an address its port.
pub record Infos : Type 0 where
  pub dest_addr : ℕ → ℕ
  pub src_addr : ℕ → ℕ
  pub port : ℕ → ℕ

module _ {G : Type 0} (lib : Lib) (mgr : ChunkMgr G) (infos : Infos) where
  -- `send(Chunk*)`
  unfoldable pub send : ℕ → ConM lib mgr ℤ
  send ck = do
    set_con lib mgr ck
    c ← self
    v ← chunk_at lib mgr ck
    a ← fi lib (Call.send c.ep v.buffer v.size 0 ck)
    pure a.ret

  -- `send(int, int)`: the size is written before the chunk is tested for null.
  unfoldable pub send_by_id : (buffer_size id : ℕ) → ConM lib mgr ℤ
  unfolding send
  send_by_id size id = do
    ck ← with_mgr (mgr.get_by_id id)
    require (not (ck == 0))
    v ← chunk_at lib mgr ck
    write_chunk lib mgr ck (record v { size = size })
    send ck

  unfoldable pub read : (ck local_offset len remote_addr remote_key : ℕ) → ConM lib mgr ℤ
  read ck local_offset len remote_addr remote_key = do
    set_con lib mgr ck
    c ← self
    v ← chunk_at lib mgr ck
    a ← fi lib (Call.read c.ep (v.buffer + local_offset) len remote_addr remote_key ck)
    pure a.ret

  unfoldable pub write : (ck local_offset len remote_addr remote_key : ℕ) → ConM lib mgr ℤ
  write ck local_offset len remote_addr remote_key = do
    set_con lib mgr ck
    c ← self
    v ← chunk_at lib mgr ck
    a ← fi lib (Call.write c.ep (v.buffer + local_offset) len remote_addr remote_key ck)
    pure a.ret

  -- The result of `fi_connect`, as `connect` passes it on.
  unfoldable pub connect_result : ℤ → ℤ
  connect_result (pos n) = if n == 0 then success else if n == 11 then eagain else minus_one
  connect_result (negsuc n) = minus_one

  unfoldable pub connect : ConM lib mgr ℤ
  unfolding connect_result
  connect = do
    c ← self
    a ← fi lib (Call.connect c.ep (infos.dest_addr c.info))
    pure (connect_result a.ret)

  unfoldable pub accept : ConM lib mgr ℤ
  accept = do c ← self; a ← fi lib (Call.accept c.ep); pure (if fails a then minus_one else success)

  -- Each address is read where its pointer is null.
  unfoldable pub init_addr : ConM lib mgr (Unit {0})
  init_addr = do
    c ← self
    require (not (infos.dest_addr c.info == 0))
    require (not (infos.src_addr c.info == 0))

  -- A null chunk stands for a new one.
  unfoldable pub activate_recv_chunk : ℕ → ConM lib mgr ℤ
  unfolding take_chunk post_recv
  activate_recv_chunk ck = do
    found ← (if ck == 0 then take_chunk lib mgr else pure ck)
    require (not (found == 0))
    post_recv lib mgr found
