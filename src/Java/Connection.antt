-- ===== src/Java/Connection.antt =====
-- The native methods of Connection and RdmConnection
-- (java/native/com_intel_hpnl_core_Connection.cc and com_intel_hpnl_core_RdmConnection.cc).
use hpnl.Base.{ℕ, List, Option, none, some, ◌==◌, leb, if◌then◌else◌, ℤ, minus_one, length}
use hpnl.Base.StdMap.{lookup, assign, erase}
use hpnl.Base.Run.{ok, fault, M, ◌>>=◌, ◌>>◌, pure, require, and_then}
use hpnl.Fabric.{Lib, Obj, put, self}
use hpnl.Chunk.{Mem}
use hpnl.Chunk.External.{ExternalChunkMgr, external_chunk_mgr}
use hpnl.Msg.Connection.{MsgConnection}
use hpnl.Msg.Connection
use hpnl.Msg.Connection.Io.{Infos}
use hpnl.Msg.Connection.Io
use hpnl.Msg.Stack.{World}
use hpnl.Rdm.Connection.{RdmConnection, Names, overlay}
use hpnl.Rdm.Connection as Peer

-- A Java Connection with its `nativeHandle`, the address of a `MsgConnection`.
abbrev pub ConM : Type 0 → Type 0
ConM A = M (Obj ℕ (World ExternalChunkMgr)) A

with_con :
    {A : Type 0} → Option MsgConnection → M (Obj MsgConnection (Mem ExternalChunkMgr)) A → ConM A
with_con none m s = fault
with_con (some c) m s = and_then (m (record { self = c; env = s.env.mem; trace = s.trace })) (λ a t.
    ok a (record s {
      env = record { mem = t.env; cons = assign s.self t.self s.env.cons };
      trace = t.trace;
    }))

-- A method of the connection.
unfoldable pub on_con : {A : Type 0} → M (Obj MsgConnection (Mem ExternalChunkMgr)) A → ConM A
unfolding with_con
on_con m s = with_con (lookup s.self s.env.cons) m s

unfoldable pub init : (native_con : ℕ) → ConM (Unit {0})
init native_con = put λ _. native_con

-- `ConnectionImpl::recv` and `ConnectionImpl::read`, which `MsgConnection` does not override.
unfoldable pub recv : (buffer id : ℕ) → ConM (Unit {0})
unfolding on_con
recv buffer id = do _ ← on_con (pure minus_one); pure tt

unfoldable pub read : (id local_offset len remote_addr remote_key : ℕ) → ConM ℤ
unfolding on_con
read id local_offset len remote_addr remote_key = on_con (pure minus_one)

module _ (lib : Lib) (infos : Infos) where
  unfoldable pub send : (buffer_size id : ℕ) → ConM ℤ
  unfolding on_con Io.send_by_id
  send buffer_size id = on_con (Io.send_by_id lib external_chunk_mgr infos buffer_size id)

  -- `delete con`; the handle stays.
  unfoldable pub free : ConM (Unit {0})
  unfolding on_con Connection.destruct
  free = do
    p ← self
    if p == 0 then pure tt else do
      on_con (Connection.destruct lib external_chunk_mgr)
      λ s. ok tt (record s { env = record s.env { cons = erase p s.env.cons } })

-- The native `RdmConnection`, as the Java one has hold of it.
abbrev pub PeerM : Type 0 → Type 0
PeerM A = M (Obj RdmConnection (Mem ExternalChunkMgr)) A

-- The bytes of a Java buffer after the name has been copied to its front, past its end or not.
unfoldable pub get_local_name : (memory : List ℕ) → PeerM (List ℕ)
unfolding overlay
get_local_name memory = do
  c ← self
  require (leb (length c.local_name) (length memory))
  pure (overlay 0 c.local_name memory)

unfoldable pub get_local_name_length : PeerM ℕ
get_local_name_length = do c ← self; pure (length c.local_name)

-- The sends. A Java buffer is at its address.
module _ (lib : Lib) (names : Names) where
  unfoldable pub send_peer : (buffer_size buffer_id : ℕ) → PeerM ℤ
  unfolding Peer.send_by_id
  send_peer buffer_size buffer_id =
      Peer.send_by_id lib external_chunk_mgr names buffer_size buffer_id

  unfoldable pub send_to : (buffer_size buffer_id peer_name : ℕ) → PeerM ℤ
  unfolding Peer.send_to
  send_to buffer_size buffer_id peer_name =
      Peer.send_to lib external_chunk_mgr names buffer_size buffer_id peer_name

  unfoldable pub send_buf : (buffer buffer_size : ℕ) → PeerM ℤ
  unfolding Peer.send_buf
  send_buf buffer buffer_size = Peer.send_buf lib external_chunk_mgr names buffer buffer_size

  unfoldable pub send_buf_to : (buffer buffer_size peer_name : ℕ) → PeerM ℤ
  unfolding Peer.send_buf_to
  send_buf_to buffer buffer_size peer_name =
      Peer.send_buf_to lib external_chunk_mgr names buffer buffer_size peer_name
