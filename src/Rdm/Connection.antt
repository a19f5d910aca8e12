-- ===== src/Rdm/Connection.antt =====
-- `RdmConnection` (src/core/RdmConnection.cc and .h). Names of peers are addresses; the text that
-- fi_av_straddr makes of one stands as a number, since texts are only compared.
pub mod Codec
pub mod Peers
pub mod Setup
pub mod Release
use hpnl.Base.{
  ℕ, ◌+◌, ◌-◌, ◌%◌, ◌^◌, List, ◌++◌, Option, none, some, Bool, true, false, not, ◌==◌, ltb, leb,
  if◌then◌else◌, ℤ, pos, negsuc, length, take, drop,
}
use hpnl.Base.StdMap.{StdMap, lookup, insert, subscript}
use hpnl.Base.Run.{ok, fault, M, ◌>>=◌, ◌>>◌, pure, require}
use hpnl.Fabric.{Call, Lib, Obj, fi, put, self}
use hpnl.Chunk.{Chunk, update, Mem, Used, ChunkMgr}
use hpnl.Chunk.External.{through_int}

-- `local_name` holds the bytes that count, `local_name_len` of them.
pub record RdmConnection : Type 0 where
  pub this : ℕ
  pub ip : ℕ
  pub port : ℕ
  pub info : ℕ
  pub domain : ℕ
  pub ep : ℕ
  pub av : ℕ
  pub con_cq : ℕ
  pub buffer_num : ℕ
  pub is_server : Bool
  pub external_service : Bool
  pub local_name : List ℕ
  pub address_map : StdMap ℕ
  pub used_chunks : Used
  pub send_chunks : List ℕ
  pub send_chunks_map : StdMap ℕ
  pub recv_callback : ℕ
  pub send_callback : ℕ

-- What is read of structures of libfabric: an fi_info's destination, and the bytes of a name.
pub record Names : Type 0 where
  pub dest_addr : ℕ → ℕ
  pub bytes : ℕ → List ℕ

-- `memcpy(at + offset, source, ...)`, for a place inside the memory.
unfoldable pub overlay : (offset : ℕ) (source memory : List ℕ) → List ℕ
overlay offset source memory =
    take offset memory ++ (source ++ drop (offset + length source) memory)

-- What `encode_` writes before it looks the peer up. True if the message has fitted.
unfoldable pub encode_chunk : (name buffer : List ℕ) → Chunk → Bool × Chunk
unfolding overlay
encode_chunk name buffer c =
    let named = record c { bytes = overlay 0 name c.bytes } in
    if ltb c.capacity (length name)
    then (false, c)
    else if ltb (c.capacity - length name) (length buffer)
    then (false, named)
    else (
      true,
      record named {
        bytes = overlay (length name) buffer named.bytes;
        size = length buffer + length name;
      },
    )

-- The length that `decode_` computes, in an `int`, and hands to memcpy.
unfoldable pub payload_size : (name : List ℕ) → Chunk → ℕ
unfolding through_int
payload_size name c = through_int ((c.size + 2 ^ 64 - length name) % 2 ^ 64)

-- `decode_` for a `peer_name` and a `buffer` that are not null: both are copied. `none` is a copy past
-- the end of the memory.
unfoldable pub decode_chunk : (name : List ℕ) → Chunk → Option (List ℕ × List ℕ)
unfolding payload_size
decode_chunk name c =
    if leb (length name + payload_size name c) (length c.bytes)
    then some (take (length name) c.bytes, take (payload_size name c) (drop (length name) c.bytes))
    else none

-- The number of addresses that fi_av_insert reports.
abbrev is_one : ℤ → Bool
is_one (pos n) = n == 1
is_one (negsuc n) = false

module _ {G : Type 0} (lib : Lib) (mgr : ChunkMgr G) (names : Names) where
  abbrev pub RdmM : Type 0 → Type 0
  RdmM A = M (Obj RdmConnection (Mem G)) A

  abbrev pub chunk_at : ℕ → RdmM Chunk
  chunk_at ck s = ok (s.env.heap ck) s

  abbrev pub write_chunk : ℕ → Chunk → RdmM (Unit {0})
  write_chunk ck v s = ok tt (record s { env = record s.env { heap = update s.env.heap ck v } })

  -- A peer that is new goes into the address vector, which has to succeed, and into the map.
  unfoldable pub insert_peer : (text name : ℕ) → RdmM ℕ
  insert_peer text name = do
    c ← self
    a ← fi lib (Call.av_insert c.av name)
    require (is_one a.ret)
    put λ c. record c { address_map = insert text a.out c.address_map }
    pure a.out

  -- `if (addr_iter == address_map.end()) ... else ...`.
  abbrev pub known_or : RdmM ℕ → Option ℕ → RdmM ℕ
  known_or fresh none = fresh
  known_or fresh (some addr) = pure addr

  -- The address of a peer, as `encode_`, `sendTo` and `sendBufTo` find it.
  unfoldable pub peer_addr : (name : ℕ) → RdmM ℕ
  unfolding insert_peer
  peer_addr name = do
    c ← self
    text ← fi lib (Call.av_straddr c.av name)
    known_or (insert_peer text.out name) (lookup text.out c.address_map)

  -- The address of the destination, as `address_map[tmp]` gives it.
  unfoldable pub dest_addr : RdmM ℕ
  dest_addr = do
    c ← self
    text ← fi lib (Call.av_straddr c.av (names.dest_addr c.info))
    let (addr, m) = subscript text.out c.address_map
    put λ c. record c { address_map = m }
    pure addr

  -- `encode_`. A message that does not fit leaves without looking the peer up.
  unfoldable pub encode_ : (ck : ℕ) (buffer : List ℕ) (peer_name : ℕ) → RdmM (Unit {0})
  unfolding encode_chunk peer_addr
  encode_ ck buffer peer_name = do
    c ← self
    v ← chunk_at ck
    let (fits, w) = encode_chunk c.local_name buffer v
    write_chunk ck (record w { ctx_chunk = ck; con = c.this })
    if not fits then pure tt else do
      addr ← peer_addr peer_name
      v ← chunk_at ck
      write_chunk ck (record v { peer_addr = addr })

  unfoldable pub decode_ : (ck : ℕ) → RdmM (List ℕ × List ℕ)
  unfolding decode_chunk
  decode_ ck = do
    c ← self
    v ← chunk_at ck
    elim (decode_chunk c.local_name v) [ none ↦ (λ s. fault) | some r ↦ pure r ]

  unfoldable pub send : ℕ → RdmM ℤ
  send ck = do
    c ← self
    v ← chunk_at ck
    a ← fi lib (Call.send c.ep v.buffer v.size v.peer_addr ck)
    pure a.ret

  -- The end of `send(int, int)` and `sendTo`.
  unfoldable pub send_message : (ck buffer_size addr : ℕ) → RdmM ℤ
  send_message ck size addr = do
    c ← self
    v ← chunk_at ck
    write_chunk ck (record v { con = c.this; peer_addr = addr; ctx_chunk = ck })
    a ← fi lib (Call.sendmsg c.ep v.buffer size addr ck)
    pure a.ret

  -- `send_chunks_map[buffer_id]`, which is dereferenced.
  unfoldable pub send_chunk : ℕ → RdmM ℕ
  send_chunk id = do
    c ← self
    let (ck, m) = subscript id c.send_chunks_map
    put λ c. record c { send_chunks_map = m }
    require (not (ck == 0))
    pure ck

  unfoldable pub send_by_id : (buffer_size buffer_id : ℕ) → RdmM ℤ
  unfolding send_chunk dest_addr send_message
  send_by_id size id = do ck ← send_chunk id; addr ← dest_addr; send_message ck size addr

  unfoldable pub send_to : (buffer_size buffer_id peer_name : ℕ) → RdmM ℤ
  unfolding send_chunk peer_addr send_message
  send_to size id peer_name = do
    ck ← send_chunk id
    addr ← peer_addr peer_name
    send_message ck size addr

  -- A context of its own, which is marked as having no chunk.
  unfoldable pub bare_context : RdmM ℕ
  bare_context = do
    ctx ← fi lib (Call.malloc 64)
    require (not (ctx.out == 0))
    v ← chunk_at ctx.out
    write_chunk ctx.out (record v { ctx_chunk = 0 })
    pure ctx.out

  unfoldable pub send_buf : (buffer buffer_size : ℕ) → RdmM ℤ
  unfolding dest_addr bare_context
  send_buf buffer size = do
    ctx ← bare_context
    addr ← dest_addr
    c ← self
    a ← fi lib (Call.send c.ep buffer size addr ctx)
    pure a.ret

  unfoldable pub send_buf_to : (buffer buffer_size peer_name : ℕ) → RdmM ℤ
  unfolding peer_addr bare_context
  send_buf_to buffer size peer_name = do
    ctx ← bare_context
    addr ← peer_addr peer_name
    c ← self
    a ← fi lib (Call.send c.ep buffer size addr ctx)
    pure a.ret
