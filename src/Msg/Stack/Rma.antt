-- ===== src/Msg/Stack/Rma.antt =====
-- The table of buffers for remote access: `reg_rma_buffer`, `unreg_rma_buffer`, `get_rma_chunk`.
pub mod Lookup
use hpnl.Base.{ℕ, not, ◌&&◌, ◌==◌, if◌then◌else◌}
use hpnl.Base.StdMap.{insert, erase, subscript}
use hpnl.Base.Run.{ok, ◌>>=◌, ◌>>◌, pure}
use hpnl.Fabric.{Call, Lib, fi, fails, put, self}
use hpnl.Chunk.{Chunk, new_chunk, update}
use hpnl.Chunk.{ChunkMgr}
use hpnl.Msg.Stack.{StackM}

module _ {G : Type 0} (lib : Lib) (mgr : ChunkMgr G) where
  abbrev write_chunk : ℕ → Chunk → StackM lib mgr (Unit {0})
  write_chunk ck v s = ok tt (record s {
    env = record s.env { mem = record s.env.mem { heap = update s.env.mem.heap ck v } };
  })

  abbrev chunk_at : ℕ → StackM lib mgr Chunk
  chunk_at ck s = ok (s.env.mem.heap ck) s

  -- The part of `reg_rma_buffer` behind its guard; 0 is the null pointer.
  unfoldable pub register : (buffer size id : ℕ) → StackM lib mgr ℕ
  register buffer size id = do
    k ← self
    ck ← fi lib Call.new
    let v = record new_chunk { buffer = buffer; capacity = size; buffer_id = id }
    write_chunk ck.out v
    a ← fi lib (Call.mr_reg k.domain buffer size)
    if fails a then (do _ ← fi lib (Call.free ck.out); pure 0) else do
      write_chunk ck.out (record v { mr = a.out })
      put λ k. record k { rma_chunk_map = insert id ck.out k.rma_chunk_map }
      pure ck.out

  unfoldable pub reg_rma_buffer : (buffer size id : ℕ) → StackM lib mgr ℕ
  unfolding register
  reg_rma_buffer buffer size id = do
    k ← self
    if (k.initialized && not (buffer == 0)) && not (size == 0)
        then register buffer size id
        else pure 0

  -- `rmaChunkMap[buffer_id]`
  unfoldable pub get_rma_chunk : ℕ → StackM lib mgr ℕ
  get_rma_chunk id s =
      let (ck, m) = subscript id s.self.rma_chunk_map in
      ok ck (record s { self = record s.self { rma_chunk_map = m } })

  unfoldable pub unreg_rma_buffer : ℕ → StackM lib mgr (Unit {0})
  unfolding get_rma_chunk
  unreg_rma_buffer id = do
    ck ← get_rma_chunk id
    if ck == 0 then pure tt else do
      v ← chunk_at ck
      _ ← fi lib (Call.close v.mr)
      _ ← fi lib (Call.free ck)
      put λ k. record k { rma_chunk_map = erase id k.rma_chunk_map }
