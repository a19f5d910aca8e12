-- ===== src/External/RdmService/Buffers.antt =====
-- The buffers of a service: when there are enough.
use hpnl.Base.{
  ℕ, ◌+◌, ◌*◌, ◌≡◌, ◌≤◌, ◌<◌, ◌^◌, ◌↔◌, refl, List, [], ◌∷◌, true, arith, length, ap, ◌∙◌,
}
use hpnl.Base.Run.{Returns, returns, Returns-bind, Returns-mono, ◌>>◌, pure}
use hpnl.Fabric.{Lib, Obj}
use hpnl.Chunk.External.{ExternalChunkMgr, external_chunk_mgr, free_size, reclaim}
use hpnl.External.RdmService.{ExternalRdmService, RdmServiceM, set_buffer, is_buffer_enough}
use hpnl.Rdm.Connection.{Names}
use hpnl.Rdm.Stack.{World}

-- A buffer: its address, its size and its id.
pub record Buffer : Type 0 where
  pub address : ℕ
  pub size : ℕ
  pub id : ℕ

module _ (lib : Lib) (names : Names) where
  abbrev Serv : Type 0
  Serv = Obj ExternalRdmService (World ExternalChunkMgr)

  -- `set_buffer` for each buffer.
  unfoldable pub set_buffers : List Buffer → RdmServiceM ExternalChunkMgr (Unit {0})
  set_buffers [] = pure tt
  set_buffers (b ∷ bs) = do
    set_buffer lib external_chunk_mgr names b.address b.size b.id
    set_buffers bs

  abbrev free_chunks : Serv → ℕ
  free_chunks s = length s.env.mem.mgr.bufs

  -- A chunk more is free, and the service is as it was.
  set_buffer-free :
      (address size id : ℕ) (s : Serv)
      → Returns
          (λ _ t. (t.self ≡ s.self) × (free_chunks t ≡ free_chunks s + 1))
          (set_buffer lib external_chunk_mgr names address size id s)
  unfolding set_buffer external_chunk_mgr reclaim
  set_buffer-free address size id s = returns (refl, omega arith)

  set_buffers-free :
      (bs : List Buffer) (s : Serv)
      → Returns
          (λ _ t. (t.self ≡ s.self) × (free_chunks t ≡ free_chunks s + length bs))
          (set_buffers bs s)
  unfolding set_buffers
  set_buffers-free [] s = returns (refl, omega arith)
  set_buffers-free (b ∷ bs) s =
      Returns-bind (set_buffer-free b.address b.size b.id s) λ _ t (same, one).
        Returns-mono (set_buffers-free bs t)
          λ _ u (same', rest). (same' ∙ same, omega (arith, one, rest))

  -- Twice the service's number of buffers fits an int. With the chunk manager of the binding, a service
  -- that gets any buffers says that they are enough just if the chunks that were free and the new
  -- buffers are at least twice the service's number.
  pub is_buffer_enough_iff :
      (bs : List Buffer) (s : Serv)
      → 2 * s.self.buffer_num < 2 ^ 31
      → Returns
          (λ b t.
            (t.self ≡ s.self) × ((b ≡ true) ↔ (2 * s.self.buffer_num ≤ free_chunks s + length bs)))
          ((set_buffers bs >> is_buffer_enough lib external_chunk_mgr names) s)
  unfolding is_buffer_enough external_chunk_mgr free_size
  is_buffer_enough_iff bs s small = Returns-bind (set_buffers-free bs s) λ _ t (same, count).
      let num = ap (λ v. v.buffer_num) same in returns (same, ground (arith, num, count))
