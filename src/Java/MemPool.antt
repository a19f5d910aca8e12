-- ===== src/Java/MemPool.antt =====
-- `MemPool` (java/hpnl/src/main/java/com/intel/hpnl/core/MemPool.java), and the loop by which
-- the native methods of the services make it grow
-- (java/native/com_intel_hpnl_core_EqService.cc and com_intel_hpnl_core_RdmService.cc).
pub mod Growth
use hpnl.Base.{ℕ, zero, suc, ◌+◌, ◌%◌, ◌^◌, [], Bool, Option, none, some, if◌then◌else◌}
use hpnl.Base.StdMap.{StdMap, assign}
use hpnl.Base.Run.{M, ◌>>=◌, ◌>>◌, pure}
use hpnl.Fabric.{Call, Lib, Obj, fi}

-- `init_buffer_num` is read by the constructor only. The id, a Java int, counts modulo 2 ^ 32.
pub record MemPool : Type 0 where
  pub buffer_size : ℕ
  pub next_buffer_num : ℕ
  pub seq_id : ℕ
  pub buffer_map : StdMap ℕ

-- What the pool asks of a service, `MemoryService.setBuffer`, and what the loop asks of it.
pub record MemoryService (O E : Type 0) : Type 0 where
  pub set_buffer : (buffer size id : ℕ) → M (Obj O E) (Unit {0})
  pub is_buffer_enough : M (Obj O E) Bool

module _ {O E : Type 0} (lib : Lib) (service : MemoryService O E) where
  -- `malloc` stands for `ByteBuffer.allocateDirect`, whose address the service gets.
  unfoldable pub alloc : MemPool → M (Obj O E) MemPool
  alloc p = do
    b ← fi lib (Call.malloc p.buffer_size)
    service.set_buffer b.out p.buffer_size p.seq_id
    pure (record p {
      seq_id = (p.seq_id + 1) % 2 ^ 32;
      buffer_map = assign p.seq_id b.out p.buffer_map;
    })

  -- The loops of the constructor and of `realloc`.
  unfoldable pub alloc_all : ℕ → MemPool → M (Obj O E) MemPool
  unfolding alloc
  alloc_all zero p = pure p
  alloc_all (suc n) p = do q ← alloc p; alloc_all n q

  unfoldable pub construct : (init_buffer_num buffer_size next_buffer_num : ℕ) → M (Obj O E) MemPool
  unfolding alloc_all
  construct init_buffer_num buffer_size next_buffer_num = alloc_all init_buffer_num (record {
    buffer_size = buffer_size;
    next_buffer_num = next_buffer_num;
    seq_id = 0;
    buffer_map = [];
  })

  unfoldable pub realloc : MemPool → M (Obj O E) MemPool
  unfolding alloc_all
  realloc p = alloc_all p.next_buffer_num p

  -- `while (!service->is_buffer_enough()) reallocBufferPool()`, for so many rounds: the pool after
  -- the loop, or none where the loop has not come to its end.
  unfoldable pub refill : (rounds : ℕ) → MemPool → M (Obj O E) (Option MemPool)
  unfolding realloc
  refill zero p = pure none
  refill (suc n) p = do
    enough ← service.is_buffer_enough
    let rest = do q ← realloc p; refill n q
    if enough then pure (some p) else rest
