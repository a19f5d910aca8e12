-- ===== src/Chunk.antt =====
-- `struct Chunk` and the interface `ChunkMgr` (include/HPNL/ChunkMgr.h), and the record of chunks
-- in use that each connection keeps (src/core/ConnectionImpl.h).
pub mod External
pub mod Pool
use hpnl.Base.{ℕ, ◌≡◌, List, Option, some, ◌==◌, if◌then◌else◌, refl}
use hpnl.Base.StdMap.{StdMap, assign, erase}
use hpnl.Base.Run.{M, ok, and_then, Returns, returns, Returns-bind}
use hpnl.Fabric.{Obj}

-- `ctx_chunk` is `ctx.internal[4]`. `buffer` is an address, and `bytes` is what stands there.
pub record Chunk : Type 0 where
  pub buffer_id : ℕ
  pub capacity : ℕ
  pub size : ℕ
  pub con : ℕ
  pub mr : ℕ
  pub peer_addr : ℕ
  pub ctx_chunk : ℕ
  pub buffer : ℕ
  pub bytes : List ℕ

-- A chunk as `new Chunk()` leaves it.
abbrev pub new_chunk : Chunk
new_chunk = record {
  buffer_id = 0;
  capacity = 0;
  size = 0;
  con = 0;
  mr = 0;
  peer_addr = 0;
  ctx_chunk = 0;
  buffer = 0;
  bytes = List.[];
}

abbrev pub Heap : Type 0
Heap = ℕ → Chunk

abbrev pub update : Heap → ℕ → Chunk → Heap
update h p c q = if p == q then c else h q

-- What objects share: the chunks in memory, and the state of their manager.
pub record Mem (G : Type 0) : Type 0 where
  pub heap : Heap
  pub mgr : G

-- `std::map<int, Chunk*> used_chunks` of a connection.
abbrev pub Used : Type 0
Used = StdMap ℕ

unfoldable pub log_used_chunk : Heap → ℕ → Used → Used
log_used_chunk h ck u = assign (h ck).buffer_id ck u

unfoldable pub remove_used_chunk : Heap → ℕ → Used → Used
remove_used_chunk h ck u = erase (h ck).buffer_id u

-- The interface. A `Connection*` is `none` for the null pointer, or the connection's chunks in
-- use, which come back changed; a `Chunk*` is an address.
pub record ChunkMgr (G : Type 0) : Type 0 where
  pub get : Option Used → M (Obj G Heap) (ℕ × Option Used)
  pub get_by_id : ℕ → M (Obj G Heap) ℕ
  pub reclaim : ℕ → Option Used → M (Obj G Heap) (Option Used)
  pub free_size : M (Obj G Heap) ℕ

-- A call of the manager from a method of another object.
abbrev pub with_mgr : {O G A : Type 0} → M (Obj G Heap) A → M (Obj O (Mem G)) A
with_mgr m s =
    and_then (m (record { self = s.env.mgr; env = s.env.heap; trace = s.trace }))
      (λ a t. ok a (record s { env = record { heap = t.env; mgr = t.self }; trace = t.trace }))

-- A manager that does not fault when a connection asks for a chunk or gives one back.
pub record ChunkMgrLaws {G : Type 0} (mgr : ChunkMgr G) : Type 0 where
  pub get_returns : (u : Used) (s : Obj G Heap) → Returns (λ _ _. Unit {0}) (mgr.get (some u) s)
  pub reclaim_returns :
      (ck : ℕ) (u : Used) (s : Obj G Heap) → Returns (λ _ _. Unit {0}) (mgr.reclaim ck (some u) s)

-- The manager has no hold on the object that calls it.
pub with_mgr-self :
    {O G A : Type 0} (m : M (Obj G Heap) A) (s : Obj O (Mem G))
    → Returns (λ _ _. Unit {0}) (m (record { self = s.env.mgr; env = s.env.heap; trace = s.trace }))
    → Returns (λ _ t. t.self ≡ s.self) (with_mgr m s)
with_mgr-self m s h = Returns-bind h λ a t _. returns refl
