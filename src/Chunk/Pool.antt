-- ===== src/Chunk/Pool.antt =====
-- `ChunkPool`, `ChunkPoolContext` and `PoolAllocator` (src/chunk/ChunkMgr.cc). The class derives
-- from boost::pool, which is not part of the repository: the free store of the pool is a
-- parameter, `Storage`.
pub mod Laws
pub mod Ids
pub mod Registry
pub mod Ending
use hpnl.Base.{
  ℕ, zero, suc, ◌+◌, ◌-◌, ◌/◌, ◌%◌, ◌^◌, List, [], ◌∷◌, Option, none, some, Bool, ◌==◌,
  if◌then◌else◌,
}
use hpnl.Base.StdMap.{StdMap, lookup, assign}
use hpnl.Base.Run.{ok, fault, M, ◌>>=◌, ◌>>◌, pure, get}
use hpnl.Fabric.{Call, Lib, Obj, fi, fails, put, close_if}
use hpnl.Chunk.{Heap, update, Used, log_used_chunk, remove_used_chunk, ChunkMgr}

-- boost::simple_segregated_storage and the growth of boost::pool: `request` is how many bytes the
-- pool asks its allocator for when the store is empty, and `add_block` cuts a block of so many
-- bytes into chunks.
pub record Storage (S : Type 0) : Type 0 where
  pub is_empty : S → Bool
  pub malloc : S → ℕ × S
  pub free : ℕ → S → S
  pub request : S → ℕ
  pub add_block : ℕ → ℕ → S → S

pub record Context : Type 0 where
  pub buffer_size : ℕ
  pub domain : ℕ
  pub id : ℕ
  pub chunk_to_id_map : StdMap ℕ
  pub id_to_chunk_map : StdMap (ℕ × ℕ)

pub record ChunkPool (S : Type 0) : Type 0 where
  pub context : Context
  pub buffer_size : ℕ
  pub used_buffers : ℕ
  pub store : S

-- One round of the loop of `PoolAllocator::malloc`: the chunk at `ptr` gets the next id.
unfoldable pub number_one : (mr ptr : ℕ) → Context → Context
number_one mr ptr c = record c {
  chunk_to_id_map = assign ptr c.id c.chunk_to_id_map;
  id_to_chunk_map = assign c.id (ptr, mr) c.id_to_chunk_map;
  id = c.id + 1;
}

-- The loop with `n` rounds to go.
unfoldable pub number_chunks : (chunk_size mr : ℕ) → ℕ → ℕ → Context → Context
number_chunks chunk_size mr zero ptr c = c
number_chunks chunk_size mr (suc n) ptr c =
    number_chunks chunk_size mr n (ptr + chunk_size) (number_one mr ptr c)

-- `chunk_to_id_map[ck]`: a missing key is inserted with 0.
unfoldable pub id_of : ℕ → Context → ℕ × Context
id_of ck c = elim (lookup ck c.chunk_to_id_map) [
  | some id ↦ (id, c)
  | none ↦ (0, record c { chunk_to_id_map = assign ck 0 c.chunk_to_id_map })
]

-- `id_to_chunk_map[id]`: a missing key is inserted with two null pointers.
unfoldable pub chunk_of : ℕ → Context → (ℕ × ℕ) × Context
chunk_of id c = elim (lookup id c.id_to_chunk_map) [
  | some e ↦ (e, c)
  | none ↦ ((0, 0), record c { id_to_chunk_map = assign id (0, 0) c.id_to_chunk_map })
]

-- The loop of the destructor: each chunk's registration is closed, if there is one.
unfoldable pub close_all : {S : Type 0} → StdMap (ℕ × ℕ) → M (Obj (ChunkPool S) Heap) (Unit {0})
close_all [] = pure tt
close_all ((id, (ck, mr)) ∷ rest) = do close_if mr; close_all rest

-- The destructor of `ChunkPool`.
unfoldable pub destruct : {S : Type 0} → M (Obj (ChunkPool S) Heap) (Unit {0})
unfolding close_all
destruct = do
  s ← get
  close_all s.self.context.id_to_chunk_map
  put λ p. record p { context = record p.context { id_to_chunk_map = []; chunk_to_id_map = [] } }

module _ {S : Type 0} (lib : Lib) (sizeof_chunk : ℕ) (st : Storage S) where
  abbrev PoolM : Type 0 → Type 0
  PoolM A = M (Obj (ChunkPool S) Heap) A

  -- The block and its registration; 0 is the null pointer.
  register : ℕ → ℕ → ℕ → PoolM (Option ℕ)
  register domain memory bytes s =
      if domain == 0
      then ok (some 0) s
      else (do
        a ← fi lib (Call.mr_reg domain memory bytes)
        pure (if fails a then none else some a.out))
          s

  number_block : ℕ → ℕ → ℕ → Option ℕ → PoolM ℕ
  number_block chunk_size bytes memory none s = ok 0 s
  number_block chunk_size bytes memory (some mr) s = ok memory (record s {
    self = record s.self {
      context = number_chunks chunk_size mr (bytes / chunk_size) memory s.self.context;
    };
  })

  -- `PoolAllocator::malloc`.
  unfoldable pub allocate : ℕ → PoolM ℕ
  unfolding register number_block
  allocate bytes = do
    s ← get
    let chunk_size = s.self.context.buffer_size + sizeof_chunk
    memory ← fi lib (Call.malloc bytes)
    mr ← register s.self.context.domain memory.out bytes
    number_block chunk_size bytes memory.out mr

  -- `PoolAllocator::free`, which boost::pool calls for a block that it has no use for.
  unfoldable pub free_block : (block : ℕ) → PoolM (Unit {0})
  free_block block = do _ ← fi lib (Call.free block); pure tt

  take_block : ℕ → ℕ → PoolM ℕ
  take_block bytes block s =
      if block == 0
      then ok 0 s
      else let (ck, store) = st.malloc (st.add_block block bytes s.self.store) in
        ok ck (record s { self = record s.self { store = store } })

  -- `malloc` of boost::pool, reached through `system_malloc`.
  unfoldable pub system_malloc : PoolM ℕ
  unfolding allocate take_block
  system_malloc = do
    s ← get
    let bytes = st.request s.self.store
    block ← allocate bytes
    take_block bytes block

  -- `ChunkPool::malloc`.
  unfoldable pub malloc : PoolM ℕ
  unfolding system_malloc
  malloc s =
      if st.is_empty s.self.store
      then system_malloc s
      else let (ck, store) = st.malloc s.self.store in
        ok ck (record s { self = record s.self { store = store } })

  unfoldable pub get_by_id : ℕ → PoolM ℕ
  get_by_id id s =
      ok (elim (lookup id s.self.context.id_to_chunk_map) [ none ↦ 0 | some e ↦ e.0 ]) s

  -- The fields of the chunk that `get` hands out. A null pointer is written through.
  unfoldable pub fill : ℕ → Option Used → PoolM (ℕ × Option Used)
  fill ck con s =
      if ck == 0
      then fault
      else let used : Option Used = elim con [
        | none ↦ none
        | some u ↦ some (log_used_chunk s.env ck u)
      ] in
        let (id, c) = id_of ck s.self.context in
        let (e, c') = chunk_of id c in
        ok (ck, used)
          (record s {
            self = record s.self {
              context = c';
              used_buffers = (s.self.used_buffers + 1) % 2 ^ 64;
            };
            env = update s.env ck (record (s.env ck) {
              capacity = s.self.buffer_size;
              buffer_id = id;
              mr = e.1;
              buffer = ck + sizeof_chunk;
              size = 0;
              ctx_chunk = ck;
            });
          })

  unfoldable pub get_chunk : Option Used → PoolM (ℕ × Option Used)
  unfolding malloc fill
  get_chunk con = do ck ← malloc; fill ck con

  -- A null connection is dereferenced.
  unfoldable pub reclaim : ℕ → Option Used → PoolM (Option Used)
  unfolding remove_used_chunk
  reclaim ck none s = fault
  reclaim ck (some used) s = ok (some (remove_used_chunk s.env ck used)) (record s {
    self = record s.self {
      store = st.free ck s.self.store;
      used_buffers = (s.self.used_buffers + 2 ^ 64 - 1) % 2 ^ 64;
    };
  })

  -- INT_MAX
  unfoldable pub free_size : PoolM ℕ
  free_size s = ok (2 ^ 31 - 1) s

  unfoldable pub chunk_pool : ChunkMgr (ChunkPool S)
  chunk_pool = record {
    get = get_chunk;
    get_by_id = get_by_id;
    reclaim = reclaim;
    free_size = free_size;
  }

-- The constructor, with the domain of the service or the null pointer.
unfoldable pub construct : {S : Type 0} (domain request_buffer_size : ℕ) → S → ChunkPool S
construct domain size store = record {
  context = record {
    buffer_size = size;
    domain = domain;
    id = 0;
    chunk_to_id_map = List.[];
    id_to_chunk_map = List.[];
  };
  buffer_size = size;
  used_buffers = 0;
  store = store;
}
