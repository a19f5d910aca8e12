-- ===== src/Chunk/External.antt =====
-- `ExternalChunkMgr` (src/chunk/ExternalChunkMgr.cc), the chunk manager of the Java binding.
pub mod Laws
pub mod History
pub mod Ending
use hpnl.Base.{
  ℕ, zero, suc, ◌+◌, ◌-◌, ◌*◌, ◌%◌, ◌^◌, List, [], ◌∷◌, Option, none, some, not, ◌==◌, ltb,
  if◌then◌else◌, length,
}
use hpnl.Base.StdMap.{StdMap, has, assign, subscript}
use hpnl.Base.Run.{Run, ok, fault, M, ◌>>=◌, ◌>>◌, pure, require}
use hpnl.Fabric.{Call, Lib, Trace, Obj, fi, put}
use hpnl.Chunk.{new_chunk, Heap, update, Used, remove_used_chunk, ChunkMgr}

-- The head of `bufs` is the back of the vector.
pub record ExternalChunkMgr : Type 0 where
  pub bufs : List ℕ
  pub buf_map : StdMap ℕ
  pub buffer_num : ℕ
  pub buffer_size : ℕ
  pub next_id : ℕ

abbrev pub State : Type 0
State = Obj ExternalChunkMgr Heap

-- An unsigned number stored in an `int` and read as a `uint64_t`: its low 32 bits, with the sign
-- extended.
unfoldable pub through_int : ℕ → ℕ
through_int n = let low = n % 2 ^ 32 in if ltb low (2 ^ 31) then low else low + (2 ^ 64 - 2 ^ 32)

unfoldable pub get_id : M State ℕ
get_id s =
    ok s.self.next_id
      (record s { self = record s.self { next_id = (s.self.next_id + 1) % 2 ^ 32 } })

unfoldable pub get_by_id : ℕ → M State ℕ
get_by_id id s =
    let (ck, m) = subscript id s.self.buf_map in
    ok ck (record s { self = record s.self { buf_map = m } })

-- The guard reads `if (!con) con->log_used_chunk(ck)`.
get_back : List ℕ → Option Used → M State (ℕ × Option Used)
get_back [] con s = ok (0, con) s
get_back (ck ∷ rest) none s = fault
get_back (ck ∷ rest) (some used) s =
    ok (ck, some used) (record s { self = record s.self { bufs = rest } })

unfoldable pub get : Option Used → M State (ℕ × Option Used)
unfolding get_back
get con s = get_back s.self.bufs con s

unfoldable pub reclaim : ℕ → Option Used → M State (Option Used)
unfolding remove_used_chunk
reclaim ck con s =
    ok (elim con [ none ↦ none | some used ↦ some (remove_used_chunk s.env ck used) ])
      (record s {
        self = record s.self {
          bufs = ck ∷ s.self.bufs;
          buf_map =
              if has (s.env ck).buffer_id s.self.buf_map
              then s.self.buf_map
              else assign (s.env ck).buffer_id ck s.self.buf_map;
        };
      })

unfoldable pub free_size : M State ℕ
free_size s = ok (length s.self.bufs) s

unfoldable pub external_chunk_mgr : ChunkMgr ExternalChunkMgr
external_chunk_mgr = record {
  get = get;
  get_by_id = get_by_id;
  reclaim = reclaim;
  free_size = free_size;
}

-- The default constructor.
abbrev pub empty : ExternalChunkMgr
empty = record { bufs = []; buf_map = []; buffer_num = 0; buffer_size = 0; next_id = 0 }

module _ (lib : Lib) where
  -- The body of the second constructor's loop.
  unfoldable pub make : M State (Unit {0})
  unfolding get_id reclaim
  make = do
    ck ← fi lib Call.new
    buf ← fi lib (Call.malloc (← λ s. ok s.self.buffer_size s))
    id ← get_id
    place ck.out buf.out id
    _ ← reclaim ck.out none
    pure tt
    where
      place : ℕ → ℕ → ℕ → M State (Unit {0})
      place ck buf id s = ok tt (record s {
        env =
            update s.env ck
              (record new_chunk { buffer = buf; capacity = s.self.buffer_size; buffer_id = id });
      })

  unfoldable pub make_all : ℕ → M State (Unit {0})
  unfolding make
  make_all zero = pure tt
  make_all (suc n) = do make; make_all n

  -- The second constructor: `buffer_num * 2` rounds.
  unfoldable pub construct : (buffer_num buffer_size : ℕ) → Heap → Trace → Run (Unit {0}) State
  unfolding make_all through_int
  construct n size heap trace = make_all (n * 2) (record {
    self = record empty { buffer_num = n; buffer_size = through_int size };
    env = heap;
    trace = trace;
  })

  -- The destructor: the buffer of each chunk, and the chunk.
  unfoldable pub free_all : StdMap ℕ → M State (Unit {0})
  free_all [] = pure tt
  free_all ((id, ck) ∷ rest) = do
    require (not (ck == 0))
    v ← λ s. ok (s.env ck) s
    _ ← fi lib (Call.free v.buffer)
    _ ← fi lib (Call.free ck)
    free_all rest

  unfoldable pub destruct : M State (Unit {0})
  unfolding free_all
  destruct = do m ← λ s. ok s.self.buf_map s; free_all m; put λ m. record m { buf_map = [] }
