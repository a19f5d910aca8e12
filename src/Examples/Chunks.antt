-- ===== src/Examples/Chunks.antt =====
-- Chunk managers at concrete inputs.
use hpnl.Base.{ℕ, ◌+◌, ◌/◌, ◌≡◌, refl, List, [], ◌∷◌, none, some, arith}
use hpnl.Base.StdMap.{lookup}
use hpnl.Base.Run.{Returns, ◌>>=◌}
use hpnl.Fabric.{Obj}
use hpnl.Fabric.Handles.{closed}
use hpnl.Chunk.{Heap}
use hpnl.Chunk.External.History.{Action, System, history, Keeps, history-Keeps}
use hpnl.Chunk.Pool.{Context, ChunkPool, get_chunk, malloc, allocate, destruct}
use hpnl.Chunk.Pool
use hpnl.Chunk.Pool.Ending.{allocate-destruct}
use hpnl.Chunk.Pool.Ids.{Registered}
use hpnl.Chunk.Pool.Registry.{
  IsConsistent, Filled, get_chunk-Filled, Reclaimed, reclaim-IsConsistent,
}
use hpnl.Examples.{works, heap, manager_state}
use hpnl.Examples.Store.{store, store-Laws}

abbrev no_chunks : Context
no_chunks = record {
  buffer_size = 8;
  domain = 0;
  id = 0;
  chunk_to_id_map = [];
  id_to_chunk_map = [];
}

abbrev pool : Obj (ChunkPool (List ℕ)) Heap
pool = record {
  self = record { context = no_chunks; buffer_size = 8; used_buffers = 0; store = [] };
  env = heap;
  trace = [];
}

pool-IsConsistent : IsConsistent works 8 store 16 store-Laws pool.self
pool-IsConsistent = record { step = refl; free = λ q h. absurd (ground arith) }

get_chunk-Filled_example :
    Returns
      (λ r u. (r.0 ≡ 1) × Filled works 8 store 16 store-Laws 1 u)
      (get_chunk works 8 store none pool)
unfolding malloc
get_chunk-Filled_example =
    get_chunk-Filled works 8 store 16 store-Laws none pool _ 1 pool-IsConsistent refl (ground arith)

-- The pool with one chunk, which a client holds.
abbrev lent : Obj (ChunkPool (List ℕ)) Heap
lent = record {
  self = record {
    context = record no_chunks {
      id = 1;
      chunk_to_id_map = (40, 0) ∷ [];
      id_to_chunk_map = (0, (40, 0)) ∷ [];
    };
    buffer_size = 8;
    used_buffers = 1;
    store = [];
  };
  env = heap;
  trace = [];
}

lent-IsConsistent : IsConsistent works 8 store 16 store-Laws lent.self
lent-IsConsistent = record { step = refl; free = λ q h. absurd (ground arith) }

lent-Registered : Registered lent.self.context 40
unfolding lookup
lent-Registered = record { id = 0; mr = 0; below = omega arith; to_id = refl; to_chunk = refl }

reclaim-IsConsistent_example :
    Returns
      (λ _ t. Reclaimed works 8 store 16 store-Laws 40 lent t)
      (Pool.reclaim works 8 store 40 (some []) lent)
reclaim-IsConsistent_example =
    reclaim-IsConsistent works 8 store 16 store-Laws 40 [] lent lent-IsConsistent lent-Registered
      (omega arith) (omega arith)

abbrev clients : System
clients = record { state = manager_state; used = []; held = [] }

abbrev actions : List Action
actions =
    Action.take ∷ Action.look 3 ∷ Action.take ∷ Action.take ∷ Action.give 8 ∷ Action.give 8 ∷ []

history-Keeps_example : Returns (λ _ z. Keeps clients z) (history actions clients)
history-Keeps_example = history-Keeps actions clients (ground arith)

-- A pool that registers its blocks.
abbrev domain_pool : Obj (ChunkPool (List ℕ)) Heap
domain_pool = record pool { self = record pool.self { context = record no_chunks { domain = 5 } } }

allocate-destruct_example :
    Returns
      (λ _ t. closed 2 t.trace ≡ 32 / (8 + 8) + 0 + 0)
      ((do _ ← allocate works 8 store 32; destruct) domain_pool)
unfolding lookup closed
allocate-destruct_example =
    allocate-destruct works 8 store 32 domain_pool (ground arith) (λ i b. refl) refl (ground arith)
