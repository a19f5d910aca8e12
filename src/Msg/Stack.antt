-- ===== src/Msg/Stack.antt =====
-- `MsgStack` (src/core/MsgStack.cc and .h): the fabric, its queues, and the table of connections.
pub mod Broken
pub mod Cleanup
pub mod Queues
pub mod Setup
pub mod Rma
pub mod Table
use hpnl.Base.{
  ℕ, zero, suc, ◌+◌, List, [], ◌∷◌, Bool, true, false, not, ◌==◌, ltb, if◌then◌else◌, ℤ, success,
  minus_one, set, take, replicate,
}
use hpnl.Base.StdMap.{StdMap}
use hpnl.Base.Run.{M, ◌>>=◌, ◌>>◌, pure, require}
use hpnl.Fabric.{Call, Lib, Obj, fi, fails, put, self, close_if, freeinfo_if}
use hpnl.Chunk.{Mem, ChunkMgr}
use hpnl.Msg.Connection.{MsgConnection}
use hpnl.Msg.Connection
use hpnl.Msg.Connection.Io

abbrev pub max_workers : ℕ
max_workers = 10

pub record MsgStack : Type 0 where
  pub worker_num : ℕ
  pub buffer_num : ℕ
  pub is_server : Bool
  pub external_service : Bool
  pub seq_num : ℕ
  pub fabric : ℕ
  pub domain : ℕ
  pub hints : ℕ
  pub info : ℕ
  pub hints_tmp : ℕ
  pub info_tmp : ℕ
  pub peq : ℕ
  pub pep : ℕ
  pub con_map : StdMap ℕ
  pub cqs : List ℕ
  pub rma_chunk_map : StdMap ℕ
  pub initialized : Bool

-- The constructor.
unfoldable pub construct :
    (worker_num buffer_num : ℕ) (is_server external_service : Bool) → MsgStack
construct worker_num buffer_num is_server external_service = record {
  worker_num = worker_num;
  buffer_num = buffer_num;
  is_server = is_server;
  external_service = external_service;
  seq_num = 0;
  fabric = 0;
  domain = 0;
  hints = 0;
  info = 0;
  hints_tmp = 0;
  info_tmp = 0;
  peq = 0;
  pep = 0;
  con_map = [];
  cqs = replicate max_workers 0;
  rma_chunk_map = [];
  initialized = false;
}

-- The connections in memory, by address, and the chunks.
pub record World (G : Type 0) : Type 0 where
  pub mem : Mem G
  pub cons : StdMap MsgConnection

-- The flags of fi_getinfo: FI_SOURCE at a server.
abbrev pub source_flag : Bool → ℕ
source_flag is_server = if is_server then 1 else 0

module _ {G : Type 0} (lib : Lib) (mgr : ChunkMgr G) where
  abbrev pub StackM : Type 0 → Type 0
  StackM A = M (Obj MsgStack (World G)) A

  -- The labels at the end of `init`, each of which runs into the next.
  unfoldable pub free_hints : StackM ℤ
  free_hints = do
    k ← self
    freeinfo_if k.hints
    put λ k. record k { hints = 0; initialized = false }
    pure minus_one

  unfoldable pub free_info : StackM ℤ
  unfolding free_hints
  free_info = do k ← self; freeinfo_if k.info; put λ k. record k { info = 0 }; free_hints

  unfoldable pub free_fabric : StackM ℤ
  unfolding free_info
  free_fabric = do k ← self; close_if k.fabric; put λ k. record k { fabric = 0 }; free_info

  unfoldable pub free_eq : StackM ℤ
  unfolding free_fabric
  free_eq = do k ← self; close_if k.peq; put λ k. record k { peq = 0 }; free_fabric

  unfoldable pub free_domain : StackM ℤ
  unfolding free_eq
  free_domain = do k ← self; close_if k.domain; put λ k. record k { domain = 0 }; free_eq

  -- The loop that closes queues; the pointers stay.
  unfoldable pub close_cqs : List ℕ → StackM (Unit {0})
  close_cqs [] = pure tt
  close_cqs (q ∷ qs) = do close_if q; close_cqs qs

  unfoldable pub free_cq : StackM ℤ
  unfolding close_cqs free_domain
  free_cq = do
    k ← self
    require (not (ltb max_workers k.worker_num))
    close_cqs (take k.worker_num k.cqs)
    free_domain

  -- The loop of `init`, at round `i` with `n` rounds to go. A round past the end of the array is a
  -- fault.
  unfoldable pub open_cqs : (n i : ℕ) → StackM ℤ
  unfolding free_cq
  open_cqs zero i = do put λ k. record k { initialized = true }; pure success
  open_cqs (suc n) i = do
    k ← self
    require (ltb i max_workers)
    a ← fi lib (Call.cq_open k.domain)
    let rest = open_cqs n (i + 1)
    if fails a then free_cq else do put λ k. record k { cqs = set k.cqs i a.out }; rest

  unfoldable pub open_domain : StackM ℤ
  open_domain = do
    k ← self
    a ← fi lib (Call.open_domain k.fabric k.info)
    if fails a
        then free_domain
        else do put λ k. record k { domain = a.out }; open_cqs k.worker_num 0

  unfoldable pub open_eq : StackM ℤ
  open_eq = do
    k ← self
    a ← fi lib (Call.eq_open k.fabric)
    if fails a then free_eq else do put λ k. record k { peq = a.out }; open_domain

  unfoldable pub open_fabric : StackM ℤ
  open_fabric = do
    k ← self
    a ← fi lib (Call.open_fabric k.info)
    if fails a then free_fabric else do put λ k. record k { fabric = a.out }; open_eq

  unfoldable pub get_info : StackM ℤ
  get_info = do
    k ← self
    a ← fi lib (Call.getinfo 0 0 (source_flag k.is_server) k.hints)
    if fails a then free_info else do put λ k. record k { info = a.out }; open_fabric

  unfoldable pub init : StackM ℤ
  unfolding get_info open_fabric open_eq open_domain open_cqs
  init = do
    a ← fi lib Call.allocinfo
    put λ k. record k { hints = a.out }
    if a.out == 0 then free_hints else get_info
