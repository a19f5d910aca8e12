-- ===== src/Rdm/Stack.antt =====
-- `RdmStack` (src/core/RdmStack.cc and .h).
pub mod Release
use hpnl.Base.{
  ℕ, List, [], ◌∷◌, ◌++◌, Option, none, some, Bool, true, false, not, ◌||◌, ◌==◌, if◌then◌else◌, ℤ,
  success, minus_one,
}
use hpnl.Base.StdMap.{StdMap, lookup, assign, erase}
use hpnl.Base.Run.{ok, fault, M, ◌>>=◌, ◌>>◌, pure, require, and_then, when}
use hpnl.Fabric.{Call, Lib, Obj, fi, fails, put, self, close_if, freeinfo_if}
use hpnl.Chunk.{Mem, ChunkMgr}
use hpnl.Rdm.Connection.{RdmConnection, Names}
use hpnl.Rdm.Connection.Setup

pub record RdmStack : Type 0 where
  pub info : ℕ
  pub server_info : ℕ
  pub fabric : ℕ
  pub domain : ℕ
  pub cq : ℕ
  pub buffer_num : ℕ
  pub is_server : Bool
  pub external_service : Bool
  pub cons : List ℕ
  pub server_con : ℕ
  pub initialized : Bool

-- The constructor.
unfoldable pub construct : (buffer_num : ℕ) (is_server external_service : Bool) → RdmStack
construct buffer_num is_server external_service = record {
  info = 0;
  server_info = 0;
  fabric = 0;
  domain = 0;
  cq = 0;
  buffer_num = buffer_num;
  is_server = is_server;
  external_service = external_service;
  cons = [];
  server_con = 0;
  initialized = false;
}

-- The connections in memory, by address, and the chunks.
pub record World (G : Type 0) : Type 0 where
  pub mem : Mem G
  pub cons : StdMap RdmConnection

-- The flags of fi_getinfo: FI_SOURCE at a server.
abbrev source_flag : Bool → ℕ
source_flag is_server = if is_server then 1 else 0

module _ {G : Type 0} (lib : Lib) (mgr : ChunkMgr G) (names : Names) where
  abbrev pub StackM : Type 0 → Type 0
  StackM A = M (Obj RdmStack (World G)) A

  -- `init` after fi_getinfo. A failure leaves open what is open, for the destructor.
  unfoldable pub open_cq : StackM ℤ
  open_cq = do
    k ← self
    a ← fi lib (Call.cq_open k.domain)
    if fails a
        then pure minus_one
        else do put λ k. record k { cq = a.out; initialized = true }; pure success

  unfoldable pub open_domain : StackM ℤ
  unfolding open_cq
  open_domain = do
    k ← self
    a ← fi lib (Call.open_domain k.fabric k.info)
    if fails a then pure minus_one else do put λ k. record k { domain = a.out }; open_cq

  unfoldable pub open_fabric : StackM ℤ
  unfolding open_domain
  open_fabric = do
    k ← self
    a ← fi lib (Call.open_fabric k.info)
    if fails a then pure minus_one else do put λ k. record k { fabric = a.out }; open_domain

  -- fi_getinfo with hints that are given back either way: the fi_info, unless the call fails.
  unfoldable pub resolve : (ip port : ℕ) → StackM (Option ℕ)
  resolve ip port = do
    k ← self
    h ← fi lib Call.allocinfo
    require (not (h.out == 0))
    a ← fi lib (Call.getinfo ip port (source_flag k.is_server) h.out)
    _ ← fi lib (Call.freeinfo h.out)
    pure (if fails a then none else some a.out)

  after_info : Option ℕ → StackM ℤ
  unfolding open_fabric
  after_info none s = ok minus_one s
  after_info (some info) s = open_fabric (record s { self = record s.self { info = info } })

  unfoldable pub init : StackM ℤ
  unfolding resolve after_info
  init = do found ← resolve 0 0; after_info found

  -- A method of the connection at an address.
  unfoldable pub on_con : {A : Type 0} → ℕ → M (Obj RdmConnection (Mem G)) A → StackM A
  on_con p m s = elim (lookup p s.env.cons) [
    | none ↦ fault
    | some c ↦ and_then (m (record { self = c; env = s.env.mem; trace = s.trace })) (λ a t.
        ok a (record s {
          env = record { mem = t.env; cons = assign p t.self s.env.cons };
          trace = t.trace;
        }))
  ]

  abbrev put_con : ℕ → RdmConnection → StackM (Unit {0})
  put_con p c s = ok tt (record s { env = record s.env { cons = assign p c s.env.cons } })

  -- `new RdmConnection(...)`, its `init`, whose result is not read, and its place in `cons`.
  unfoldable pub new_connection : (ip port info : ℕ) (is_server : Bool) → StackM ℕ
  unfolding on_con
  new_connection ip port info is_server = do
    k ← self
    p ← fi lib Call.new
    put_con p.out
        (Setup.construct p.out ip port info k.domain k.cq k.buffer_num is_server k.external_service)
    _ ← on_con p.out (Setup.init lib mgr names)
    put λ k. record k { cons = k.cons ++ (p.out ∷ []) }
    pure p.out

  serve_info : (ip port : ℕ) → Option ℕ → StackM ℕ
  unfolding new_connection
  serve_info ip port none s = ok 0 s
  serve_info ip port (some info) s =
      and_then
        (new_connection ip port info true
          (record s { self = record s.self { server_info = info } }))
        (λ p t. ok p (record t { self = record t.self { server_con = p } }))

  -- The server's connection, or the null pointer.
  unfoldable pub bind : (ip port : ℕ) (has_mgr : Bool) → StackM ℕ
  unfolding resolve serve_info
  bind ip port has_mgr = do
    k ← self
    if (not k.initialized || ip == 0) || (port == 0 || not has_mgr)
        then pure 0
        else do found ← resolve ip port; serve_info ip port found

  unfoldable pub get_con : (ip port : ℕ) (has_mgr : Bool) → StackM ℕ
  unfolding new_connection
  get_con ip port has_mgr = do
    k ← self
    if (not k.initialized || ip == 0) || (port == 0 || not has_mgr)
        then pure 0
        else new_connection ip port 0 false

  -- `delete con`
  unfoldable pub delete_all : List ℕ → StackM (Unit {0})
  unfolding on_con
  delete_all [] = pure tt
  delete_all (p ∷ ps) = do
    on_con p (Setup.destruct lib mgr names)
    λ s. ok tt (record s { env = record s.env { cons = erase p s.env.cons } })
    delete_all ps

  -- The end of the destructor, which gives the handles back.
  unfoldable pub close_all : StackM (Unit {0})
  close_all = do
    k ← self
    close_if k.cq
    put λ k. record k { cq = 0 }
    freeinfo_if k.info
    put λ k. record k { info = 0 }
    when k.is_server (do freeinfo_if k.server_info; put λ k. record k { server_info = 0 })
    close_if k.domain
    put λ k. record k { domain = 0 }
    close_if k.fabric
    put λ k. record k { fabric = 0 }

  unfoldable pub destruct : StackM (Unit {0})
  unfolding delete_all close_all
  destruct = do k ← self; delete_all k.cons; close_all
