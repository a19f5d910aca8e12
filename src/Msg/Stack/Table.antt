-- ===== src/Msg/Stack/Table.antt =====
-- The passive endpoint and the table of connections: `bind`, `listen`, `connect`, `accept`,
-- `reap`, `get_connection`, and the destructor.
pub mod Assign
pub mod Accepted
pub mod Dialled
pub mod Deleted
use hpnl.Base.{
  ℕ, ◌+◌, ◌%◌, ◌^◌, List, [], ◌∷◌, Option, none, some, Bool, true, false, not, ◌&&◌, ◌||◌, ◌==◌,
  ltb, if◌then◌else◌, ℤ, pos, failed, success, minus_one, get_elem?, take, map,
}
use hpnl.Base.StdMap.{lookup, assign, insert, erase, has}
use hpnl.Base.Run.{ok, fault, M, ◌>>=◌, ◌>>◌, pure, require, and_then, when}
use hpnl.Fabric.{Call, Lib, Obj, fi, fails, put, self, close_if, freeinfo_if}
use hpnl.Chunk.{Mem, ChunkMgr}
use hpnl.Msg.Connection.{MsgConnection, ConStatus}
use hpnl.Msg.Connection
use hpnl.Msg.Connection.Io.{Infos}
use hpnl.Msg.Connection.Io
use hpnl.Msg.Stack.{StackM, source_flag, close_cqs, max_workers}

module _ {G : Type 0} (lib : Lib) (mgr : ChunkMgr G) (infos : Infos) where
  -- `fi_allocinfo` and `fi_getinfo` for an address, as in `bind` and `connect`: true if both
  -- succeed.
  unfoldable pub resolve : (ip port : ℕ) → StackM lib mgr Bool
  resolve ip port = do
    k ← self
    h ← fi lib Call.allocinfo
    put λ k. record k { hints_tmp = h.out }
    if h.out == 0 then pure false else do
      a ← fi lib (Call.getinfo ip port (source_flag k.is_server) h.out)
      if fails a then pure false else do put λ k. record k { info_tmp = a.out }; pure true

  unfoldable pub bind_pep : StackM lib mgr ℕ
  bind_pep = do
    k ← self
    a ← fi lib (Call.passive_ep k.fabric k.info_tmp)
    if fails a then pure 0 else do
      put λ k. record k { pep = a.out }
      b ← fi lib (Call.pep_bind a.out k.peq)
      pure (if fails b then 0 else k.peq)

  -- The event queue of the passive endpoint, or the null pointer.
  unfoldable pub bind : (ip port : ℕ) → StackM lib mgr ℕ
  unfolding resolve bind_pep
  bind ip port = do
    k ← self
    if (not k.initialized || ip == 0) || port == 0
        then pure 0
        else do good ← resolve ip port; if good then bind_pep else pure 0

  unfoldable pub listen : StackM lib mgr ℤ
  listen = do
    k ← self
    if not k.initialized || k.pep == 0
        then pure minus_one
        else do a ← fi lib (Call.listen k.pep); pure (if fails a then minus_one else success)

  -- A method of the connection at an address.
  unfoldable pub on_con : {A : Type 0} → ℕ → M (Obj MsgConnection (Mem G)) A → StackM lib mgr A
  on_con p m s = elim (lookup p s.env.cons) [
    | none ↦ fault
    | some c ↦ and_then (m (record { self = c; env = s.env.mem; trace = s.trace })) (λ a t.
        ok a (record s {
          env = record { mem = t.env; cons = assign p t.self s.env.cons };
          trace = t.trace;
        }))
  ]

  abbrev put_con : ℕ → MsgConnection → StackM lib mgr (Unit {0})
  put_con p c s = ok tt (record s { env = record s.env { cons = assign p c s.env.cons } })

  -- `new MsgConnection(...)` on the queue whose turn it is. The remainder by zero workers, and an
  -- index past the end of the array, are faults.
  unfoldable pub new_connection : (info : ℕ) (is_server : Bool) (junk : ℕ) → StackM lib mgr ℕ
  new_connection info is_server junk = do
    k ← self
    p ← fi lib Call.new
    require (not (k.worker_num == 0))
    let index = k.seq_num % k.worker_num
    q ← queue (get_elem? k.cqs index)
    put_con p.out (
        Connection.construct p.out k.fabric info k.domain q is_server k.buffer_num index
          k.external_service junk)
    pure p.out
    where
      queue : Option ℕ → StackM lib mgr ℕ
      queue none s = fault
      queue (some q) s = ok q s

  -- `delete con`
  unfoldable pub delete_connection : ℕ → StackM lib mgr (Unit {0})
  unfolding on_con
  delete_connection p = do
    on_con p (Connection.destruct lib mgr)
    λ s. ok tt (record s { env = record s.env { cons = erase p s.env.cons } })

  -- The connection enters the table, under its event queue, with a status; the turn moves on.
  unfoldable pub enter : ℕ → ConStatus → StackM lib mgr ℕ
  enter p status s = elim (lookup p s.env.cons) [
    | none ↦ fault
    | some c ↦ ok c.con_eq (record s {
      self = record s.self {
        seq_num = (s.self.seq_num + 1) % 2 ^ 64;
        con_map = insert c.con_eq p s.self.con_map;
      };
      env = record s.env { cons = assign p (record c { status = status }) s.env.cons };
    })
  ]

  -- A result of the connection's `connect` that `MsgStack::connect` goes on with.
  abbrev pub is_pending : ℤ → Bool
  is_pending (pos n) = n == 11
  is_pending r = false

  unfoldable pub start_connection : (info junk : ℕ) → StackM lib mgr ℕ
  unfolding new_connection on_con delete_connection enter
  start_connection info junk = do
    p ← new_connection info false junk
    r ← on_con p (Connection.init lib mgr)
    if failed r then (do delete_connection p; pure 0) else do
      res ← on_con p (Io.connect lib mgr infos)
      if failed res && not (is_pending res)
          then (do delete_connection p; pure 0)
          else enter p ConStatus.connect_req

  unfoldable pub connect : (ip port : ℕ) (has_mgr : Bool) (junk : ℕ) → StackM lib mgr ℕ
  unfolding resolve start_connection
  connect ip port has_mgr junk = do
    k ← self
    if (not k.initialized || ip == 0) || (port == 0 || not has_mgr) then pure 0 else do
      good ← resolve ip port
      if not good then pure 0 else do k ← self; start_connection k.info_tmp junk

  unfoldable pub accept_connection : (info junk : ℕ) → StackM lib mgr ℕ
  unfolding new_connection on_con delete_connection enter
  accept_connection info junk = do
    p ← new_connection info true junk
    r ← on_con p (Connection.init lib mgr)
    if failed r then (do delete_connection p; pure 0) else do
      eq ← enter p ConStatus.accept_req
      a ← on_con p (Io.accept lib mgr infos)
      pure (if failed a then 0 else eq)

  unfoldable pub accept : (info junk : ℕ) → StackM lib mgr ℕ
  unfolding accept_connection
  accept info junk = do
    k ← self
    if not k.initialized || info == 0 then pure 0 else accept_connection info junk

  -- An unknown id fails the assertion.
  unfoldable pub reap : ℕ → StackM lib mgr (Unit {0})
  reap id = do
    k ← self
    require (has id k.con_map)
    put λ k. record k { con_map = erase id k.con_map }

  unfoldable pub get_connection : ℕ → StackM lib mgr ℕ
  get_connection id = do k ← self; pure (elim (lookup id k.con_map) [ none ↦ 0 | some p ↦ p ])

  unfoldable pub delete_all : List ℕ → StackM lib mgr (Unit {0})
  unfolding delete_connection
  delete_all [] = pure tt
  delete_all (p ∷ ps) = do delete_connection p; delete_all ps

  -- The loop that deletes the chunks of the remote access table.
  unfoldable pub free_chunks : List ℕ → StackM lib mgr (Unit {0})
  free_chunks [] = pure tt
  free_chunks (ck ∷ cks) = do
    when (not (ck == 0)) (do _ ← fi lib (Call.free ck); pure tt)
    free_chunks cks

  -- The destructor.
  unfoldable pub destruct : StackM lib mgr (Unit {0})
  unfolding delete_all free_chunks close_cqs
  destruct = do
    k ← self
    delete_all (map (λ e. e.1) k.con_map)
    k ← self
    free_chunks (map (λ e. e.1) k.rma_chunk_map)
    close_if k.peq
    require (not (ltb max_workers k.worker_num))
    close_cqs lib mgr (take k.worker_num k.cqs)
    close_if k.domain
    close_if k.fabric
    freeinfo_if k.hints
    freeinfo_if k.info
    freeinfo_if k.hints_tmp
    when k.is_server (freeinfo_if k.info_tmp)
