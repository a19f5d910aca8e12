-- ===== src/Service/Control.antt =====
-- The threads of a service, its end, and its buffers for remote access.
pub mod Shutdown
pub mod Abort
use hpnl.Base.{
  ℕ, zero, suc, ◌+◌, Option, none, some, not, ◌==◌, ltb, if◌then◌else◌, set, get_elem?, is_some,
}
use hpnl.Base.StdMap.{StdMap, lookup}
use hpnl.Base.Run.{ok, fault, ◌>>=◌, ◌>>◌, pure, require, and_then, when}
use hpnl.Fabric.{Call, Lib, fi, put, self}
use hpnl.Chunk.{ChunkMgr}
use hpnl.Msg.Connection
use hpnl.Msg.Connection.{MsgConnection}
use hpnl.Msg.Connection.Io.{Infos}
use hpnl.Msg.Stack.Table
use hpnl.Msg.Stack.Rma
use hpnl.Rdm.Connection.{Names}
use hpnl.Rdm.Stack
use hpnl.Event.Proactor.{EqHandler, remove_handler}
use hpnl.Event.Thread.{ThreadWrapper, ThreadM}
use hpnl.Event.Thread
use hpnl.Service.{
  ServiceM, AnyStack, no_stack, msg_stack, rdm_stack, max_workers, on_msg, on_rdm, on_reactor,
}

module _ {G : Type 0} (lib : Lib) where
  -- A method of a thread: the thread as it leaves it.
  abbrev on_thread : ThreadM (Unit {0}) → ThreadWrapper → ServiceM G ThreadWrapper
  on_thread m w s =
      and_then (m (record { self = w; env = tt; trace = s.trace }))
        (λ _ t. ok t.self (record s { trace = t.trace }))

  -- The loop of `start`, at round `i` with `n` rounds to go.
  unfoldable pub start_cqs : (n i : ℕ) → ServiceM G (Unit {0})
  unfolding Thread.construct Thread.start
  start_cqs zero i = pure tt
  start_cqs (suc n) i = do
    require (ltb i max_workers)
    w ← on_thread (Thread.start lib) Thread.construct
    put λ v. record v { cq_thread = set v.cq_thread i (some w) }
    start_cqs n (i + 1)

  unfoldable pub start_all : ServiceM G (Unit {0})
  unfolding Thread.construct Thread.start start_cqs
  start_all = do
    w ← on_thread (Thread.start lib) Thread.construct
    v ← self
    if v.msg
        then (do put λ v. record v { eq_thread = some w }; v ← self; start_cqs v.worker_num 0)
        else put λ v. record v { rdm_cq_thread = some w }

  unfoldable start_if : Option (StdMap EqHandler) → ServiceM G (Unit {0})
  start_if none = pure tt
  start_if (some _) = start_all

  unfoldable pub start : ServiceM G (Unit {0})
  unfolding start_all start_if
  start = do v ← self; start_if v.proactor

  -- `if (thread) { thread->stop(); thread->join(); }`
  unfoldable halt : Option ThreadWrapper → ServiceM G (Option ThreadWrapper)
  unfolding Thread.stop Thread.join
  halt none = pure none
  halt (some w) = do
    w ← on_thread (Thread.stop lib) w
    w ← on_thread (Thread.join lib) w
    pure (some w)

  -- `cqThread[i]`
  unfoldable thread_at : Option (Option ThreadWrapper) → ServiceM G (Option ThreadWrapper)
  thread_at none s = fault
  thread_at (some w) s = ok w s

  unfoldable pub halt_cqs : (n i : ℕ) → ServiceM G (Unit {0})
  unfolding halt thread_at
  halt_cqs zero i = pure tt
  halt_cqs (suc n) i = do
    v ← self
    found ← thread_at (get_elem? v.cq_thread i)
    w ← halt found
    put λ v. record v { cq_thread = set v.cq_thread i w }
    halt_cqs n (i + 1)

  -- `shutdown()`
  unfoldable pub shutdown : ServiceM G (Unit {0})
  unfolding halt halt_cqs
  shutdown = do
    v ← self
    halt_cqs v.worker_num 0
    w ← halt v.eq_thread
    put λ v. record v { eq_thread = w }
    w ← halt v.rdm_cq_thread
    put λ v. record v { rdm_cq_thread = w }

  join_if : Option ThreadWrapper → ServiceM G (Option ThreadWrapper)
  unfolding Thread.join
  join_if none = pure none
  join_if (some w) = do w ← on_thread (Thread.join lib) w; pure (some w)

  unfoldable pub wait : ServiceM G (Unit {0})
  unfolding join_if
  wait = do
    v ← self
    w ← join_if v.eq_thread
    put λ v. record v { eq_thread = w }
    w ← join_if v.rdm_cq_thread
    put λ v. record v { rdm_cq_thread = w }

  -- `delete` of a thread. The destructor of a std::thread that is joinable ends the program.
  unfoldable delete_thread : Option ThreadWrapper → ServiceM G (Unit {0})
  delete_thread none = pure tt
  delete_thread (some w) = require (w.handle == 0)

  -- The last loop of the destructor. What is deleted is taken out of the array.
  unfoldable pub delete_cqs : (n i : ℕ) → ServiceM G (Unit {0})
  unfolding thread_at delete_thread
  delete_cqs zero i = pure tt
  delete_cqs (suc n) i = do
    v ← self
    w ← thread_at (get_elem? v.cq_thread i)
    delete_thread w
    put λ v. record v { cq_thread = set v.cq_thread i none }
    if v.is_server then delete_cqs n (i + 1) else pure tt

  -- The end of the destructor.
  unfoldable pub delete_threads : ServiceM G (Unit {0})
  unfolding delete_thread delete_cqs
  delete_threads = do
    v ← self
    delete_thread v.eq_thread
    put λ v. record v { eq_thread = none }
    delete_cqs v.worker_num 0

  -- The first loop of the destructor.
  unfoldable pub delete_cq_demultiplexers : (n i : ℕ) → ServiceM G (Unit {0})
  delete_cq_demultiplexers zero i = pure tt
  delete_cq_demultiplexers (suc n) i = do
    v ← self
    require (ltb i max_workers)
    put λ v. record v { cq_demultiplexer = set v.cq_demultiplexer i none }
    if v.is_server then delete_cq_demultiplexers n (i + 1) else pure tt

module _ {G : Type 0} (lib : Lib) (mgr : ChunkMgr G) (infos : Infos) (names : Names) where
  delete_stack : AnyStack → ServiceM G (Unit {0})
  unfolding on_msg on_rdm
  delete_stack no_stack = pure tt
  delete_stack (msg_stack k) = on_msg (Table.destruct lib mgr infos)
  delete_stack (rdm_stack k) = on_rdm (Stack.destruct lib mgr names)

  -- The destructor.
  unfoldable pub destruct : ServiceM G (Unit {0})
  unfolding delete_stack delete_cq_demultiplexers delete_threads
  destruct = do
    v ← self
    delete_stack v.stack
    put λ v. record v { stack = no_stack; eq_demultiplexer = none }
    delete_cq_demultiplexers lib v.worker_num 0
    put λ v. record v { rdm_cq_demultiplexer = none; proactor = none; accept_request_callback = 0 }
    delete_threads lib

  abbrev pub con_at : ℕ → ServiceM G MsgConnection
  con_at p s = elim (lookup p s.env.cons) [ none ↦ fault | some c ↦ ok c s ]

  -- `if (shutdownCallback) shutdownCallback->operator()(nullptr, nullptr)`
  unfoldable pub notify : ServiceM G (Unit {0})
  notify = do
    v ← self
    when (not (v.shutdown_callback == 0))
        (do _ ← fi lib (Call.callback v.shutdown_callback 0); pure tt)

  -- What `shutdown(con)` does to the connection at `p`, whose event queue is `eq`.
  unfoldable pub take_down : (p eq : ℕ) → ServiceM G (Unit {0})
  unfolding on_msg on_reactor notify
  take_down p eq = do
    _ ← on_reactor (remove_handler lib eq)
    _ ← on_msg (Table.on_con lib mgr infos p (Connection.shutdown lib mgr))
    on_msg (Table.reap lib mgr infos eq)
    notify
    on_msg (Table.delete_connection lib mgr infos p)

  -- `shutdown(con)`
  unfoldable pub shutdown_con : (p : ℕ) → ServiceM G (Unit {0})
  unfolding take_down
  shutdown_con p = do c ← con_at p; v ← self; require (is_some v.proactor); take_down p c.con_eq

  unfoldable pub reg_rma_buffer : (buffer size id : ℕ) → ServiceM G ℕ
  unfolding on_msg
  reg_rma_buffer buffer size id = on_msg (Rma.reg_rma_buffer lib mgr buffer size id)

  unfoldable pub unreg_rma_buffer : (id : ℕ) → ServiceM G (Unit {0})
  unfolding on_msg
  unreg_rma_buffer id = on_msg (Rma.unreg_rma_buffer lib mgr id)

  unfoldable pub get_rma_buffer : (id : ℕ) → ServiceM G ℕ
  unfolding on_msg
  get_rma_buffer id = on_msg (Rma.get_rma_chunk lib mgr id)
