-- ===== src/External/Events.antt =====
-- `ExternalEqDemultiplexer` (src/external_demultiplexer/ExternalEqDemultiplexer.cc), as it is
-- compiled on Linux.
pub mod Watched
pub mod Shutdown
use hpnl.Base.{
  ℕ, [], none, some, not, ◌==◌, if◌then◌else◌, ℤ, failed, success, minus_one, map, is_empty,
}
use hpnl.Base.StdMap.{StdMap, lookup, assign, insert, erase, has, subscript}
use hpnl.Base.Run.{ok, fault, M, ◌>>=◌, ◌>>◌, pure, require, and_then}
use hpnl.Fabric.{Answer, Call, Lib, Obj, fi, fails, put, self}
use hpnl.Chunk.{ChunkMgr}
use hpnl.Msg.Connection.{ConStatus}
use hpnl.Msg.Connection.Io.{Infos, init_addr}
use hpnl.Msg.Stack.{MsgStack, World}
use hpnl.Msg.Stack.Table.{get_connection, reap, on_con}
use hpnl.Event.Proactor.{is_negative}
use hpnl.Event.Handler.{Event, Sign, is_again, sign}
use hpnl.Event.Codes.{EventType, value}

-- The queues that are waited for are the keys of `fid_map`, and its values too.
pub record ExternalEqDemultiplexer : Type 0 where
  pub stack : MsgStack
  pub event_ptr : ℕ
  pub fabric : ℕ
  pub fid_map : StdMap ℕ

unfoldable pub construct : (stack : MsgStack) (junk : ℕ) → ExternalEqDemultiplexer
construct stack junk = record { stack = stack; event_ptr = junk; fabric = junk; fid_map = [] }

-- What a call of `wait_event` returns, and what its three variables hold then.
pub record Report : Type 0 where
  pub code : ℤ
  pub info : ℕ
  pub eq : ℕ
  pub con : ℕ

abbrev pub EventsM : Type 0 → Type 0 → Type 0
EventsM G A = M (Obj ExternalEqDemultiplexer (World G)) A

-- A method of the stack.
abbrev pub on_stack : {G A : Type 0} → M (Obj MsgStack (World G)) A → EventsM G A
on_stack m s =
    and_then (m (record { self = s.self.stack; env = s.env; trace = s.trace })) (λ a t.
      ok a (record { self = record s.self { stack = t.self }; env = t.env; trace = t.trace }))

module _ {G : Type 0} (lib : Lib) where
  unfoldable pub init : EventsM G ℤ
  init = do
    put λ d. record d { fabric = d.stack.fabric }
    a ← fi lib Call.epoll_create
    d ← self
    if is_negative a.ret
        then pure minus_one
        else (do put λ d. record d { event_ptr = 0 }; pure success)

  -- The descriptor of a queue, its change in epoll, and where both succeed the change of the map;
  -- or the label at the end, which closes the descriptor. A null queue is dereferenced.
  unfoldable pub change_event :
      (eq : ℕ) (change : ℕ → Call) (after : StdMap ℕ → StdMap ℕ) → EventsM G ℤ
  change_event eq change after = do
    require (not (eq == 0))
    f ← fi lib (Call.control eq)
    if fails f then (do _ ← fi lib (Call.close_fd f.out); pure minus_one) else do
      put λ d. record d { event_ptr = eq }
      a ← fi lib (change f.out)
      if is_negative a.ret
          then (do _ ← fi lib (Call.close_fd f.out); pure minus_one)
          else (do put λ d. record d { fid_map = after d.fid_map }; pure success)

  unfoldable pub add_event : (eq : ℕ) → EventsM G ℤ
  unfolding change_event
  add_event eq = do
    d ← self
    if has eq d.fid_map
        then pure minus_one
        else change_event eq (λ fd. Call.epoll_add fd eq) (insert eq eq)

  unfoldable pub delete_event : (eq : ℕ) → EventsM G ℤ
  unfolding change_event
  delete_event eq = do
    d ← self
    if has eq d.fid_map
        then change_event eq (λ fd. Call.epoll_del fd eq) (erase eq)
        else pure minus_one

module _ {G : Type 0} (lib : Lib) (mgr : ChunkMgr G) (infos : Infos) where
  unfoldable pub down_con : (p : ℕ) → EventsM G (Unit {0})
  down_con p s = elim (lookup p s.env.cons) [
    | none ↦ fault
    | some c ↦ ok tt (record s {
      env = record s.env { cons = assign p (record c { status = ConStatus.down }) s.env.cons };
    })
  ]

  unfoldable pub on_connected : (old : Report) → EventsM G Report
  unfolding value
  on_connected old = do
    p ← on_stack (get_connection lib mgr infos old.eq)
    if p == 0 then pure (record old { code = minus_one; con = 0 }) else do
      on_stack (on_con lib mgr infos p (init_addr lib mgr infos))
      pure (record old { code = value EventType.connected_event; con = p })

  unfoldable pub on_shutdown : (old : Report) → EventsM G Report
  unfolding delete_event down_con value
  on_shutdown old = do
    _ ← delete_event lib old.eq
    p ← on_stack (get_connection lib mgr infos old.eq)
    if p == 0 then pure (record old { code = value EventType.shutdown; con = 0 }) else do
      down_con p
      on_stack (reap lib mgr infos old.eq)
      pure (record old { code = value EventType.shutdown; con = p })

  unfoldable pub on_event : Event → (old : Report) → EventsM G Report
  unfolding on_connected on_shutdown value
  on_event (Event.accept_event info) old =
      pure (record old { code = value EventType.accept_event; info = info })
  on_event Event.connected_event old = on_connected old
  on_event Event.close_event old = on_shutdown old
  on_event Event.other_event old = pure (record old { code = success })

  -- `read_event` says which event and fi_info fi_eq_read has written, and for fi_eq_readerr the
  -- answer's value is the error, which may be `overrun`.
  module _ (read_event : ℕ → Event) (overrun : ℕ) where
    unfoldable pub read_result : Answer → (old : Report) → EventsM G Report
    unfolding on_event
    read_result a old =
        if is_negative a.ret
        then if is_again a.ret then pure (record old { code = success }) else (do
          e ← fi lib (Call.eq_readerr old.eq)
          pure (record old { code = if e.out == overrun then minus_one else success }))
        else if failed a.ret
        then on_event (read_event a.out) old
        else pure (record old { code = success })

    unfoldable pub read_queue : (old : Report) → EventsM G Report
    unfolding read_result
    read_queue old =
        if old.eq == 0
        then pure (record old { code = success })
        else (do a ← fi lib (Call.eq_read old.eq); read_result a old)

    -- `*eq = fid_map[(fid*)event.data.ptr]`
    unfoldable pub find_queue : (id : ℕ) (old : Report) → EventsM G Report
    find_queue id old s =
        let (eq, m) = subscript id s.self.fid_map in
        ok (record old { eq = eq })
          (record s { self = record s.self { event_ptr = id; fid_map = m } })

    -- For epoll_wait the answer's value is the pointer of the event, or errno.
    unfoldable pub after_wait : Answer → (old : Report) → EventsM G Report
    unfolding find_queue read_queue
    after_wait w old s = elim (sign w.ret) [
      | Sign.positive ↦ and_then (find_queue w.out old s) read_queue
      | Sign.minus ↦ ok (record old { code = if w.out == 4 then success else minus_one }) s
      | Sign.neither ↦ ok (record old { code = success }) s
    ]

    unfoldable pub wait_event : (old : Report) → EventsM G Report
    unfolding after_wait read_queue
    wait_event old = do
      d ← self
      if is_empty d.fid_map then pure (record old { code = success }) else do
        t ← fi lib (Call.trywait d.fabric (map (λ e. e.0) d.fid_map))
        if fails t then read_queue old else (do w ← fi lib Call.epoll_wait; after_wait w old)
