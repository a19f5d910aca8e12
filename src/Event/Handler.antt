-- ===== src/Event/Handler.antt =====
-- `EqHandler::handle_event`, and `EqDemultiplexer::wait_event` with `Proactor::eq_service`.
use hpnl.Base.{
  ℕ, ◌∷◌, none, some, Bool, false, not, ◌==◌, if◌then◌else◌, ℤ, pos, negsuc, success, minus_one,
  map, is_empty,
}
use hpnl.Base.StdMap.{StdMap, lookup, assign}
use hpnl.Base.Run.{ok, fault, ◌>>=◌, ◌>>◌, pure, require, and_then}
use hpnl.Fabric.{Answer, Call, Lib, fi, fails, self}
use hpnl.Chunk.{ChunkMgr}
use hpnl.Msg.Connection.{MsgConnection, ConStatus}
use hpnl.Msg.Connection.Io.{Infos, init_addr}
use hpnl.Msg.Stack.Table.{accept, get_connection, reap, on_con}
use hpnl.Event.Proactor.{
  EqHandler, ReactorM, new_handler, on_stack, register_handler, remove_handler, is_negative,
}

-- The events that reach a handler. An accept event carries the fi_info of the request.
pub data Event : Type 0 where
  accept_event : ℕ → Event
  connected_event : Event
  close_event : Event
  other_event : Event

-- How `epoll_wait` came back: with an event, with -1, or with neither.
pub data Sign : Type 0 where
  positive minus neither : Sign

abbrev pub sign : ℤ → Sign
sign (pos n) = if n == 0 then neither else positive
sign (negsuc n) = if n == 0 then minus else neither

-- -FI_EAGAIN
abbrev pub is_again : ℤ → Bool
is_again (pos n) = false
is_again (negsuc n) = n == 10

-- `if (callback) { set(callback) }`
abbrev pub or_keep : (callback old : ℕ) → ℕ
or_keep callback old = if callback == 0 then old else callback

-- The handler for an accepted connection.
unfoldable pub inherit : EqHandler → EqHandler → EqHandler
inherit h new = record new {
  connected_callback = or_keep h.connected_callback new.connected_callback;
  recv_callback = or_keep h.recv_callback new.recv_callback;
  send_callback = or_keep h.send_callback new.send_callback;
  read_callback = or_keep h.read_callback new.read_callback;
  write_callback = or_keep h.write_callback new.write_callback;
  shutdown_callback = or_keep h.shutdown_callback new.shutdown_callback;
}

-- The callbacks that a connection takes over when it is connected, and its new status.
unfoldable pub equip : EqHandler → MsgConnection → MsgConnection
equip h c = record c {
  recv_callback = or_keep h.recv_callback c.recv_callback;
  shutdown_callback = or_keep h.shutdown_callback c.shutdown_callback;
  send_callback = or_keep h.send_callback c.send_callback;
  read_callback = or_keep h.read_callback c.read_callback;
  write_callback = or_keep h.write_callback c.write_callback;
  status = ConStatus.connected;
}

module _ {G : Type 0} (lib : Lib) (mgr : ChunkMgr G) (infos : Infos) where
  -- A change of the connection at an address, which faults at the null pointer.
  unfoldable pub change_con : ℕ → (MsgConnection → MsgConnection) → ReactorM G (Unit {0})
  change_con p f s = elim (lookup p s.env.cons) [
    | none ↦ fault
    | some c ↦ ok tt (record s { env = record s.env { cons = assign p (f c) s.env.cons } })
  ]

  unfoldable pub con_at : ℕ → ReactorM G MsgConnection
  con_at p s = elim (lookup p s.env.cons) [ none ↦ fault | some c ↦ ok c s ]

  -- `if (callback) (*callback)(argument, ...)`
  unfoldable pub notify : (callback argument : ℕ) → ReactorM G (Unit {0})
  notify callback argument s =
      if callback == 0
      then ok tt s
      else ok tt (record s { trace = Call.callback callback argument ∷ s.trace })

  unfoldable pub on_accept : EqHandler → (info junk : ℕ) → ReactorM G ℤ
  unfolding inherit
  on_accept h info junk = do
    require (not (h.accept_request_callback == 0))
    notify h.accept_request_callback 0
    eq ← on_stack (accept lib mgr infos info junk)
    _ ← register_handler lib (inherit h (new_handler eq))
    pure success

  unfoldable pub on_connected : EqHandler → ReactorM G ℤ
  unfolding change_con equip notify
  on_connected h = do
    p ← on_stack (get_connection lib mgr infos h.eq)
    require (not (p == 0))
    change_con p (equip h)
    on_stack (on_con lib mgr infos p (init_addr lib mgr infos))
    notify h.connected_callback p
    pure success

  -- The parts of `CLOSE_EVENT` before and after the connection's callback.
  unfoldable pub shut_con : ℕ → ReactorM G (Unit {0})
  unfolding notify
  shut_con p = do
    change_con p (λ c. record c { status = ConStatus.shutdown_req })
    c ← con_at p
    notify c.shutdown_callback 0

  unfoldable pub drop_con : (eq p : ℕ) → ReactorM G ℤ
  drop_con eq p = do
    _ ← remove_handler lib eq
    change_con p (λ c. record c { status = ConStatus.down })
    on_stack (reap lib mgr infos eq)
    pure success

  unfoldable pub on_close : EqHandler → ReactorM G ℤ
  unfolding shut_con drop_con
  on_close h = do
    p ← on_stack (get_connection lib mgr infos h.eq)
    require (not (p == 0))
    shut_con p
    drop_con h.eq p

  unfoldable pub handle_event : EqHandler → Event → (junk : ℕ) → ReactorM G ℤ
  unfolding on_accept on_connected on_close
  handle_event h (accept_event info) junk = on_accept h info junk
  handle_event h connected_event junk = on_connected h
  handle_event h close_event junk = on_close h
  handle_event h other_event junk = pure success

  -- `EqDemultiplexer::wait_event`, on the handlers that `eq_service` has copied. `read_event` says
  -- which event and fi_info fi_eq_read has written. For epoll_wait the answer's value is the
  -- pointer of the event, or errno.
  module _ (read_event : ℕ → Event) (handlers : StdMap EqHandler) (junk : ℕ) where
    -- `event_map[&(eq->fid)]->handle_event(...)`, for the three events that have a handler.
    unfoldable pub deliver : ℕ → Event → ReactorM G ℤ
    unfolding handle_event
    deliver eq other_event s = ok success s
    deliver eq e s = elim (lookup eq handlers) [
      | none ↦ fault
      | some h ↦ and_then (handle_event h e junk s) (λ _ t. ok success t)
    ]

    unfoldable pub dispatch : ℕ → Answer → ReactorM G ℤ
    unfolding deliver
    dispatch eq a s =
        if is_negative a.ret
        then if is_again a.ret
          then ok success s
          else ok success (record s { trace = Call.eq_readerr eq ∷ s.trace })
        else deliver eq (read_event a.out) s

    -- A pointer that is no key makes an entry with no handler, which is dereferenced.
    unfoldable pub serve : ℕ → ReactorM G ℤ
    unfolding dispatch
    serve id s = elim (lookup id handlers) [
      | none ↦ fault
      | some h ↦
          if h.eq == 0
          then ok success s
          else and_then (fi lib (Call.eq_read h.eq) s) (λ a t. dispatch h.eq a t)
    ]

    unfoldable pub after_wait : Answer → ReactorM G ℤ
    unfolding serve
    after_wait w s = elim (sign w.ret) [
      | positive ↦ serve w.out s
      | minus ↦ ok (if w.out == 4 then success else minus_one) s
      | neither ↦ ok success s
    ]

    unfoldable pub wait_event : ReactorM G ℤ
    unfolding after_wait
    wait_event = do
      r ← self
      if is_empty handlers then pure success else do
        t ← fi lib (Call.trywait r.fabric (map (λ e. e.0) handlers))
        if fails t then pure success else do w ← fi lib Call.epoll_wait; after_wait w

  -- `Proactor::eq_service`
  unfoldable pub eq_service : (read_event : ℕ → Event) (junk : ℕ) → ReactorM G ℤ
  unfolding wait_event
  eq_service read_event junk s = wait_event read_event s.self.event_map junk s
