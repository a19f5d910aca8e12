-- ===== src/Event/Proactor.antt =====
-- `EqHandler`'s fields, `Proactor` and `EqDemultiplexer`: the table of handlers, and epoll.
pub mod Table
use hpnl.Base.{ℕ, Bool, true, false, not, ◌==◌, if◌then◌else◌, ℤ, pos, negsuc, success, minus_one}
use hpnl.Base.StdMap.{StdMap, insert, erase, has}
use hpnl.Base.Run.{ok, M, ◌>>=◌, ◌>>◌, pure, require, and_then}
use hpnl.Fabric.{Call, Lib, Obj, fi, fails, put, self}
use hpnl.Msg.Stack.{MsgStack, World}

-- `eq` is the event queue that is handled. Callbacks are addresses.
pub record EqHandler : Type 0 where
  pub eq : ℕ
  pub recv_callback : ℕ
  pub send_callback : ℕ
  pub read_callback : ℕ
  pub write_callback : ℕ
  pub accept_request_callback : ℕ
  pub connected_callback : ℕ
  pub shutdown_callback : ℕ

-- The constructor, with the initializers of the class.
unfoldable pub new_handler : (eq : ℕ) → EqHandler
new_handler eq = record {
  eq = eq;
  recv_callback = 0;
  send_callback = 0;
  read_callback = 0;
  write_callback = 0;
  accept_request_callback = 0;
  connected_callback = 0;
  shutdown_callback = 0;
}

-- The handlers by event queue; and of the demultiplexer, `event.data.ptr` and the fabric.
pub record Reactor : Type 0 where
  pub event_map : StdMap EqHandler
  pub event_ptr : ℕ
  pub fabric : ℕ
  pub stack : MsgStack

abbrev pub is_negative : ℤ → Bool
is_negative (pos n) = false
is_negative (negsuc n) = true

abbrev pub ReactorM : Type 0 → Type 0 → Type 0
ReactorM G A = M (Obj Reactor (World G)) A

-- A method of the stack.
abbrev pub on_stack : {G A : Type 0} → M (Obj MsgStack (World G)) A → ReactorM G A
on_stack m s =
    and_then (m (record { self = s.self.stack; env = s.env; trace = s.trace })) (λ a t.
      ok a (record { self = record s.self { stack = t.self }; env = t.env; trace = t.trace }))

module _ {G : Type 0} (lib : Lib) where
  -- `EqDemultiplexer::init`
  unfoldable pub init_demultiplexer : ReactorM G ℤ
  init_demultiplexer = do
    put λ r. record r { fabric = r.stack.fabric }
    a ← fi lib Call.epoll_create
    pure (if is_negative a.ret then minus_one else success)

  -- The file descriptor of a queue, or the label at the end of `register_event`, which closes it.
  -- A null queue is dereferenced.
  unfoldable pub watch_fd : ℕ → (ℕ → Call) → ReactorM G ℤ
  watch_fd id change = do
    require (not (id == 0))
    f ← fi lib (Call.control id)
    if fails f then (do _ ← fi lib (Call.close_fd f.out); pure minus_one) else do
      put λ r. record r { event_ptr = id }
      a ← fi lib (change f.out)
      if is_negative a.ret
          then (do _ ← fi lib (Call.close_fd f.out); pure minus_one)
          else pure success

  unfoldable pub register_event : ℕ → ReactorM G ℤ
  unfolding watch_fd
  register_event id = watch_fd id (λ fd. Call.epoll_add fd id)

  unfoldable pub remove_event : ℕ → ReactorM G ℤ
  unfolding watch_fd
  remove_event id = watch_fd id (λ fd. Call.epoll_del fd id)

  unfoldable pub register_handler : EqHandler → ReactorM G ℤ
  unfolding register_event
  register_handler eh = do
    put λ r. record r { event_map = insert eh.eq eh r.event_map }
    register_event eh.eq

  unfoldable pub remove_handler : ℕ → ReactorM G ℤ
  unfolding remove_event
  remove_handler id = do
    r ← self
    if has id r.event_map
        then (do put λ r. record r { event_map = erase id r.event_map }; remove_event id)
        else pure minus_one
