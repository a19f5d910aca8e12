-- ===== src/External/Completion.antt =====
-- `ExternalCqDemultiplexer` (src/external_demultiplexer/ExternalCqDemultiplexer.cc), as it is
-- compiled on Linux.
pub mod Sent
pub mod Agreement
use hpnl.Base.{
  ℕ, ◌+◌, ◌-◌, ◌%◌, ◌^◌, [], ◌∷◌, Option, none, some, Bool, not, ◌==◌, ltb, leb, if◌then◌else◌, ℤ,
  failed, success, minus_one,
}
use hpnl.Base.StdMap.{lookup}
use hpnl.Base.Run.{ok, fault, M, ◌>>=◌, ◌>>◌, pure, require}
use hpnl.Fabric.{Answer, Call, Lib, Obj, fi, fails, put, self}
use hpnl.Chunk.{Chunk}
use hpnl.Msg.Connection.{MsgConnection, ConStatus, rank}
use hpnl.Msg.Stack.{MsgStack, World}
use hpnl.Event.Proactor.{is_negative}
use hpnl.Event.Handler.{Sign, is_again, sign}
use hpnl.Event.Codes.{EventType, value}
use hpnl.Event.Completion.{Entry}

pub record ExternalCqDemultiplexer : Type 0 where
  pub stack : MsgStack
  pub cq : ℕ
  pub start : ℕ
  pub end : ℕ
  pub fabric : ℕ
  pub fd : ℕ
  pub event_ptr : ℕ

unfoldable pub construct : (stack : MsgStack) (cq junk : ℕ) → ExternalCqDemultiplexer
construct stack cq junk = record {
  stack = stack;
  cq = cq;
  start = 0;
  end = 0;
  fabric = junk;
  fd = junk;
  event_ptr = junk;
}

-- What a call of `wait_event` returns, and what its four variables hold then.
pub record Report : Type 0 where
  pub code : ℤ
  pub eq : ℕ
  pub ck : ℕ
  pub buffer_id : ℕ
  pub block_buffer_size : ℕ

-- A call returns, or waits for a connection to be connected.
pub data Outcome : Type 0 where
  reported : Report → Outcome
  waiting : Outcome

-- The test for a wait, on readings of the clock as uint64_t.
unfoldable pub is_time : (start end : ℕ) → Bool
is_time start end = leb 200 ((end + 2 ^ 64 - start) % 2 ^ 64)

-- The report on a completion for connection `c`. A length fits an int, as buffers have int sizes. What `recv` of the connection does is nothing.
unfoldable pub report : Entry → (c : MsgConnection) (old : Report) → Outcome
unfolding value
report e c old =
    if e.is_recv
    then (if ltb (rank c.status) (rank ConStatus.connected)
        then Outcome.waiting
        else Outcome.reported
            (record old { code = value EventType.recv_event; block_buffer_size = e.len }))
    else Outcome.reported (record old {
      code =
          if e.is_send
          then value EventType.send_event
          else if e.is_read
          then value EventType.read_event
          else if e.is_write
          then value EventType.write_event
          else success;
    })

abbrev pub CqM : Type 0 → Type 0 → Type 0
CqM G A = M (Obj ExternalCqDemultiplexer (World G)) A

module _ {G : Type 0} (lib : Lib) where
  unfoldable pub init : CqM G ℤ
  init = do
    put λ d. record d { fabric = d.stack.fabric }
    e ← fi lib Call.epoll_create
    if is_negative e.ret then pure minus_one else do
      put λ d. record d { event_ptr = 0 }
      d ← self
      require (not (d.cq == 0))
      f ← fi lib (Call.control d.cq)
      if fails f then pure minus_one else do
        put λ d. record d { fd = f.out; event_ptr = d.cq }
        a ← fi lib (Call.epoll_add f.out d.cq)
        pure (if is_negative a.ret then minus_one else success)

  -- The connection of the chunk, if any.
  abbrev pub con_at : ℕ → CqM G MsgConnection
  con_at p s = elim (lookup p s.env.cons) [ none ↦ fault | some c ↦ ok c s ]

  abbrev chunk_at : ℕ → CqM G Chunk
  chunk_at ck s = ok (s.env.mem.heap ck) s

  unfoldable pub on_entry : Entry → (old : Report) → CqM G Outcome
  unfolding report
  on_entry e old = do
    put λ d. record d { end = d.start }
    require (not (e.op_context == 0))
    v ← chunk_at e.op_context
    let found = record old { ck = e.op_context; buffer_id = v.buffer_id }
    if v.con == 0
        then pure (Outcome.reported (record found { code = success }))
        else (do c ← con_at v.con; pure (report e c (record found { eq = c.con_eq })))

  -- The wait: the code to return at once, if it is to. `now` is the reading of the clock after it.
  -- For epoll_wait the answer's value is the pointer of the event, or errno.
  unfoldable pub await : (now : ℕ) → CqM G (Option ℤ)
  await now = do
    d ← self
    t ← fi lib (Call.trywait d.fabric (d.cq ∷ []))
    if fails t
        then (do put λ d. record d { start = now }; pure none)
        else do w ← fi lib Call.epoll_wait; after_epoll w (sign w.ret)
    where
      after_epoll : Answer → Sign → CqM G (Option ℤ)
      after_epoll w Sign.positive = do
        put λ d. record d { event_ptr = w.out }
        d ← self
        require (w.out == d.cq)
        put λ d. record d { start = now }
        pure none
      after_epoll w Sign.minus = pure (some (if w.out == 4 then success else minus_one))
      after_epoll w Sign.neither = pure (some success)

  module _ (read_entry : ℕ → Entry) where
    -- The read of the queue. `now` is the reading of the clock at the end.
    unfoldable pub read_result : Answer → (now : ℕ) (old : Report) → CqM G Outcome
    unfolding on_entry
    read_result a now old = do
      d ← self
      if is_negative a.ret
          then (if is_again a.ret
              then (do
                put λ d. record d { end = now }
                pure (Outcome.reported (record old { code = success })))
              else (do
                _ ← fi lib (Call.cq_readerr d.cq)
                put λ d. record d { end = now }
                pure (Outcome.reported (record old { code = success }))))
          else (if failed a.ret then on_entry (read_entry a.out) old else (do
            put λ d. record d { end = now }
            pure (Outcome.reported (record old { code = success }))))

    unfoldable pub read_queue : (now : ℕ) (old : Report) → CqM G Outcome
    unfolding read_result
    read_queue now old = do d ← self; a ← fi lib (Call.cq_read d.cq); read_result a now old

    after_await : (second : ℕ) (old : Report) → Option ℤ → CqM G Outcome
    unfolding read_queue
    after_await second old none = read_queue second old
    after_await second old (some code) = pure (Outcome.reported (record old { code = code }))

    -- `first` and `second` are the readings of the clock after the wait and at the end; the variables
    -- of the caller hold what `old` says.
    unfoldable pub wait_event : (first second : ℕ) (old : Report) → CqM G Outcome
    unfolding is_time await read_queue after_await
    wait_event first second old = do
      d ← self
      if is_time d.start d.end
          then (do code ← await first; after_await second old code)
          else read_queue second old
