-- ===== src/Rdm/External.antt =====
-- `ExternalRdmCqDemultiplexer` (src/external_demultiplexer/ExternalRdmCqDemultiplexer.cc), as it is
-- compiled on Linux.
pub mod Clock
use hpnl.Base.{
  ℕ, ◌+◌, ◌-◌, ◌%◌, ◌^◌, [], ◌∷◌, Bool, not, ◌==◌, ◌||◌, leb, if◌then◌else◌, ℤ, failed, success,
  minus_one,
}
use hpnl.Base.Run.{ok, M, ◌>>=◌, ◌>>◌, pure, require}
use hpnl.Fabric.{Answer, Call, Lib, Obj, fi, fails, put, self}
use hpnl.Chunk.{Heap}
use hpnl.Rdm.Stack.{RdmStack}
use hpnl.Event.Proactor.{is_negative}
use hpnl.Event.Handler.{is_again}
use hpnl.Event.Completion.{Entry}
use hpnl.Event.Codes.{EventType, value}

pub record ExternalRdmCqDemultiplexer : Type 0 where
  pub stack : RdmStack
  pub cq : ℕ
  pub start : ℕ
  pub end : ℕ
  pub fabric : ℕ
  pub fd : ℕ
  pub event_ptr : ℕ

unfoldable pub construct : (stack : RdmStack) (junk : ℕ) → ExternalRdmCqDemultiplexer
construct stack junk = record {
  stack = stack;
  cq = junk;
  start = 0;
  end = 0;
  fabric = junk;
  fd = junk;
  event_ptr = junk;
}

-- What a call of `wait_event` returns, and what its two variables hold then.
pub record Report : Type 0 where
  pub code : ℤ
  pub ck : ℕ
  pub block_buffer_size : ℕ

abbrev pub ExternalM : Type 0 → Type 0
ExternalM A = M (Obj ExternalRdmCqDemultiplexer Heap) A

-- The test for a wait, on readings of the clock as uint64_t.
unfoldable pub is_time : (start end : ℕ) → Bool
is_time start end = leb 2000000 ((end + 2 ^ 64 - start) % 2 ^ 64)

module _ (lib : Lib) where
  unfoldable pub init : ExternalM ℤ
  init = do
    put λ d. record d { cq = d.stack.cq; fabric = d.stack.fabric }
    d ← self
    _ ← fi lib Call.epoll_create
    require (not (d.cq == 0))
    f ← fi lib (Call.control d.cq)
    if fails f then pure minus_one else do
      put λ d. record d { fd = f.out; event_ptr = d.cq }
      a ← fi lib (Call.epoll_add f.out d.cq)
      pure (if fails a then minus_one else success)

  -- The wait: false if the call is to return at once. `now` is the reading of the clock after it.
  unfoldable pub await : (now : ℕ) → ExternalM Bool
  await now = do
    d ← self
    t ← fi lib (Call.trywait d.fabric (d.cq ∷ []))
    if fails t then (do put λ d. record d { start = now }; pure Bool.true) else do
      w ← fi lib Call.epoll_wait
      put λ d. record d { event_ptr = w.out }
      if is_negative w.ret || not (failed w.ret)
          then pure Bool.false
          else (do put λ d. record d { start = now }; pure Bool.true)

  -- The context of `sendBuf` has no chunk, and is given back here.
  unfoldable pub on_send : Entry → (old : Report) → ExternalM Report
  unfolding value
  on_send e old = do
    require (not (e.op_context == 0))
    found ← (λ s. ok (s.env e.op_context).ctx_chunk s)
    if found == 0
        then (do
          _ ← fi lib (Call.free e.op_context)
          pure (record old { code = value EventType.send_event }))
        else pure (record old { code = value EventType.send_event; ck = found })

  -- A length fits an int, as buffers have int sizes.
  unfoldable pub on_recv : Entry → (old : Report) → ExternalM Report
  unfolding value
  on_recv e old = do
    require (not (e.op_context == 0))
    found ← (λ s. ok (s.env e.op_context).ctx_chunk s)
    pure (record { code = value EventType.recv_event; ck = found; block_buffer_size = e.len })

  unfoldable pub on_entry : Entry → (old : Report) → ExternalM Report
  unfolding on_recv on_send value
  on_entry e old =
      if e.is_recv
      then on_recv e old
      else if e.is_send
      then on_send e old
      else if e.is_read
      then pure (record old { code = value EventType.read_event })
      else if e.is_write
      then pure (record old { code = value EventType.write_event })
      else pure (record old { code = success })

  module _ (read_entry : ℕ → Entry) where
    -- The read of the queue. `now` is the reading of the clock at the end.
    unfoldable pub read_result : Answer → (now : ℕ) (old : Report) → ExternalM Report
    unfolding on_entry
    read_result a now old = do
      d ← self
      if is_negative a.ret
          then (if is_again a.ret
              then (do put λ d. record d { end = now }; pure (record old { code = success }))
              else (do
                _ ← fi lib (Call.cq_readerr d.cq)
                put λ d. record d { end = now }
                pure (record old { code = success })))
          else (if failed a.ret
              then (do put λ d. record d { end = d.start }; on_entry (read_entry a.out) old)
              else (do put λ d. record d { end = now }; pure (record old { code = success })))

    unfoldable pub read_queue : (now : ℕ) (old : Report) → ExternalM Report
    unfolding read_result
    read_queue now old = do d ← self; a ← fi lib (Call.cq_read d.cq); read_result a now old

    -- `first` and `second` are the readings of the clock after the wait and at the end; the variables
    -- of the caller hold what `old` says.
    unfoldable pub wait_event : (first second : ℕ) (old : Report) → ExternalM Report
    unfolding is_time await read_queue
    wait_event first second old = do
      d ← self
      if is_time d.start d.end
          then (do
            go_on ← await first
            if go_on then read_queue second old else pure (record old { code = success }))
          else read_queue second old
