-- ===== src/Rdm/Completion.antt =====
-- `RdmCqDemultiplexer` (src/demultiplexer/RdmCqDemultiplexer.cc), as it is compiled on Linux.
use hpnl.Base.{
  ℕ, ◌+◌, ◌-◌, ◌%◌, ◌^◌, List, [], ◌∷◌, none, some, not, Bool, ◌==◌, ltb, if◌then◌else◌, ℤ, failed,
  success, minus_one,
}
use hpnl.Base.StdMap.{lookup}
use hpnl.Base.Run.{ok, fault, M, ◌>>=◌, ◌>>◌, pure, require, and_then, when}
use hpnl.Fabric.{Answer, Call, Lib, Obj, fi, fails, put, self}
use hpnl.Chunk.{Chunk, ChunkMgr, update}
use hpnl.Rdm.Connection.{RdmConnection, Names}
use hpnl.Rdm.Connection.Setup.{activate_recv_chunk}
use hpnl.Rdm.Stack.{RdmStack, World, on_con}
use hpnl.Event.Proactor.{is_negative}
use hpnl.Event.Handler.{is_again}
use hpnl.Event.Completion.{Entry, Round, Poll}

-- The stack that it polls for, the queue, and epoll's pointer.
pub record RdmCqDemultiplexer : Type 0 where
  pub stack : RdmStack
  pub cq : ℕ
  pub fabric : ℕ
  pub fd : ℕ
  pub event_ptr : ℕ

-- The constructor. It leaves all but the stack as it finds it.
unfoldable pub construct : (stack : RdmStack) (junk : ℕ) → RdmCqDemultiplexer
construct stack junk = record {
  stack = stack;
  cq = junk;
  fabric = junk;
  fd = junk;
  event_ptr = junk;
}

module _ {G : Type 0} (lib : Lib) (mgr : ChunkMgr G) (names : Names) where
  abbrev pub RdmCqM : Type 0 → Type 0
  RdmCqM A = M (Obj RdmCqDemultiplexer (World G)) A

  unfoldable pub init : RdmCqM ℤ
  init = do
    put λ d. record d { cq = d.stack.cq; fabric = d.stack.fabric }
    d ← self
    _ ← fi lib Call.epoll_create
    require (not (d.cq == 0))
    f ← fi lib (Call.control d.cq)
    if fails f then pure minus_one else do
      put λ d. record d { fd = f.out; event_ptr = d.cq }
      a ← fi lib (Call.epoll_add f.out d.cq)
      pure (if fails a then minus_one else success)

  -- `(Chunk*)ctx->internal[4]`, which is dereferenced.
  unfoldable pub context_chunk : (ctx : ℕ) → RdmCqM ℕ
  context_chunk ctx s =
      let ck = (s.env.mem.heap ctx).ctx_chunk in
      if ctx == 0 then fault else if ck == 0 then fault else ok ck s

  abbrev chunk_at : ℕ → RdmCqM Chunk
  chunk_at ck s = ok (s.env.mem.heap ck) s

  abbrev con_at : ℕ → RdmCqM RdmConnection
  con_at p s = elim (lookup p s.env.cons) [ none ↦ fault | some c ↦ ok c s ]

  abbrev set_size : (ck len : ℕ) → RdmCqM (Unit {0})
  set_size ck len s = ok tt (record s {
    env = record s.env {
      mem = record s.env.mem {
        heap = update s.env.mem.heap ck (record (s.env.mem.heap ck) { size = len });
      };
    };
  })

  unfoldable pub renew : ℕ → RdmCqM ℤ
  renew p s =
      and_then
        (on_con lib mgr names p (activate_recv_chunk lib mgr names 0)
          (record { self = s.self.stack; env = s.env; trace = s.trace }))
        (λ r t.
          ok r (record { self = record s.self { stack = t.self }; env = t.env; trace = t.trace }))

  -- A message has come: the callback, if any, has it before a new chunk is posted.
  unfoldable pub on_recv : Entry → RdmCqM Round
  unfolding context_chunk renew
  on_recv e = do
    ck ← context_chunk e.op_context
    set_size ck e.len
    v ← chunk_at ck
    c ← con_at v.con
    when (not (c.recv_callback == 0)) (do _ ← fi lib (Call.callback c.recv_callback ck); pure tt)
    _ ← renew v.con
    pure Round.served

  unfoldable pub on_send : Entry → RdmCqM Round
  unfolding context_chunk
  on_send e = do
    ck ← context_chunk e.op_context
    v ← chunk_at ck
    c ← con_at v.con
    require (not (c.send_callback == 0))
    _ ← fi lib (Call.callback c.send_callback ck)
    pure Round.served

  unfoldable pub on_entry : Entry → RdmCqM Round
  unfolding on_recv on_send
  on_entry e = if e.is_recv then on_recv e else if e.is_send then on_send e else pure Round.served

  module _ (read_entry : ℕ → Entry) where
    unfoldable pub read_result : Answer → RdmCqM Round
    unfolding on_entry
    read_result a = do
      d ← self
      if is_negative a.ret
          then (if is_again a.ret
              then pure Round.idle
              else (do _ ← fi lib (Call.cq_readerr d.cq); pure Round.broken))
          else (if failed a.ret then on_entry (read_entry a.out) else pure Round.idle)

    -- The body of the loop but for the clock.
    unfoldable pub round : RdmCqM Round
    unfolding read_result
    round = do d ← self; a ← fi lib (Call.cq_read d.cq); read_result a

    -- The test of the loop, on the readings of the clock as uint64_t.
    abbrev pub is_late : (start now : ℕ) → Bool
    is_late start now = ltb 100000 ((now + 2 ^ 64 - start) % 2 ^ 64)

    -- The loop, with the last two readings that it keeps and those to come.
    unfoldable pub poll : (start end : ℕ) → List ℕ → RdmCqM Poll
    unfolding round
    poll start end [] s = ok Poll.unfinished s
    poll start end (now ∷ later) s = and_then (round s) (λ r t. elim r [
      | Round.served ↦ if is_late end now then ok Poll.done t else poll end now later t
      | Round.idle ↦ if is_late start now then ok Poll.done t else poll start now later t
      | Round.broken ↦ ok Poll.done t
      | Round.waiting ↦ ok Poll.stuck t
    ])

    -- The clock's first reading is `start`. For epoll_wait the answer's value is the pointer of the
    -- event; an event for another queue is only reported.
    unfoldable pub wait_event : (start : ℕ) → List ℕ → RdmCqM Poll
    unfolding poll
    wait_event start times = do
      d ← self
      t ← fi lib (Call.trywait d.fabric (d.cq ∷ []))
      if fails t then poll start start times else do
        w ← fi lib Call.epoll_wait
        put λ d. record d { event_ptr = w.out }
        if is_negative w.ret
            then pure Poll.done
            else (if failed w.ret then poll start start times else pure Poll.done)
