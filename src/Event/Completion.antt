-- ===== src/Event/Completion.antt =====
-- `CqDemultiplexer` (src/demultiplexer/CqDemultiplexer.cc), as it is compiled on Linux.
pub mod Polling
pub mod Served
use hpnl.Base.{
  ℕ, ◌+◌, ◌-◌, ◌%◌, ◌^◌, List, [], ◌∷◌, Option, none, some, Bool, not, ◌==◌, ltb, if◌then◌else◌, ℤ,
  failed, success, minus_one, get_elem?,
}
use hpnl.Base.StdMap.{lookup}
use hpnl.Base.Run.{ok, fault, M, ◌>>=◌, ◌>>◌, pure, require, and_then, when}
use hpnl.Fabric.{Answer, Call, Lib, Obj, fi, fails, put, self}
use hpnl.Chunk.{Chunk, ChunkMgr, update}
use hpnl.Msg.Connection.{MsgConnection, ConStatus, rank}
use hpnl.Msg.Connection.Io.{Infos, activate_recv_chunk}
use hpnl.Msg.Stack.{MsgStack, World}
use hpnl.Msg.Stack.Table.{on_con}
use hpnl.Event.Proactor.{is_negative}
use hpnl.Event.Handler.{is_again}

-- The stack that it polls for, the queue, and epoll's pointer.
pub record CqDemultiplexer : Type 0 where
  pub stack : MsgStack
  pub work_num : ℕ
  pub cq : ℕ
  pub fabric : ℕ
  pub fd : ℕ
  pub event_ptr : ℕ

-- The constructor. It leaves the fabric and the descriptors as it finds them.
unfoldable pub construct : (stack : MsgStack) (work_num junk : ℕ) → CqDemultiplexer
construct stack work_num junk = record {
  stack = stack;
  work_num = work_num;
  cq = 0;
  fabric = junk;
  fd = junk;
  event_ptr = junk;
}

-- What fi_cq_read writes: the flags that the code tests, and the chunk of the operation.
pub record Entry : Type 0 where
  pub op_context : ℕ
  pub is_recv : Bool
  pub is_send : Bool
  pub is_read : Bool
  pub is_write : Bool
  pub len : ℕ

-- What one round of the loop comes to: a completion was served, there was none, an error ends the
-- loop, or the thread waits for a connection to be connected.
pub data Round : Type 0 where
  served idle broken waiting : Round

-- How the loop ends: it returns, it waits, or the clock has no more readings.
pub data Poll : Type 0 where
  done stuck unfinished : Poll

module _ {G : Type 0} (lib : Lib) (mgr : ChunkMgr G) (infos : Infos) where
  abbrev pub CqM : Type 0 → Type 0
  CqM A = M (Obj CqDemultiplexer (World G)) A

  unfoldable pub init : CqM ℤ
  init = do
    d ← self
    q ← queue (get_elem? d.stack.cqs d.work_num)
    put λ d. record d { cq = q; fabric = d.stack.fabric }
    _ ← fi lib Call.epoll_create
    require (not (q == 0))
    f ← fi lib (Call.control q)
    if fails f then pure minus_one else do
      put λ d. record d { fd = f.out; event_ptr = q }
      a ← fi lib (Call.epoll_add f.out q)
      pure (if fails a then minus_one else success)
    where
      queue : Option ℕ → CqM ℕ
      queue none s = fault
      queue (some q) s = ok q s

  abbrev pub chunk_at : ℕ → CqM Chunk
  chunk_at ck s = ok (s.env.mem.heap ck) s

  abbrev pub con_at : ℕ → CqM MsgConnection
  con_at p s = elim (lookup p s.env.cons) [ none ↦ fault | some c ↦ ok c s ]

  abbrev pub set_size : (ck len : ℕ) → CqM (Unit {0})
  set_size ck len s = ok tt (record s {
    env = record s.env {
      mem = record s.env.mem {
        heap = update s.env.mem.heap ck (record (s.env.mem.heap ck) { size = len });
      };
    };
  })

  -- `if (callback) (*callback)(&ck->buffer_id, ...)`
  unfoldable pub call_back : (callback ck : ℕ) → CqM (Unit {0})
  call_back callback ck =
      when (not (callback == 0)) (do _ ← fi lib (Call.callback callback ck); pure tt)

  abbrev pub renew : ℕ → CqM ℤ
  renew p s =
      and_then
        (on_con lib mgr infos p (activate_recv_chunk lib mgr infos 0)
          (record { self = s.self.stack; env = s.env; trace = s.trace }))
        (λ r t.
          ok r (record { self = record s.self { stack = t.self }; env = t.env; trace = t.trace }))

  -- A message has come: the callback has it before a new chunk is posted.
  unfoldable pub on_recv : Entry → CqM Round
  unfolding call_back
  on_recv e = do
    v ← chunk_at e.op_context
    c ← con_at v.con
    if ltb (rank c.status) (rank ConStatus.connected) then pure Round.waiting else do
      set_size e.op_context e.len
      call_back c.recv_callback e.op_context
      _ ← renew v.con
      pure Round.served

  unfoldable pub on_entry : Entry → CqM Round
  unfolding on_recv call_back
  on_entry e = do
    require (not (e.op_context == 0))
    v ← chunk_at e.op_context
    if e.is_recv
        then on_recv e
        else if e.is_send
        then (do
          c ← con_at v.con
          require (not (c.send_callback == 0))
          call_back c.send_callback e.op_context
          pure Round.served)
        else if e.is_read
        then (do c ← con_at v.con; call_back c.read_callback e.op_context; pure Round.served)
        else if e.is_write
        then (do c ← con_at v.con; call_back c.write_callback e.op_context; pure Round.served)
        else pure Round.served

  module _ (read_entry : ℕ → Entry) where
    unfoldable pub read_result : Answer → CqM Round
    unfolding on_entry
    read_result a = do
      d ← self
      if is_negative a.ret
          then (if is_again a.ret
              then pure Round.idle
              else (do _ ← fi lib (Call.cq_readerr d.cq); pure Round.broken))
          else (if failed a.ret then on_entry (read_entry a.out) else pure Round.idle)

    -- The body of the loop but for the clock.
    unfoldable pub round : CqM Round
    unfolding read_result
    round = do d ← self; a ← fi lib (Call.cq_read d.cq); read_result a

    -- The test of the loop, on the readings of the clock as uint64_t.
    abbrev pub is_late : (start now : ℕ) → Bool
    is_late start now = ltb 25 ((now + 2 ^ 64 - start) % 2 ^ 64)

    -- The loop, with the last two readings that it keeps and those to come.
    unfoldable pub poll : (start end : ℕ) → List ℕ → CqM Poll
    unfolding round
    poll start end [] s = ok Poll.unfinished s
    poll start end (now ∷ later) s = and_then (round s) (λ r t. elim r [
      | served ↦ if is_late end now then ok Poll.done t else poll end now later t
      | idle ↦ if is_late start now then ok Poll.done t else poll start now later t
      | broken ↦ ok Poll.done t
      | waiting ↦ ok Poll.stuck t
    ])

    -- The clock's first reading is `start`. For epoll_wait the answer's value is the pointer of the
    -- event; an event for another queue is only reported.
    unfoldable pub wait_event : (start : ℕ) → List ℕ → CqM Poll
    unfolding poll
    wait_event start times = do
      d ← self
      t ← fi lib (Call.trywait d.fabric (d.cq ∷ []))
      if fails t then poll start start times else do
        w ← fi lib Call.epoll_wait
        put λ d. record d { event_ptr = w.out }
        if is_negative w.ret
            then pure Poll.done
            else (if failed w.ret then poll start start times else pure Poll.done)
