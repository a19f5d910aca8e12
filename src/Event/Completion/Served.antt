-- ===== src/Event/Completion/Served.antt =====
-- How CqDemultiplexer serves each event of a completion queue.
use hpnl.Base.{ℕ, ◌≡◌, ◌≢◌, refl, some, Bool, true, false, ◌==◌, ltb, if◌then◌else◌, arith}
use hpnl.Base.StdMap.{lookup}
use hpnl.Base.Run.{ok, ◌>>=◌, ◌>>◌, pure, when}
use hpnl.Fabric.{Lib, Obj}
use hpnl.Chunk.{ChunkMgr}
use hpnl.Event.Codes.{EventType}
use hpnl.Event.Completion.{CqDemultiplexer, CqM, Entry, Round, call_back, renew, set_size}
use hpnl.Event.Completion
use hpnl.Msg.Connection.{MsgConnection, ConStatus, rank}
use hpnl.Msg.Connection.Io.{Infos}
use hpnl.Msg.Stack.{World}

-- The callback of a connection for an event, 0 where there is none.
unfoldable pub callback_of : EventType → MsgConnection → ℕ
callback_of EventType.recv_event c = c.recv_callback
callback_of EventType.send_event c = c.send_callback
callback_of EventType.read_event c = c.read_callback
callback_of EventType.write_event c = c.write_callback
callback_of event c = 0

unfoldable is_receive : EventType → Bool
is_receive EventType.recv_event = true
is_receive event = false

module _ {G : Type 0} (lib : Lib) (mgr : ChunkMgr G) (infos : Infos) where
  -- How the library serves an event: the connection `c` at `p` hears of the chunk, and where it is a
  -- receive the chunk has its size before, and a new one is posted afterwards.
  unfoldable pub serve : EventType → (c : MsgConnection) (ck p len : ℕ) → CqM lib mgr infos Round
  unfolding callback_of is_receive
  serve event c ck p len = do
    when (is_receive event) (set_size lib mgr infos ck len)
    call_back lib mgr infos (callback_of event c) ck
    if is_receive event
        then (do _ ← renew lib mgr infos p; pure Round.served)
        else pure Round.served

  module _ (e : Entry) (c : MsgConnection) (s : Obj CqDemultiplexer (World G))
      (some_ck : e.op_context ≢ 0)
      (there : lookup (s.env.mem.heap e.op_context).con s.env.cons ≡ some c) where
    real_ck : (e.op_context == 0) ≡ false
    real_ck = ground arith

    abbrev pub Serves : EventType → (len : ℕ) → Type 0
    Serves event len =
        Completion.on_entry lib mgr infos e s
        ≡ serve event c e.op_context (s.env.mem.heap e.op_context).con len s

    -- The cases of a completion in the library.
    pub waits :
        e.is_recv ≡ true
        → ltb (rank c.status) (rank ConStatus.connected) ≡ true
        → Completion.on_entry lib mgr infos e s ≡ ok Round.waiting s
    unfolding Completion.on_entry Completion.on_recv
    waits recv early = rw (recv, real_ck) (rw (Completion.con_at, there, early) refl)

    pub recv-Serves :
        e.is_recv ≡ true
        → ltb (rank c.status) (rank ConStatus.connected) ≡ false
        → Serves EventType.recv_event e.len
    unfolding Completion.on_entry Completion.on_recv serve callback_of is_receive
    recv-Serves recv ready = rw (recv, real_ck) (rw (Completion.con_at, there, ready) refl)

    pub send-Serves :
        (len : ℕ)
        → e.is_recv ≡ false
        → e.is_send ≡ true
        → c.send_callback ≢ 0
        → Serves EventType.send_event len
    unfolding Completion.on_entry serve callback_of is_receive
    send-Serves len recv send callback =
        let real : (c.send_callback == 0) ≡ false = ground arith in
        rw (recv, send, real_ck) (rw (Completion.con_at, there, real) refl)

    pub read-Serves :
        (len : ℕ)
        → e.is_recv ≡ false
        → e.is_send ≡ false
        → e.is_read ≡ true
        → Serves EventType.read_event len
    unfolding Completion.on_entry serve callback_of is_receive
    read-Serves len recv send read =
        rw (recv, send, read, real_ck) (rw (Completion.con_at, there) refl)

    pub write-Serves :
        (len : ℕ)
        → e.is_recv ≡ false
        → e.is_send ≡ false
        → e.is_read ≡ false
        → e.is_write ≡ true
        → Serves EventType.write_event len
    unfolding Completion.on_entry serve callback_of is_receive
    write-Serves len recv send read write =
        rw (recv, send, read, write, real_ck) (rw (Completion.con_at, there) refl)

    pub on_entry-none :
        e.is_recv ≡ false
        → e.is_send ≡ false
        → e.is_read ≡ false
        → e.is_write ≡ false
        → Completion.on_entry lib mgr infos e s ≡ ok Round.served s
    unfolding Completion.on_entry
    on_entry-none recv send read write = rw (recv, send, read, write, real_ck) refl
