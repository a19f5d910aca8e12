-- ===== src/External/Completion/Agreement.antt =====
-- The two demultiplexers of completion queues, that of the library and that of the Java binding.
use hpnl.Base.{
  ℕ, ◌≡◌, ◌≢◌, ◌⊎◌, inl, inr, refl, some, true, false, ◌==◌, ltb, if◌then◌else◌, arith, Bool-cases,
  success, ℤ,
}
use hpnl.Base.StdMap.{lookup}
use hpnl.Base.Run.{ok, Returns, returns}
use hpnl.Fabric.{Lib, Obj}
use hpnl.Chunk.{ChunkMgr}
use hpnl.Event.Codes.{EventType, value}
use hpnl.Event.Completion.{CqDemultiplexer, Entry, Round}
use hpnl.Event.Completion
use hpnl.Event.Completion.Served.{
  serve, Serves, waits, recv-Serves, send-Serves, read-Serves, write-Serves, on_entry-none,
}
use hpnl.External.Completion.{ExternalCqDemultiplexer, Outcome, Report, con_at, on_entry, report}
use hpnl.Msg.Connection.{MsgConnection, ConStatus, rank}
use hpnl.Msg.Connection.Io.{Infos}
use hpnl.Msg.Stack.{World}

module _ {G : Type 0} (lib : Lib) (mgr : ChunkMgr G) (infos : Infos) where
  -- The binding reports an event of the chunk, and the library serves the same event.
  pub record IsServed (e : Entry) (c : MsgConnection) (s : Obj CqDemultiplexer (World G))
      (o : Outcome) : Type 0 where
    pub event : EventType
    pub r : Report
    pub reported : o ≡ Outcome.reported r
    pub code : r.code ≡ value event
    pub ck : r.ck ≡ e.op_context
    pub buffer_id : r.buffer_id ≡ (s.env.mem.heap e.op_context).buffer_id
    pub eq : r.eq ≡ c.con_eq
    pub served :
        Completion.on_entry lib mgr infos e s
        ≡ serve lib mgr infos event c r.ck (s.env.mem.heap e.op_context).con r.block_buffer_size s

  -- Both wait for the connection to be connected; or there is nothing to report, and nothing is
  -- done; or both tell of the same event.
  abbrev pub Agrees : Entry → MsgConnection → Obj CqDemultiplexer (World G) → Outcome → Type 0
  Agrees e c s o =
      ((o ≡ Outcome.waiting) × (Completion.on_entry lib mgr infos e s ≡ ok Round.waiting s))
      ⊎ (((r : Report) × (o ≡ Outcome.reported r)
            × (r.code ≡ success)
            × (Completion.on_entry lib mgr infos e s ≡ ok Round.served s))
          ⊎ IsServed e c s o)

  module _ (e : Entry) (c : MsgConnection) (s : Obj CqDemultiplexer (World G))
      (some_ck : e.op_context ≢ 0)
      (there : lookup (s.env.mem.heap e.op_context).con s.env.cons ≡ some c) where
    -- What the caller's variables hold but for the code and the length.
    abbrev found : Report → Report
    found old = record old {
      ck = e.op_context;
      buffer_id = (s.env.mem.heap e.op_context).buffer_id;
      eq = c.con_eq;
    }

    abbrev told : Report → ℤ → (len : ℕ) → Report
    told old code len = record (found old) { code = code; block_buffer_size = len }

    tells :
        (event : EventType) (old : Report) (code : ℤ) (len : ℕ)
        → report e c (found old) ≡ Outcome.reported (told old code len)
        → code ≡ value event
        → Serves lib mgr infos e c s some_ck there event len
        → Agrees e c s (report e c (found old))
    tells event old code len reported is serves = inr (
        inr (record {
          event = event;
          r = told old code len;
          reported = reported;
          code = is;
          ck = refl;
          buffer_id = refl;
          eq = refl;
          served = serves;
        }))

    report-early :
        (old : Report)
        → e.is_recv ≡ true
        → ltb (rank c.status) (rank ConStatus.connected) ≡ true
        → report e c old ≡ Outcome.waiting
    unfolding report
    report-early old recv early = rw (recv, early) refl

    report-recv :
        (old : Report)
        → e.is_recv ≡ true
        → ltb (rank c.status) (rank ConStatus.connected) ≡ false
        → report e c old
          ≡ Outcome.reported
              (record old { code = value EventType.recv_event; block_buffer_size = e.len })
    unfolding report value
    report-recv old recv ready = rw (recv, ready) refl

    -- The code of an event that is not a receive.
    abbrev code_of : ℤ
    code_of =
        if e.is_send
        then value EventType.send_event
        else if e.is_read
        then value EventType.read_event
        else if e.is_write
        then value EventType.write_event
        else success

    report-other :
        (old : Report)
        → e.is_recv ≡ false
        → report e c old ≡ Outcome.reported (record old { code = code_of })
    unfolding report value
    report-other old recv = rw recv refl

    on_recv-Agrees : (old : Report) → e.is_recv ≡ true → Agrees e c s (report e c (found old))
    on_recv-Agrees old recv = elim (Bool-cases (ltb (rank c.status) (rank ConStatus.connected))) [
      | inl early ↦
          inl (
            report-early (found old) recv early,
            waits lib mgr infos e c s some_ck there recv early,
          )
      | inr ready ↦
          tells EventType.recv_event old _ e.len (report-recv (found old) recv ready) refl
            (recv-Serves lib mgr infos e c s some_ck there recv ready)
    ]

    on_other-Agrees :
        (old : Report)
        → e.is_recv ≡ false
        → c.send_callback ≢ 0
        → Agrees e c s (report e c (found old))
    on_other-Agrees old recv callback =
        let len = old.block_buffer_size in
        let told = report-other (found old) recv in
        elim (Bool-cases e.is_send) [
          | inl send ↦
              tells EventType.send_event old code_of len told (rw send refl)
                (send-Serves lib mgr infos e c s some_ck there len recv send callback)
          | inr send ↦ elim (Bool-cases e.is_read) [
            | inl read ↦
                tells EventType.read_event old code_of len told (rw (send, read) refl)
                  (read-Serves lib mgr infos e c s some_ck there len recv send read)
            | inr read ↦ elim (Bool-cases e.is_write) [
              | inl write ↦
                  tells EventType.write_event old code_of len told (rw (send, read, write) refl)
                    (write-Serves lib mgr infos e c s some_ck there len recv send read write)
              | inr write ↦ inr (
                  inl (
                    record (found old) { code = code_of },
                    told,
                    rw (send, read, write) refl,
                    on_entry-none lib mgr infos e c s some_ck there recv send read write,
                  ))
            ]
          ]
        ]

    -- A completion is for a chunk whose connection is in the table, and the connection has a callback
    -- for what it sends. In the same world, both demultiplexers wait for the connection to be connected;
    -- or the binding reports nothing, and the library does nothing; or the binding reports an event of
    -- the chunk, with its id and the connection's event queue, and the library serves that event.
    pub on_entry-Agrees :
        (d : Obj ExternalCqDemultiplexer (World G)) (old : Report)
        → d.env ≡ s.env
        → (s.env.mem.heap e.op_context).con ≢ 0
        → c.send_callback ≢ 0
        → Returns (λ o t. Agrees e c s o × (t.env ≡ s.env)) (on_entry lib e old d)
    unfolding on_entry
    on_entry-Agrees d old same some_con callback =
        let real_con : ((s.env.mem.heap e.op_context).con == 0) ≡ false = ground arith in
        let real_ck : (e.op_context == 0) ≡ false = ground arith in
        rw (real_ck, same, real_con)
          (rw (con_at, there)
            (returns (
              elim (Bool-cases e.is_recv) [
                | inl recv ↦ on_recv-Agrees old recv
                | inr recv ↦ on_other-Agrees old recv callback
              ],
              refl,
            )))
