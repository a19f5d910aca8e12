-- ===== src/Java/CqService/Received.antt =====
-- What CqService does with a chunk that has been received into.
use hpnl.Base.{
  ℕ, ◌≡◌, ◌≢◌, refl, Option, some, true, false, ◌==◌, arith, ◌∷◌, failed, ltb, ◌≤◌, get_elem?, ℤ,
  success,
}
use hpnl.Base.StdMap.{lookup, lookup-assign_self}
use hpnl.Base.Run.{ok, Returns, returns}
use hpnl.Fabric.{Call, Trace, Lib}
use hpnl.Event.Codes.{EventType, value}
use hpnl.Event.Completion.{Entry}
use hpnl.Event.Proactor.{is_negative}
use hpnl.External.Completion.{ExternalCqDemultiplexer, Outcome, Report, is_time, report}
use hpnl.External.Completion
use hpnl.External.CqService.{ExternalCqService, Slot}
use hpnl.External.CqService
use hpnl.Java.Binding.{Upcall, Binding, on_service}
use hpnl.Java.CqService.{CqBinding, on_completion, on_outcome, wait_cq_event}
use hpnl.Java.EqService.{Env}
use hpnl.Msg.Connection.{MsgConnection, ConStatus, rank}
use hpnl.Msg.Connection.Io.{Infos}
use hpnl.Msg.Connection.Io
use hpnl.Msg.Stack.Table

-- An object whose service is there.
abbrev pub running : Binding ExternalCqService → ExternalCqService → Env → Trace → CqBinding
running b v env trace = record {
  self = record b { native_handle = some v };
  env = env;
  trace = trace;
}

module _ (lib : Lib) (infos : Infos) (b : Binding ExternalCqService) (ck p : ℕ)
    (c : MsgConnection) where
  -- Java has heard of the receive, and the chunk is posted again on the endpoint, each once.
  pub record IsReceived (r : Report) (env : Env) (trace : Trace) (o : Option ℤ) (t : CqBinding)
      : Type 0 where
    pub code : o ≡ some (value EventType.recv_event)
    pub heard :
        t.self.upcalls
        ≡ Upcall.handle_cq_callback r.eq
            (value EventType.recv_event)
            r.buffer_id
            r.block_buffer_size
          ∷ b.upcalls
    pub posted :
        t.trace ≡ Call.recv c.ep (env.mem.heap ck).buffer (env.mem.heap ck).capacity ck ∷ trace
    pub con : lookup p t.env.cons ≡ some c

  on_outcome-IsReceived :
      (r : Report) (v : ExternalCqService) (env : Env) (trace : Trace)
      → r.code ≡ value EventType.recv_event
      → r.ck ≡ ck
      → ck ≢ 0
      → (env.mem.heap ck).con ≡ p
      → p ≢ 0
      → lookup p env.cons ≡ some c
      → Returns
          (λ o t. IsReceived r env trace o t)
          (on_outcome lib infos (Outcome.reported r) (running b v env trace))
  unfolding on_outcome on_completion on_service Table.on_con Io.activate_recv_chunk value
  on_outcome-IsReceived r v env trace code same nc con np there =
      let real_ck : (ck == 0) ≡ false = ground arith in
      let real_con : (p == 0) ≡ false = ground arith in
      let here : (ck == ck) ≡ true = ground arith in
      rw (code, same, real_ck, con, real_con)
        (rw (on_service, Table.on_con, there, real_ck, here)
          (returns (record {
            code = refl;
            heard = refl;
            posted = refl;
            con = lookup-assign_self p c env.cons;
          })))

-- The completion of a receive into the chunk `ck`.
pub record IsReceive (ck : ℕ) (e : Entry) : Type 0 where
  pub context : e.op_context ≡ ck
  pub recv : e.is_recv ≡ true

-- The queue has a completion: the read of it gives `e`.
pub record Reads (lib : Lib) (read_entry : ℕ → Entry) (cq : ℕ) (trace : Trace) (e : Entry)
    : Type 0 where
  pub some_entry : is_negative (lib trace (Call.cq_read cq)).ret ≡ false
  pub not_none : failed (lib trace (Call.cq_read cq)).ret ≡ true
  pub entry : read_entry (lib trace (Call.cq_read cq)).out ≡ e

-- The report on a receive into the chunk `ck` with this id, for the connection `c`.
abbrev pub received : (c : MsgConnection) (ck id len : ℕ) → Report → Report
received c ck id len old = record old {
  code = value EventType.recv_event;
  eq = c.con_eq;
  ck = ck;
  buffer_id = id;
  block_buffer_size = len;
}

module _ (lib : Lib) (infos : Infos) (read_entry : ℕ → Entry) (ck p : ℕ) (c : MsgConnection)
    (e : Entry) (d : ExternalCqDemultiplexer) (env : Env) (trace : Trace)
    (busy : is_time d.start d.end ≡ false) (reads : Reads lib read_entry d.cq trace e)
    (receive : IsReceive ck e) (nc : ck ≢ 0) (con : (env.mem.heap ck).con ≡ p) (np : p ≢ 0)
    (there : lookup p env.cons ≡ some c) (up : rank ConStatus.connected ≤ rank c.status)
    (b : Binding ExternalCqService) where
  wait_event-received :
      (first second : ℕ) (old : Report)
      → Completion.wait_event lib read_entry first second old
          (record { self = d; env = env; trace = trace })
        ≡ ok (Outcome.reported (received c ck (env.mem.heap ck).buffer_id e.len old)) (record {
          self = record d { end = d.start };
          env = env;
          trace = Call.cq_read d.cq ∷ trace;
        })
  unfolding Completion.wait_event Completion.read_queue Completion.read_result Completion.on_entry
      report value
  wait_event-received first second old =
      let real_ck : (ck == 0) ≡ false = ground arith in
      let real_con : (p == 0) ≡ false = ground arith in
      let ready : ltb (rank c.status) (rank ConStatus.connected) ≡ false = ground arith in
      rw (busy, reads.some_entry, reads.not_none)
        (rw
          (
            reads.entry, receive.context, receive.recv, real_ck, con, real_con, Completion.con_at,
            there, ready,
          )
          refl)

  -- A demultiplexer has no time to wait for, and its queue has the completion of a receive, for a
  -- connection that is connected. Then CqService tells Java of it with the connection's event queue,
  -- the chunk's id and the length, and posts the chunk again, each once; it returns RECV_EVENT.
  pub wait_cq_event-IsReceived :
      (v : ExternalCqService) (index first second junk : ℕ)
      → get_elem? v.cq_demultiplexer index ≡ some (Slot.live d)
      → Returns
          (λ o t.
            IsReceived lib infos b ck p c
              (received c ck (env.mem.heap ck).buffer_id e.len (record {
                code = success;
                eq = junk;
                ck = 0;
                buffer_id = 0;
                block_buffer_size = 0;
              }))
              env
              (Call.cq_read d.cq ∷ trace)
              o
              t)
          (wait_cq_event lib infos read_entry index first second junk (running b v env trace))
  unfolding wait_cq_event on_service CqService.wait_cq_event
  wait_cq_event-IsReceived v index first second junk slot =
      let old : Report = record {
        code = success;
        eq = junk;
        ck = 0;
        buffer_id = 0;
        block_buffer_size = 0;
      } in
      rw (on_service, CqService.wait_cq_event, slot)
        (rw (wait_event-received first second old) (
          on_outcome-IsReceived lib infos b ck p c
            (received c ck (env.mem.heap ck).buffer_id e.len old) _ env _ refl refl nc con np
            there))
