-- ===== src/Java/RdmService/Received.antt =====
-- What RdmService does with a chunk that has been received into.
use hpnl.Base.{ℕ, ◌≡◌, ◌≢◌, refl, some, true, false, ◌==◌, arith, ◌∷◌, ℤ, success}
use hpnl.Base.StdMap.{lookup, lookup-assign, lookup-assign_self}
use hpnl.Base.Run.{ok, Returns, returns}
use hpnl.Fabric.{Call, Trace, Lib}
use hpnl.Event.Codes.{EventType, value}
use hpnl.Event.Completion.{Entry}
use hpnl.External.RdmService.{ExternalRdmService}
use hpnl.External.RdmService
use hpnl.Java.Binding.{Upcall, Binding, on_service}
use hpnl.Java.RdmService.{Env, RdmBinding, on_con, on_report, wait_event}
use hpnl.Java.RdmService.Bare.{Reads, running}
use hpnl.Rdm.Connection.{RdmConnection, Names}
use hpnl.Rdm.Connection.Setup
use hpnl.Rdm.External.{ExternalRdmCqDemultiplexer, Report}
use hpnl.Rdm.External

-- The completion of a receive with the context `ctx`.
pub record IsReceive (ctx : ℕ) (e : Entry) : Type 0 where
  pub context : e.op_context ≡ ctx
  pub recv : e.is_recv ≡ true

module _ (lib : Lib) (names : Names) (b : Binding ExternalRdmService) (ck p : ℕ)
    (c : RdmConnection) where
  -- Java has heard of the receive, and the chunk is posted again on the endpoint, each once; the
  -- connections are as they were.
  pub record IsReceived (len : ℕ) (env : Env) (trace : Trace) (r : ℤ) (t : RdmBinding)
      : Type 0 where
    pub code : r ≡ value EventType.recv_event
    pub heard :
        t.self.upcalls
        ≡ Upcall.handle_callback p (value EventType.recv_event) (env.mem.heap ck).buffer_id len
          ∷ b.upcalls
    pub posted :
        t.trace ≡ Call.recv c.ep (env.mem.heap ck).buffer (env.mem.heap ck).capacity ck ∷ trace
    pub con : lookup p t.env.cons ≡ some c
    pub others : (i : ℕ) → (p == i) ≡ false → lookup i t.env.cons ≡ lookup i env.cons

  on_report-IsReceived :
      (len : ℕ) (v : ExternalRdmService) (d : ExternalRdmCqDemultiplexer) (env : Env)
      (trace : Trace)
      → ck ≢ 0
      → (env.mem.heap ck).con ≡ p
      → lookup p env.cons ≡ some c
      → Returns
          (λ r t. IsReceived len env trace r t)
          (on_report lib names
            (record { code = value EventType.recv_event; ck = ck; block_buffer_size = len })
            (running b v d env trace))
  unfolding on_report on_con Setup.activate_recv_chunk Setup.post_recv value
  on_report-IsReceived len v d env trace some_ck con there =
      let real : (ck == 0) ≡ false = ground arith in
      rw (real, con)
        (rw (on_con, there)
          (returns (record {
            code = refl;
            heard = refl;
            posted = refl;
            con = lookup-assign_self p c env.cons;
            others = λ i e. rw (lookup-assign, e) refl;
          })))

  module _ (read_entry : ℕ → Entry) (ctx first second : ℕ) (e : Entry)
      (d : ExternalRdmCqDemultiplexer) (env : Env) (trace : Trace)
      (reads : Reads lib read_entry d trace e) (receive : IsReceive ctx e) (some_ctx : ctx ≢ 0)
      (chunk : (env.mem.heap ctx).ctx_chunk ≡ ck) where
    wait_event-received :
        (old : Report)
        → External.wait_event lib read_entry first second old
            (record { self = d; env = env.mem.heap; trace = trace })
          ≡ ok
              (record { code = value EventType.recv_event; ck = ck; block_buffer_size = e.len })
              (record {
                self = record d { end = d.start };
                env = env.mem.heap;
                trace = Call.cq_read d.cq ∷ trace;
              })
    unfolding External.wait_event External.read_queue External.read_result External.on_entry
        External.on_recv value
    wait_event-received old =
        let real : (ctx == 0) ≡ false = ground arith in
        rw (reads.busy, reads.some_entry, reads.not_none)
          (rw (reads.entry, receive.recv, receive.context, real, chunk) refl)

    -- A demultiplexer has no time to wait for, and its queue has the completion of a receive, with a
    -- context that has a chunk, of a connection that is there. Then RdmService tells Java of it with
    -- the connection, the chunk's id and the length, and posts the chunk again, each once; it returns
    -- RECV_EVENT.
    pub wait_event-IsReceived :
        (v : ExternalRdmService)
        → ck ≢ 0
        → (env.mem.heap ck).con ≡ p
        → lookup p env.cons ≡ some c
        → Returns
            (λ r t. IsReceived e.len env (Call.cq_read d.cq ∷ trace) r t)
            (wait_event lib names read_entry first second (running b v d env trace))
    unfolding wait_event on_service RdmService.wait_event
    wait_event-IsReceived v some_ck con there =
        rw
          (
            on_service,
            RdmService.wait_event,
            wait_event-received (record { code = success; ck = 0; block_buffer_size = 0 }),
          )
          (on_report-IsReceived e.len v _ env _ some_ck con there)
