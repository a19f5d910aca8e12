-- ===== src/Java/RdmService/Bare.antt =====
-- What RdmService does at the completion of `sendBuf`.
use hpnl.Base.{
  ℕ, ◌≡◌, ◌≢◌, refl, some, true, false, ◌==◌, arith, ◌∷◌, failed, ℤ, success, ap, subst, ◌∙◌,
}
use hpnl.Base.Run.{ok, fault, Returns, Returns-ok}
use hpnl.Fabric.{Call, Trace, Lib, Obj}
use hpnl.Chunk.{Mem}
use hpnl.Chunk.External.{ExternalChunkMgr, external_chunk_mgr}
use hpnl.Event.Codes.{EventType, value}
use hpnl.Event.Completion.{Entry}
use hpnl.Event.Proactor.{is_negative}
use hpnl.External.RdmService.{ExternalRdmService}
use hpnl.External.RdmService
use hpnl.Java.Binding.{Binding, on_service}
use hpnl.Java.RdmService.{Env, RdmBinding, on_report, wait_event}
use hpnl.Rdm.Connection.{RdmConnection, Names, send_buf}
use hpnl.Rdm.Contexts.{IsSend, posted_context, send_buf-Bare, context_of}
use hpnl.Rdm.External.{ExternalRdmCqDemultiplexer, Report, is_time}
use hpnl.Rdm.External

-- An object whose service is there, with its demultiplexer.
abbrev pub running :
    Binding ExternalRdmService
    → ExternalRdmService
    → ExternalRdmCqDemultiplexer
    → Env
    → Trace
    → RdmBinding
running b v d env trace = record {
  self = record b { native_handle = some (record v { demultiplexer = some d }) };
  env = env;
  trace = trace;
}

-- There is no time to wait for, and the read of the queue gives `e`.
pub record Reads (lib : Lib) (read_entry : ℕ → Entry) (d : ExternalRdmCqDemultiplexer)
    (trace : Trace) (e : Entry) : Type 0 where
  pub busy : is_time d.start d.end ≡ false
  pub some_entry : is_negative (lib trace (Call.cq_read d.cq)).ret ≡ false
  pub not_none : failed (lib trace (Call.cq_read d.cq)).ret ≡ true
  pub entry : read_entry (lib trace (Call.cq_read d.cq)).out ≡ e

module _ (lib : Lib) (names : Names) where
  module _ (read_entry : ℕ → Entry) (ctx first second : ℕ) (e : Entry)
      (d : ExternalRdmCqDemultiplexer) (env : Env) (trace : Trace)
      (reads : Reads lib read_entry d trace e) (i : IsSend ctx e) (ne : ctx ≢ 0)
      (bare : (env.mem.heap ctx).ctx_chunk ≡ 0) where
    demultiplexer-sent :
        (old : Report)
        → External.wait_event lib read_entry first second old
            (record { self = d; env = env.mem.heap; trace = trace })
          ≡ ok
              (record old { code = value EventType.send_event })
              (record {
                self = record d { end = d.start };
                env = env.mem.heap;
                trace = Call.free ctx ∷ Call.cq_read d.cq ∷ trace;
              })
    unfolding External.wait_event External.read_queue External.read_result External.on_entry
        External.on_send value
    demultiplexer-sent old =
        let real : (ctx == 0) ≡ false = ground arith in
        rw (reads.busy, reads.some_entry, reads.not_none)
          (rw (reads.entry, i.recv, i.send, i.context, real, bare) refl)

    wait_event-fault :
        (b : Binding ExternalRdmService) (v : ExternalRdmService)
        → wait_event lib names read_entry first second (running b v d env trace) ≡ fault
    unfolding wait_event on_report on_service RdmService.wait_event value
    wait_event-fault b v =
        rw
          (
            on_service,
            RdmService.wait_event,
            demultiplexer-sent (record { code = success; ck = 0; block_buffer_size = 0 }),
          )
          refl

  -- `sendBuf` gets a context from malloc and comes back. Then it has posted a send with the context;
  -- and when RdmService reads the completion of that send, and the context is as it was then, it
  -- dereferences the chunk that the context does not have.
  pub send_buf-wait_event :
      (buffer size : ℕ) (s t : Obj RdmConnection (Mem ExternalChunkMgr)) (r : ℤ)
      (read_entry : ℕ → Entry) (first second : ℕ) (e : Entry) (b : Binding ExternalRdmService)
      (v : ExternalRdmService) (d : ExternalRdmCqDemultiplexer) (env : Env) (trace : Trace)
      → send_buf lib external_chunk_mgr names buffer size s ≡ ok r t
      → context_of lib external_chunk_mgr names s ≢ 0
      → env.mem.heap (context_of lib external_chunk_mgr names s)
        ≡ t.env.heap (context_of lib external_chunk_mgr names s)
      → Reads lib read_entry d trace e
      → IsSend (context_of lib external_chunk_mgr names s) e
      → (posted_context t.trace ≡ context_of lib external_chunk_mgr names s)
        × (wait_event lib names read_entry first second (running b v d env trace) ≡ fault)
  send_buf-wait_event buffer size s t r read_entry first second e b v d env trace sent ne same reads
        i =
      let bare =
        Returns-ok r t
          (subst (Returns _) sent (send_buf-Bare lib external_chunk_mgr names buffer size s ne)) in
      (
        bare.posted,
        wait_event-fault read_entry _ first second e d env trace reads i ne
            (ap (λ c. c.ctx_chunk) same ∙ bare.chunk) b v,
      )
