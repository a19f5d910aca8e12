-- ===== src/Rdm/Contexts.antt =====
-- The context of a send, from the connection that posts it to the demultiplexer that gets it back.
use hpnl.Base.{ℕ, ◌≡◌, ◌≢◌, refl, ◌∷◌, true, false, ◌==◌, arith, Bool-cases, ap, ◌∙◌, inl, inr}
use hpnl.Base.Run.{ok, fault, Returns, returns, Returns-mono}
use hpnl.Fabric.{Call, Lib, Obj, Trace}
use hpnl.Chunk.{Mem, Heap, ChunkMgr}
use hpnl.Rdm.Connection.{RdmConnection, Names, bare_context, dest_addr, send_buf}
use hpnl.Rdm.Stack.{World}
use hpnl.Rdm.Completion.{RdmCqDemultiplexer, context_chunk, on_send}
use hpnl.Rdm.Completion
use hpnl.Rdm.External.{ExternalRdmCqDemultiplexer, Report}
use hpnl.Rdm.External
use hpnl.Event.Codes.{EventType, value}
use hpnl.Event.Completion.{Entry}

-- The completion of a send with the context `ctx`.
pub record IsSend (ctx : ℕ) (e : Entry) : Type 0 where
  pub context : e.op_context ≡ ctx
  pub recv : e.is_recv ≡ false
  pub send : e.is_send ≡ true

-- The context of the send that was posted last.
abbrev pub posted_context : Trace → ℕ
posted_context (Call.send ep buffer size addr ctx ∷ earlier) = ctx
posted_context earlier = 0

module _ {G : Type 0} (lib : Lib) (mgr : ChunkMgr G) (names : Names) where
  -- The last call posts a send with the context, which has no chunk.
  pub record Bare (ctx : ℕ) (t : Obj RdmConnection (Mem G)) : Type 0 where
    pub chunk : (t.env.heap ctx).ctx_chunk ≡ 0
    pub posted : posted_context t.trace ≡ ctx

  abbrev pub context_of : Obj RdmConnection (Mem G) → ℕ
  context_of s = (lib s.trace (Call.malloc 64)).out

  pub send_buf-Bare :
      (buffer size : ℕ) (s : Obj RdmConnection (Mem G))
      → context_of s ≢ 0
      → Returns (λ _ t. Bare (context_of s) t) (send_buf lib mgr names buffer size s)
  unfolding send_buf bare_context dest_addr
  send_buf-Bare buffer size s ne =
      let some_ctx : (context_of s == 0) ≡ false = ground arith in
      let here : (context_of s == context_of s) ≡ true = ground arith in
      rw some_ctx (returns (record { chunk = rw here refl; posted = refl }))

  on_entry-fault :
      (ctx : ℕ) (e : Entry) (s : Obj RdmCqDemultiplexer (World G))
      → (s.env.mem.heap ctx).ctx_chunk ≡ 0
      → IsSend ctx e
      → Completion.on_entry lib mgr names e s ≡ fault
  unfolding Completion.on_entry on_send context_chunk
  on_entry-fault ctx e s none_there i =
      rw (i.context, i.recv, i.send)
        (elim (Bool-cases (ctx == 0)) [ inl z ↦ rw z refl | inr z ↦ rw z (rw none_there refl) ])

  -- When `sendBuf` gets a context from malloc, it posts a send with it; and at the completion of
  -- that send, `RdmCqDemultiplexer` dereferences the chunk that the context does not have.
  pub send_buf-faults :
      (buffer size : ℕ) (s : Obj RdmConnection (Mem G))
      → context_of s ≢ 0
      → Returns
          (λ _ t.
            (posted_context t.trace ≡ context_of s)
            × ((e : Entry) (d : Obj RdmCqDemultiplexer (World G))
                → d.env.mem ≡ t.env
                → IsSend (context_of s) e
                → Completion.on_entry lib mgr names e d ≡ fault))
          (send_buf lib mgr names buffer size s)
  send_buf-faults buffer size s ne = Returns-mono (send_buf-Bare buffer size s ne) λ _ t bare. (
    bare.posted,
    λ e d same i.
        on_entry-fault (context_of s) e d
          (ap (λ m. (m.heap (context_of s)).ctx_chunk) same ∙ bare.chunk) i,
  )

  -- When `sendBuf` gets a context from malloc, it posts a send with it; and at the completion of
  -- that send, `ExternalRdmCqDemultiplexer` gives the context back, once, reports a send, and leaves
  -- the caller's chunk alone.
  pub send_buf-freed :
      (buffer size : ℕ) (s : Obj RdmConnection (Mem G))
      → context_of s ≢ 0
      → Returns
          (λ _ t.
            (posted_context t.trace ≡ context_of s)
            × ((e : Entry) (old : Report) (d : Obj ExternalRdmCqDemultiplexer Heap)
                → d.env ≡ t.env.heap
                → IsSend (context_of s) e
                → External.on_entry lib e old d
                  ≡ ok
                      (record old { code = value EventType.send_event })
                      (record d { trace = Call.free (context_of s) ∷ d.trace })))
          (send_buf lib mgr names buffer size s)
  unfolding External.on_entry External.on_send
  send_buf-freed buffer size s ne =
      let some_ctx : (context_of s == 0) ≡ false = ground arith in
      Returns-mono (send_buf-Bare buffer size s ne) λ _ t bare. (
        bare.posted,
        λ e old d same i.
            let bare_there : (d.env (context_of s)).ctx_chunk ≡ 0 =
              ap (λ h. (h (context_of s)).ctx_chunk) same ∙ bare.chunk in
            rw (i.context, i.recv, i.send, some_ctx, bare_there) refl,
      )
