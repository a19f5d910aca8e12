-- ===== src/Rdm/External/Clock.antt =====
-- The two readings of the clock that the demultiplexer keeps.
use hpnl.Base.{
  ℕ, false, ◌≡◌, ◌≢◌, ◌≤◌, refl, [], ◌∷◌, ◌==◌, arith, Bool-cases, inl, inr, failed, ◌||◌, not, ap,
}
use hpnl.Base.Run.{Returns, returns, Returns-mono}
use hpnl.Fabric.{Call, Lib, Obj}
use hpnl.Chunk.{Heap}
use hpnl.Event.Completion.{Entry}
use hpnl.Event.Handler.{is_again}
use hpnl.Event.Proactor.{is_negative}
use hpnl.Rdm.External.{
  ExternalRdmCqDemultiplexer, Report, on_recv, on_send, on_entry, read_result, read_queue, await,
  is_time, wait_event,
}

abbrev Demux : Type 0
Demux = Obj ExternalRdmCqDemultiplexer Heap

-- `end - start` does not wrap, and `end` is no later than `now`.
pub record InOrder (now : ℕ) (d : ExternalRdmCqDemultiplexer) : Type 0 where
  pub start : d.start ≤ d.end
  pub end : d.end ≤ now

module _ (lib : Lib) where
  on_entry-keeps :
      (e : Entry) (old : Report) (s : Demux)
      → e.op_context ≢ 0
      → Returns (λ _ t. t.self ≡ s.self) (on_entry lib e old s)
  unfolding on_entry on_recv on_send
  on_entry-keeps e old s ne =
      let some_ctx : (e.op_context == 0) ≡ false = ground arith in
      elim (Bool-cases e.is_recv) [
        | inl r ↦ rw (r, some_ctx) (returns refl)
        | inr r ↦ rw r (elim (Bool-cases e.is_send) [
          | inl b ↦
              rw (b, some_ctx)
                (elim (Bool-cases ((s.env e.op_context).ctx_chunk == 0)) [
                  | inl z ↦ rw z (returns refl)
                  | inr z ↦ rw z (returns refl)
                ])
          | inr b ↦ rw b (elim (Bool-cases e.is_read) [
            | inl c ↦ rw c (returns refl)
            | inr c ↦ rw c (elim (Bool-cases e.is_write) [
              | inl d ↦ rw d (returns refl)
              | inr d ↦ rw d (returns refl)
            ])
          ])
        ])
      ]

  module _ (read_entry : ℕ → Entry) (contexts : (i : ℕ) → (read_entry i).op_context ≢ 0) where
    read_queue-InOrder :
        (now : ℕ) (old : Report) (s : Demux)
        → s.self.start ≤ now
        → Returns (λ _ t. InOrder now t.self) (read_queue lib read_entry now old s)
    unfolding read_queue read_result
    read_queue-InOrder now old s l =
        let c = Call.cq_read s.self.cq in
        let r = (lib s.trace c).ret in
        elim (Bool-cases (is_negative r)) [
          | inl n ↦ rw n (elim (Bool-cases (is_again r)) [
            | inl a ↦ rw a (returns (record { start = l; end = omega arith }))
            | inr a ↦ rw a (returns (record { start = l; end = omega arith }))
          ])
          | inr n ↦ rw n (elim (Bool-cases (failed r)) [
            | inl f ↦ rw f (
                Returns-mono
                  (on_entry-keeps (read_entry (lib s.trace c).out) old
                    (record s { self = record s.self { end = s.self.start }; trace = c ∷ s.trace })
                    (contexts (lib s.trace c).out))
                  λ _ t same. record {
                    start = omega (arith, ap (λ d. d.start) same, ap (λ d. d.end) same);
                    end = omega (arith, ap (λ d. d.start) same, ap (λ d. d.end) same, l);
                  })
            | inr f ↦ rw f (returns (record { start = l; end = omega arith }))
          ])
        ]

    -- Completions have contexts, and the clock does not go back: the time since the last completion
    -- is computed without a wrap, before a call of `wait_event` and after it.
    pub wait_event-InOrder :
        (first second : ℕ) (old : Report) (s : Demux)
        → first ≤ second
        → InOrder first s.self
        → Returns (λ _ t. InOrder second t.self) (wait_event lib read_entry first second old s)
    unfolding wait_event await
    wait_event-InOrder first second old s l o =
        let b = o.start in
        let b' = o.end in
        let c = Call.trywait s.self.fabric (s.self.cq ∷ []) in
        let w = (lib (c ∷ s.trace) Call.epoll_wait).ret in
        elim (Bool-cases (is_time s.self.start s.self.end)) [
          | inr n ↦ rw n (read_queue-InOrder second old s (omega arith))
          | inl n ↦ rw n (elim (Bool-cases (failed (lib s.trace c).ret)) [
            | inl f ↦ rw f (
                read_queue-InOrder second old
                  (record s { self = record s.self { start = first }; trace = c ∷ s.trace }) l)
            | inr f ↦ rw f (elim (Bool-cases (is_negative w || not (failed w))) [
              | inl g ↦ rw g (returns (record { start = b; end = omega arith }))
              | inr g ↦ rw g (
                  read_queue-InOrder second old
                    (record s {
                      self = record s.self {
                        event_ptr = (lib (c ∷ s.trace) Call.epoll_wait).out;
                        start = first;
                      };
                      trace = Call.epoll_wait ∷ c ∷ s.trace;
                    })
                    l)
            ])
          ])
        ]
