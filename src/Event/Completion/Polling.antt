-- ===== src/Event/Completion/Polling.antt =====
-- When the loop over an empty completion queue ends.
use hpnl.Base.{
  ℕ, ◌+◌, ◌^◌, ◌≡◌, ◌<◌, refl, List, [], ◌∷◌, true, arith, Bool-cases, inl, inr, negsuc, zero, suc,
  get_elem?, some, subst, sym, ◌∙◌,
}
use hpnl.Base.Run.{Returns, returns, Returns-bind, Returns-mono}
use hpnl.Fabric.{Call, Lib, Obj, Trace}
use hpnl.Chunk.{ChunkMgr}
use hpnl.Msg.Connection.Io.{Infos}
use hpnl.Msg.Stack.{World}
use hpnl.Event.Completion.{CqDemultiplexer, Entry, Round, Poll, round, read_result, is_late, poll}

module _ {G : Type 0} (lib : Lib) (mgr : ChunkMgr G) (infos : Infos) (read_entry : ℕ → Entry) where
  -- The completion queue stays empty: fi_cq_read answers -FI_EAGAIN.
  abbrev pub Empty : ℕ → Type 0
  Empty q = (t : Trace) → (lib t (Call.cq_read q)).ret ≡ negsuc 10

  round-idle :
      (s : Obj CqDemultiplexer (World G))
      → Empty s.self.cq
      → Returns
          (λ r t. (r ≡ Round.idle) × (t.self ≡ s.self) × (t.env ≡ s.env))
          (round lib mgr infos read_entry s)
  unfolding round read_result
  round-idle s empty = rw (empty s.trace) (returns (refl, refl, refl))

  -- On an empty queue the loop ends, and the connections and the demultiplexer are as they were, if
  -- one of the clock's readings, below 2 ^ 64, is more than 25 microseconds after its start.
  pub poll-done :
      (start end now i : ℕ) (times : List ℕ) (s : Obj CqDemultiplexer (World G))
      → Empty s.self.cq
      → get_elem? times i ≡ some now
      → start + 25 < now
      → now < 2 ^ 64
      → Returns
          (λ r t. (r ≡ Poll.done) × (t.self ≡ s.self) × (t.env ≡ s.env))
          (poll lib mgr infos read_entry start end times s)
  unfolding poll
  poll-done start end now i [] s empty at l w = absurd (ground arith)
  poll-done start end now zero (first ∷ later) s empty at l w =
      let late : is_late lib mgr infos read_entry start first ≡ true = ground arith in
      Returns-bind (round-idle s empty)
        λ r t (e, same, env). rw (e, late) (returns (refl, same, env))
  poll-done start end now (suc i) (first ∷ later) s empty at l w =
      Returns-bind (round-idle s empty) λ r t (e, same, env).
        rw e (elim (Bool-cases (is_late lib mgr infos read_entry start first)) [
          | inl late ↦ rw late (returns (refl, same, env))
          | inr soon ↦ rw soon (
              Returns-mono
                (poll-done start first now i later t (subst (λ d. Empty d.cq) (sym same) empty) at l
                  w)
                λ p u (e', same', env'). (e', same' ∙ same, env' ∙ env))
        ])
