-- ===== src/Msg/Stack/Queues.antt =====
-- The loop of `MsgStack::init` that opens the completion queues.
use hpnl.Base.{
  ℕ, zero, suc, ◌+◌, ◌≡◌, ◌≢◌, ◌≤◌, ◌<◌, refl, ◌∷◌, ◌++◌, true, false, ltb, arith, Bool-cases, inl,
  inr, failed, subst, sym, ◌∙◌, count, take, length, set, at_or_0, count-set, at_or_0-set_ne,
  length-set, count-take, count-append,
}
use hpnl.Base.Run.{Returns, returns, Returns-bind}
use hpnl.Fabric.{Call, Lib}
use hpnl.Fabric.Handles.{Accounted, Accounted-open, Accounted-fail, Accounted-perm}
use hpnl.Chunk.{ChunkMgr}
use hpnl.Msg.Stack.{max_workers, free_cq, open_cqs}
use hpnl.Msg.Stack.Cleanup.{handles, Stk, SetUp, single, close_cqs-Accounted, free_domain-SetUp}

module _ {G : Type 0} (lib : Lib) (mgr : ChunkMgr G) where
  -- Queue `i` and those behind it are not open yet.
  pub record IsOpening (i : ℕ) (s : Stk lib mgr) : Type 0 where
    pub size : length s.self.cqs ≡ max_workers
    pub free : (j : ℕ) → i ≤ j → at_or_0 s.self.cqs j ≡ 0
    pub accounted : Accounted lib s.trace (handles s.self)

  free_cq-count :
      (i : ℕ) (s : Stk lib mgr)
      → i ≤ s.self.worker_num
      → IsOpening i s
      → (h : ℕ) → h ≢ 0
      → count h (handles s.self)
        ≡ count h (take s.self.worker_num s.self.cqs ++ single lib mgr s.self)
  free_cq-count i s l v h ne = omega (
    arith,
    count-append h (take s.self.worker_num s.self.cqs) (single lib mgr s.self),
    count-take h s.self.worker_num s.self.cqs ne (λ j m. v.free j (omega arith)),
  )

  free_cq-SetUp :
      (i : ℕ) (s : Stk lib mgr)
      → i ≤ s.self.worker_num
      → s.self.worker_num ≤ max_workers
      → IsOpening i s
      → Returns (SetUp lib mgr) (free_cq lib mgr s)
  unfolding free_cq
  free_cq-SetUp i s l w v =
      let fits : ltb max_workers s.self.worker_num ≡ false = ground arith in
      rw fits (
        Returns-bind
          (close_cqs-Accounted lib mgr (take s.self.worker_num s.self.cqs) (single lib mgr s.self) s
            (Accounted-perm _ (free_cq-count i s l v) v.accounted))
          λ _ t e.
            free_domain-SetUp lib mgr t
              (subst (λ k. Accounted lib t.trace (single lib mgr k)) (sym e.0) e.1))

  -- The state after the fi_cq_open of round `i` has answered.
  abbrev next_cq : ℕ → Stk lib mgr → Stk lib mgr
  next_cq i s =
      let c = Call.cq_open s.self.domain in
      record s {
        self = record s.self { cqs = set s.self.cqs i (lib s.trace c).out };
        trace = c ∷ s.trace;
      }

  next_cq-IsOpening :
      (i : ℕ) (s : Stk lib mgr)
      → i < max_workers
      → failed (lib s.trace (Call.cq_open s.self.domain)).ret ≡ false
      → IsOpening i s
      → IsOpening (i + 1) (next_cq i s)
  next_cq-IsOpening i s l f v =
      let c = Call.cq_open s.self.domain in
      let out = (lib s.trace c).out in
      record {
        size = length-set s.self.cqs i out ∙ v.size;
        free = λ j m. at_or_0-set_ne s.self.cqs i j out (omega arith) ∙ v.free j (omega arith);
        accounted =
            Accounted-perm _
              (λ h ne. omega (
                arith,
                count-set h s.self.cqs i out ne (omega (arith, v.size)) (v.free i (omega arith)),
              ))
              (Accounted-open c refl refl f v.accounted);
      }

  pub open_cqs-SetUp :
      (n i : ℕ) (s : Stk lib mgr)
      → i + n ≡ s.self.worker_num
      → s.self.worker_num ≤ max_workers
      → IsOpening i s
      → Returns (SetUp lib mgr) (open_cqs lib mgr n i s)
  unfolding open_cqs
  open_cqs-SetUp zero i s e w v = returns (inl (refl, refl, v.accounted))
  open_cqs-SetUp (suc n) i s e w v =
      let c = Call.cq_open s.self.domain in
      let room : ltb i max_workers ≡ true = ground arith in
      rw room (elim (Bool-cases (failed (lib s.trace c).ret)) [
        | inl f ↦ rw f (
            free_cq-SetUp i (record s { trace = c ∷ s.trace }) (omega arith) w
              (record {
                size = v.size;
                free = v.free;
                accounted = Accounted-fail c refl refl f v.accounted;
              }))
        | inr f ↦ rw f (
            open_cqs-SetUp n (i + 1) (next_cq i s) (omega arith) w
              (next_cq-IsOpening i s (omega arith) f v))
      ])
