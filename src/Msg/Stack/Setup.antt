-- ===== src/Msg/Stack/Setup.antt =====
-- Which handles a stack holds after `init`: all of them, or none.
use hpnl.Base.{
  ℕ, ◌≡◌, ◌≢◌, ◌≤◌, refl, [], ◌∷◌, Bool, ◌==◌, arith, Bool-cases, inl, inr, failed, sym, count,
  length, at_or_0, count-take, at_or_0-replicate,
}
use hpnl.Base.Run.{Returns}
use hpnl.Fabric.{Call, Lib}
use hpnl.Fabric.Handles.{
  opened, closed, Accounted, Accounted-call, Accounted-open, Accounted-fail, Accounted-null,
  Accounted-perm,
}
use hpnl.Chunk.{ChunkMgr}
use hpnl.Msg.Stack.{
  MsgStack, World, max_workers, source_flag, construct, open_domain, open_eq, open_fabric, get_info,
  init,
}
use hpnl.Msg.Stack.Cleanup.{
  Stk, SetUp, free_hints-SetUp, free_info-SetUp, free_fabric-SetUp, free_eq-SetUp,
  free_domain-SetUp,
}
use hpnl.Msg.Stack.Queues.{open_cqs-SetUp}

module _ {G : Type 0} (lib : Lib) (mgr : ChunkMgr G) where
  -- No queue is open, and the array has room for all.
  record NoQueues (k : MsgStack) : Type 0 where
    workers : k.worker_num ≤ max_workers
    size : length k.cqs ≡ max_workers
    free : (j : ℕ) → at_or_0 k.cqs j ≡ 0

  NoQueues-count : (k : MsgStack) → NoQueues k → (h : ℕ) → h ≢ 0 → count h k.cqs ≡ 0
  NoQueues-count k v h ne = sym (count-take h 0 k.cqs ne (λ j _. v.free j))

  -- The state after `c` has answered with the handle that `f` puts in its field.
  abbrev step : (c : Call) → (ℕ → MsgStack → MsgStack) → Stk lib mgr → Stk lib mgr
  step c f s = record s { self = f (lib s.trace c).out s.self; trace = c ∷ s.trace }

  open_domain-SetUp :
      (s : Stk lib mgr)
      → s.self.domain ≡ 0
      → NoQueues s.self
      → Accounted lib s.trace (s.self.peq ∷ s.self.fabric ∷ s.self.info ∷ s.self.hints ∷ [])
      → Returns (SetUp lib mgr) (open_domain lib mgr s)
  unfolding open_domain
  open_domain-SetUp s z v k =
      let c = Call.open_domain s.self.fabric s.self.info in
      elim (Bool-cases (failed (lib s.trace c).ret)) [
        | inl f ↦ rw f (
            free_domain-SetUp lib mgr (record s { trace = c ∷ s.trace })
              (Accounted-null z (Accounted-fail c refl refl f k)))
        | inr f ↦ rw f (
            open_cqs-SetUp lib mgr s.self.worker_num 0 (step c (λ h k. record k { domain = h }) s)
              (omega arith) v.workers
              (record {
                size = v.size;
                free = λ j _. v.free j;
                accounted =
                    Accounted-perm _ (λ h ne. omega (arith, NoQueues-count s.self v h ne))
                      (Accounted-open c refl refl f k);
              }))
      ]

  open_eq-SetUp :
      (s : Stk lib mgr)
      → s.self.domain ≡ 0
      → s.self.peq ≡ 0
      → NoQueues s.self
      → Accounted lib s.trace (s.self.fabric ∷ s.self.info ∷ s.self.hints ∷ [])
      → Returns (SetUp lib mgr) (open_eq lib mgr s)
  unfolding open_eq
  open_eq-SetUp s d z v k =
      let c = Call.eq_open s.self.fabric in
      elim (Bool-cases (failed (lib s.trace c).ret)) [
        | inl f ↦ rw f (
            free_eq-SetUp lib mgr (record s { trace = c ∷ s.trace })
              (Accounted-null z (Accounted-fail c refl refl f k)))
        | inr f ↦ rw f (
            open_domain-SetUp (step c (λ h k. record k { peq = h }) s) d
              (record { workers = v.workers; size = v.size; free = v.free })
              (Accounted-open c refl refl f k))
      ]

  open_fabric-SetUp :
      (s : Stk lib mgr)
      → s.self.domain ≡ 0
      → s.self.peq ≡ 0
      → s.self.fabric ≡ 0
      → NoQueues s.self
      → Accounted lib s.trace (s.self.info ∷ s.self.hints ∷ [])
      → Returns (SetUp lib mgr) (open_fabric lib mgr s)
  unfolding open_fabric
  open_fabric-SetUp s d p z v k =
      let c = Call.open_fabric s.self.info in
      elim (Bool-cases (failed (lib s.trace c).ret)) [
        | inl f ↦ rw f (
            free_fabric-SetUp lib mgr (record s { trace = c ∷ s.trace })
              (Accounted-null z (Accounted-fail c refl refl f k)))
        | inr f ↦ rw f (
            open_eq-SetUp (step c (λ h k. record k { fabric = h }) s) d p
              (record { workers = v.workers; size = v.size; free = v.free })
              (Accounted-open c refl refl f k))
      ]

  get_info-SetUp :
      (s : Stk lib mgr)
      → s.self.domain ≡ 0
      → s.self.peq ≡ 0
      → s.self.fabric ≡ 0
      → s.self.info ≡ 0
      → NoQueues s.self
      → Accounted lib s.trace (s.self.hints ∷ [])
      → Returns (SetUp lib mgr) (get_info lib mgr s)
  unfolding get_info
  get_info-SetUp s d p b z v k =
      let c = Call.getinfo 0 0 (source_flag s.self.is_server) s.self.hints in
      elim (Bool-cases (failed (lib s.trace c).ret)) [
        | inl f ↦ rw f (
            free_info-SetUp lib mgr (record s { trace = c ∷ s.trace })
              (Accounted-null z (Accounted-fail c refl refl f k)))
        | inr f ↦ rw f (
            open_fabric-SetUp (step c (λ h k. record k { info = h }) s) d p b
              (record { workers = v.workers; size = v.size; free = v.free })
              (Accounted-open c refl refl f k))
      ]

  construct-NoQueues :
      (w b : ℕ) (server external : Bool)
      → w ≤ max_workers
      → NoQueues (construct w b server external)
  unfolding construct
  construct-NoQueues w b server external l = record {
    workers = l;
    size = refl;
    free = at_or_0-replicate max_workers;
  }

  -- `init` of a new stack with at most ten workers ends in one of two ways. It returns 0 and each
  -- handle that it opened is in its field, once; or it returns -1, at whichever call it fails, and
  -- has given back each handle that it opened, once.
  pub init-SetUp :
      (w b : ℕ) (server external : Bool) (world : World G)
      → w ≤ max_workers
      → Returns
          (SetUp lib mgr)
          (init lib mgr (record { self = construct w b server external; env = world; trace = [] }))
  unfolding init construct opened closed
  init-SetUp w b server external world l =
      let start : Stk lib mgr = record {
        self = construct w b server external;
        env = world;
        trace = [];
      } in
      let none_held : Accounted lib [] [] = record { balance = λ h ne. omega arith } in
      let v = construct-NoQueues w b server external l in
      let held = Accounted-call Call.allocinfo refl none_held in
      let next = step Call.allocinfo (λ h k. record k { hints = h }) start in
      elim (Bool-cases ((lib [] Call.allocinfo).out == 0)) [
        | inl e ↦ rw e (free_hints-SetUp lib mgr next held)
        | inr e ↦ rw e (
            get_info-SetUp next refl refl refl refl
              (record { workers = v.workers; size = v.size; free = v.free }) held)
      ]
