-- ===== src/Msg/Connection/Fixed.antt =====
-- `init`, `connect`, `accept` and the destructor return, and the connection stays on its queue.
use hpnl.Base.{
  ℕ, zero, suc, ◌≡◌, refl, List, [], ◌∷◌, Bool, true, false, ◌==◌, failed, Bool-cases, inl, inr,
  map, some, none, Option, subst, sym, ℤ, arith,
}
use hpnl.Base.Run.{ok, Returns, returns, Returns-bind, Returns-mono, and_then}
use hpnl.Fabric.{Answer, Call, Lib, Obj}
use hpnl.Chunk.{Mem, ChunkMgr, ChunkMgrLaws, with_mgr-self, Used}
use hpnl.Msg.Connection.{
  MsgConnection, free_ep, free_eq, bind_queues, open_queue, open_endpoint, take_chunk, note_used,
  register, register_if, post_send_chunk, post_recv, post_round, post_all, init, reclaim_all,
  close_all, destruct,
}
use hpnl.Msg.Connection.Io.{Infos, connect, accept}

module _ {G : Type 0} (lib : Lib) (mgr : ChunkMgr G) (laws : ChunkMgrLaws mgr) (i q : ℕ)
    (X : ℕ → Type 0) where
  abbrev Con : Type 0
  Con = Obj MsgConnection (Mem G)

  -- The connection is on queue `q`, which is the stack's queue number `i`, and its event queue is as
  -- `X` says.
  abbrev Sits : MsgConnection → Type 0
  Sits c = (c.cq_index ≡ i) × (c.con_cq ≡ q) × X c.con_eq

  abbrev pub On : {A : Type 0} → A → Con → Type 0
  On _ t = Sits t.self

  noted :
      (s : Con)
      → On tt s
      → (r : ℕ × Option Used) (t : Con) → t.self ≡ s.self
      → Returns On (and_then (note_used lib mgr r.1 t) (λ _ u. ok r.0 u))
  noted s h (ck, none) t e = returns (subst Sits (sym e) h)
  noted s h (ck, some u) t e = returns (subst Sits (sym e) h)

  take_chunk-On : (s : Con) → On tt s → Returns On (take_chunk lib mgr s)
  unfolding take_chunk
  take_chunk-On s h =
      Returns-bind
        (with_mgr-self (mgr.get (some s.self.used_chunks)) s
          (laws.get_returns s.self.used_chunks _))
        (noted s h)

  register-On : (ck : ℕ) (s : Con) → On tt s → Returns On (register lib mgr ck s)
  unfolding register
  register-On ck s h =
      let v = s.env.heap ck in
      let c = Call.mr_reg s.self.domain v.buffer v.capacity in
      elim (Bool-cases (failed (lib s.trace c).ret)) [
        | inl e ↦ rw e (returns h)
        | inr e ↦ rw e (returns h)
      ]

  register_if-On :
      (external : Bool) (ck : ℕ) (s : Con)
      → On tt s
      → Returns On (register_if lib mgr external ck s)
  unfolding register_if
  register_if-On true ck s h = register-On ck s h
  register_if-On false ck s h = returns h

  post_send_chunk-On : (s : Con) → On tt s → Returns On (post_send_chunk lib mgr s)
  unfolding post_send_chunk
  post_send_chunk-On s h = Returns-bind (take_chunk-On s h) λ ck t h'. elim (Bool-cases (ck == 0)) [
    | inl e ↦ rw e (returns h')
    | inr e ↦ rw e (
        Returns-bind (register-On ck t h') (λ good u h''. elim (Bool-cases good) [
          | inl g ↦ rw g (returns h'')
          | inr g ↦ rw g (returns h'')
        ]))
  ]

  post_recv-On : (ck : ℕ) (s : Con) → On tt s → Returns On (post_recv lib mgr ck s)
  unfolding post_recv
  post_recv-On ck s h = returns h

  post_round-On : (s : Con) → On tt s → Returns On (post_round lib mgr s)
  unfolding post_round
  post_round-On s h = Returns-bind (take_chunk-On s h) λ ck t ht. elim (Bool-cases (ck == 0)) [
    | inl e ↦ rw e (returns ht)
    | inr e ↦ rw e (
        Returns-bind (register_if-On s.self.external_service ck t ht) (λ good u hu.
          elim (Bool-cases good) [
            | inr g ↦ rw g (returns hu)
            | inl g ↦ rw g (
                Returns-bind (post_recv-On ck u hu) (λ r v hv. elim (Bool-cases (failed r)) [
                  | inl f ↦ rw f (returns hv)
                  | inr f ↦ rw f (elim (Bool-cases s.self.external_service) [
                    | inl x ↦ rw x (post_send_chunk-On v hv)
                    | inr x ↦ rw x (returns hv)
                  ])
                ]))
          ]))
  ]

  post_all-On : (n : ℕ) (s : Con) → On tt s → Returns On (post_all lib mgr n s)
  unfolding post_all
  post_all-On zero s h = returns h
  post_all-On (suc n) s h = Returns-bind (post_round-On s h) λ good t ht. elim (Bool-cases good) [
    | inl g ↦ rw g (post_all-On n t ht)
    | inr g ↦ rw g (returns ht)
  ]

  note_used-On :
      (s : Con)
      → On tt s
      → (u : Option Used) (t : Con) → t.self ≡ s.self
      → Returns On (note_used lib mgr u t)
  note_used-On s h none t e = returns (subst Sits (sym e) h)
  note_used-On s h (some u) t e = returns (subst Sits (sym e) h)

  pub reclaim_all-On : (cks : List ℕ) (s : Con) → On tt s → Returns On (reclaim_all lib mgr cks s)
  unfolding reclaim_all
  reclaim_all-On [] s h = returns h
  reclaim_all-On (ck ∷ cks) s h =
      Returns-bind
        (with_mgr-self (mgr.reclaim ck (some s.self.used_chunks)) s
          (laws.reclaim_returns ck s.self.used_chunks _))
        λ u t e. Returns-bind (note_used-On s h u t e) λ _ v hv. reclaim_all-On cks v hv

  module _ (infos : Infos) where
    pub connect-On : (s : Con) → On tt s → Returns On (connect lib mgr infos s)
    unfolding connect
    connect-On s h = returns h

    pub accept-On : (s : Con) → On tt s → Returns On (accept lib mgr infos s)
    unfolding accept
    accept-On s h = returns h

-- How the connection comes to its event queue, and how it ends.
module _ {G : Type 0} (lib : Lib) (mgr : ChunkMgr G) (laws : ChunkMgrLaws mgr) (i q : ℕ) where
  -- The answer of fi_eq_open in `init`.
  abbrev pub queue_answer : Obj MsgConnection (Mem G) → Answer
  queue_answer s =
      lib (Call.endpoint s.self.domain s.self.info ∷ s.trace) (Call.eq_open s.self.fabric)

  -- The connection is where it was; and if the code is 0, fi_eq_open has succeeded, and the event
  -- queue is the one that it gave.
  pub record Queued (a : Answer) (r : ℤ) (t : Obj MsgConnection (Mem G)) : Type 0 where
    pub index : t.self.cq_index ≡ i
    pub queue : t.self.con_cq ≡ q
    pub event_queue : failed r ≡ false → (failed a.ret ≡ false) × (t.self.con_eq ≡ a.out)

  free_eq-Queued :
      (a : Answer) (s : Obj MsgConnection (Mem G))
      → s.self.cq_index ≡ i
      → s.self.con_cq ≡ q
      → Returns (Queued a) (free_eq lib mgr s)
  unfolding free_eq free_ep
  free_eq-Queued a s e e' =
      returns (record { index = e; queue = e'; event_queue = λ f. absurd (ground arith) })

  bind_queues-Queued :
      (a : Answer) (s : Obj MsgConnection (Mem G))
      → s.self.cq_index ≡ i
      → s.self.con_cq ≡ q
      → failed a.ret ≡ false
      → s.self.con_eq ≡ a.out
      → Returns (Queued a) (bind_queues lib mgr s)
  unfolding bind_queues
  bind_queues-Queued a s e e' good same =
      let b = Call.ep_bind s.self.ep s.self.con_eq in
      let d = Call.ep_bind s.self.ep s.self.con_cq in
      elim (Bool-cases (failed (lib s.trace b).ret)) [
        | inl f ↦ rw f (free_eq-Queued a _ e e')
        | inr f ↦ rw f (elim (Bool-cases (failed (lib (b ∷ s.trace) d).ret)) [
          | inl f' ↦ rw f' (free_eq-Queued a _ e e')
          | inr f' ↦
              rw f' (returns (record { index = e; queue = e'; event_queue = λ _. (good, same) }))
        ])
      ]

  open_queue-Queued :
      (s : Obj MsgConnection (Mem G))
      → s.self.cq_index ≡ i
      → s.self.con_cq ≡ q
      → Returns (Queued (lib s.trace (Call.eq_open s.self.fabric))) (open_queue lib mgr s)
  unfolding open_queue
  open_queue-Queued s e e' =
      let c = Call.eq_open s.self.fabric in
      elim (Bool-cases (failed (lib s.trace c).ret)) [
        | inl f ↦ rw f (free_eq-Queued (lib s.trace c) _ e e')
        | inr f ↦ rw f (bind_queues-Queued (lib s.trace c) _ e e' f refl)
      ]

  open_endpoint-Queued :
      (s : Obj MsgConnection (Mem G))
      → s.self.cq_index ≡ i
      → s.self.con_cq ≡ q
      → Returns (Queued (queue_answer s)) (open_endpoint lib mgr s)
  unfolding open_endpoint free_ep
  open_endpoint-Queued s e e' =
      let c = Call.endpoint s.self.domain s.self.info in
      elim (Bool-cases (failed (lib s.trace c).ret)) [
        | inl f ↦
            rw f
              (returns (record { index = e; queue = e'; event_queue = λ f. absurd (ground arith) }))
        | inr f ↦ rw f (
            open_queue-Queued
              (record s { self = record s.self { ep = (lib s.trace c).out }; trace = c ∷ s.trace })
              e e')
      ]

  pub init-Queued :
      (s : Obj MsgConnection (Mem G))
      → s.self.cq_index ≡ i
      → s.self.con_cq ≡ q
      → Returns (Queued (queue_answer s)) (init lib mgr s)
  unfolding init
  init-Queued s e e' = Returns-bind (open_endpoint-Queued s e e') λ r t o.
      elim (Bool-cases (failed r)) [
        | inl f ↦ rw f (returns o)
        | inr f ↦ rw f (
            Returns-mono
              (post_all-On lib mgr laws i q
                (λ x. (failed (queue_answer s).ret ≡ false) × (x ≡ (queue_answer s).out))
                t.self.buffer_num t (o.index, o.queue, o.event_queue f))
              λ _ u h. record { index = h.0; queue = h.1; event_queue = λ _. h.2 })
      ]

  -- The destructor comes back.
  close_all-returns :
      (s : Obj MsgConnection (Mem G)) → Returns (λ _ _. Unit {0}) (close_all lib mgr s)
  unfolding close_all
  close_all-returns s = elim (Bool-cases (s.self.ep == 0)) [
    | inl e ↦ rw e (returns tt)
    | inr e ↦ rw e (returns tt)
  ]

-- What is not looked at of a connection.
abbrev Any : ℕ → Type 0
Any x = Unit {0}

module _ {G : Type 0} (lib : Lib) (mgr : ChunkMgr G) (laws : ChunkMgrLaws mgr) where
  pub destruct-returns :
      (s : Obj MsgConnection (Mem G)) → Returns (λ _ _. Unit {0}) (destruct lib mgr s)
  unfolding destruct
  destruct-returns s =
      let i = s.self.cq_index in
      let q = s.self.con_cq in
      Returns-bind
        (reclaim_all-On lib mgr laws i q Any (map (λ e. e.1) s.self.used_chunks) s (refl, refl, tt))
        λ _ t ht. elim (Bool-cases s.self.external_service) [
          | inl x ↦ rw x (
              Returns-bind (reclaim_all-On lib mgr laws i q Any s.self.send_chunks t ht)
                λ _ u hu. close_all-returns lib mgr laws i q u)
          | inr x ↦ rw x (close_all-returns lib mgr laws i q t)
        ]
