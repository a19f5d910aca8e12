-- ===== src/Msg/Connection/Open.antt =====
-- Which handles a connection holds after it was opened, and after it failed to open.
use hpnl.Base.{
  ℕ, ◌≡◌, refl, List, ◌∷◌, ◌==◌, Bool-cases, inl, inr, ◌⊎◌, ℤ, failed, success, minus_one,
}
use hpnl.Base.Run.{Returns, returns}
use hpnl.Fabric.{Call, Lib, Obj}
use hpnl.Fabric.Handles.{
  Accounted, Accounted-skip, Accounted-open, Accounted-fail, freeing-Accounted, Accounted-null,
  closing-Accounted,
}
use hpnl.Chunk.{Mem, ChunkMgr}
use hpnl.Msg.Connection.{
  MsgConnection, free_ep, free_eq, bind_queues, open_queue, open_endpoint, close_all,
}

module _ {G : Type 0} (lib : Lib) (mgr : ChunkMgr G) (held : List ℕ) where
  abbrev Con : Type 0
  Con = Obj MsgConnection (Mem G)

  -- -1 with both handles given back, or 0 with both held.
  abbrev pub Opened : ℤ → Con → Type 0
  Opened r t =
      ((r ≡ minus_one) × (t.self.ep ≡ 0) × (t.self.con_eq ≡ 0) × Accounted lib t.trace held)
      ⊎ ((r ≡ success) × Accounted lib t.trace (t.self.con_eq ∷ t.self.ep ∷ held))

  free_ep-Opened :
      (s : Con)
      → s.self.con_eq ≡ 0
      → Accounted lib s.trace (s.self.ep ∷ held)
      → Returns Opened (free_ep lib mgr s)
  unfolding free_ep
  free_ep-Opened s e k = returns (inl (refl, refl, e, closing-Accounted k))

  free_eq-Opened :
      (s : Con)
      → Accounted lib s.trace (s.self.con_eq ∷ s.self.ep ∷ held)
      → Returns Opened (free_eq lib mgr s)
  unfolding free_eq
  free_eq-Opened s k = free_ep-Opened _ refl (closing-Accounted k)

  bind_queues-Opened :
      (s : Con)
      → Accounted lib s.trace (s.self.con_eq ∷ s.self.ep ∷ held)
      → Returns Opened (bind_queues lib mgr s)
  unfolding bind_queues
  bind_queues-Opened s k =
      let b = Call.ep_bind s.self.ep s.self.con_eq in
      let d = Call.ep_bind s.self.ep s.self.con_cq in
      let first = Accounted-skip b refl refl k in
      let second = Accounted-skip d refl refl first in
      elim (Bool-cases (failed (lib s.trace b).ret)) [
        | inl e ↦ rw e (free_eq-Opened _ first)
        | inr e ↦ rw e (elim (Bool-cases (failed (lib (b ∷ s.trace) d).ret)) [
          | inl e' ↦ rw e' (free_eq-Opened _ second)
          | inr e' ↦
              rw e' (returns (inr (refl, Accounted-skip (Call.enable s.self.ep) refl refl second)))
        ])
      ]

  open_queue-Opened :
      (s : Con)
      → s.self.con_eq ≡ 0
      → Accounted lib s.trace (s.self.ep ∷ held)
      → Returns Opened (open_queue lib mgr s)
  unfolding open_queue
  open_queue-Opened s z k =
      let q = Call.eq_open s.self.fabric in
      elim (Bool-cases (failed (lib s.trace q).ret)) [
        | inl e ↦ rw e (free_eq-Opened _ (Accounted-null z (Accounted-fail q refl refl e k)))
        | inr e ↦ rw e (bind_queues-Opened _ (Accounted-open q refl refl e k))
      ]

  -- From a connection without an endpoint and an event queue, `init` either binds the endpoint and
  -- holds it and its event queue, or returns -1 and has given back what it had opened, at whichever
  -- call it fails.
  pub open_endpoint-Opened :
      (s : Con)
      → s.self.ep ≡ 0
      → s.self.con_eq ≡ 0
      → Accounted lib s.trace held
      → Returns Opened (open_endpoint lib mgr s)
  unfolding open_endpoint
  open_endpoint-Opened s z z' k =
      let c = Call.endpoint s.self.domain s.self.info in
      elim (Bool-cases (failed (lib s.trace c).ret)) [
        | inl e ↦ rw e (free_ep-Opened _ z' (Accounted-null z (Accounted-fail c refl refl e k)))
        | inr e ↦ rw e (open_queue-Opened _ z' (Accounted-open c refl refl e k))
      ]

  -- The destructor of a connection that holds its endpoint, its event queue and its info gives them
  -- back, once each, and nothing else.
  pub close_all-Accounted :
      (s : Con)
      → Accounted lib s.trace (s.self.ep ∷ s.self.con_eq ∷ s.self.info ∷ held)
      → Returns
          (λ _ t.
            (t.self.ep ≡ 0) × (t.self.con_eq ≡ 0) × (t.self.info ≡ 0) × Accounted lib t.trace held)
          (close_all lib mgr s)
  unfolding close_all
  close_all-Accounted s k = elim (Bool-cases (s.self.ep == 0)) [
    | inl e ↦
        rw e
          (returns (refl, refl, refl, freeing-Accounted (closing-Accounted (closing-Accounted k))))
    | inr e ↦
        let shut = Accounted-skip (Call.shutdown s.self.ep) refl refl k in
        rw e (
          returns
            (refl, refl, refl, freeing-Accounted (closing-Accounted (closing-Accounted shut))))
  ]
