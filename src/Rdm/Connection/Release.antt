-- ===== src/Rdm/Connection/Release.antt =====
-- What an `RdmConnection` gives back, after any outcome of opening its endpoint.
use hpnl.Base.{
  ℕ, ◌≡◌, ◌≢◌, refl, List, ◌∷◌, Bool, true, false, ◌==◌, if◌then◌else◌, arith, Bool-cases, inl, inr,
  ◌⊎◌, failed, count, ◌∙◌,
}
use hpnl.Base.Run.{Returns, returns, Returns-bind, ◌>>=◌, pure}
use hpnl.Fabric.{Call, Lib, Obj}
use hpnl.Fabric.Handles.{
  Accounted, Accounted-call, Accounted-skip, Accounted-open, Accounted-fail, Accounted-perm,
  Accounted-freeinfo, closing-Accounted,
}
use hpnl.Chunk.{Mem, ChunkMgr}
use hpnl.Rdm.Connection.{RdmConnection, Names}
use hpnl.Rdm.Connection.Setup.{
  resolve, bind_endpoint, open_vector, open_endpoint, set_up, close_all,
}

-- The fi_info that the connection has to give back: a server's is the stack's.
abbrev own_info : RdmConnection → ℕ
own_info c = if c.is_server then 0 else c.info

module _ {G : Type 0} (lib : Lib) (mgr : ChunkMgr G) (names : Names) (held : List ℕ) where
  abbrev Con : Type 0
  Con = Obj RdmConnection (Mem G)

  -- The open handles are the connection's and the others.
  abbrev Holds : Con → Type 0
  Holds t = Accounted lib t.trace (t.self.ep ∷ t.self.av ∷ own_info t.self ∷ held)

  bind_endpoint-Holds :
      (s : Con) → Holds s → Returns (λ _ t. Holds t) (bind_endpoint lib mgr names s)
  unfolding bind_endpoint
  bind_endpoint-Holds s k =
      let b = Call.ep_bind s.self.ep s.self.con_cq in
      let d = Call.ep_bind s.self.ep s.self.av in
      let e = Call.enable s.self.ep in
      let k1 = Accounted-skip b refl refl k in
      let k2 = Accounted-skip d refl refl k1 in
      let k3 = Accounted-skip e refl refl k2 in
      elim (Bool-cases (failed (lib s.trace b).ret)) [
        | inl f ↦ rw f (returns k1)
        | inr f ↦ rw f (elim (Bool-cases (failed (lib (b ∷ s.trace) d).ret)) [
          | inl f ↦ rw f (returns k2)
          | inr f ↦ rw f (elim (Bool-cases (failed (lib (d ∷ b ∷ s.trace) e).ret)) [
            | inl f ↦ rw f (returns k3)
            | inr f ↦ rw f (returns (Accounted-skip (Call.getname s.self.ep) refl refl k3))
          ])
        ])
      ]

  open_vector-Holds :
      (s : Con) → s.self.av ≡ 0 → Holds s → Returns (λ _ t. Holds t) (open_vector lib mgr names s)
  unfolding open_vector
  open_vector-Holds s z k =
      let c = Call.av_open s.self.domain in
      elim (Bool-cases (failed (lib s.trace c).ret)) [
        | inl f ↦ rw f (returns (Accounted-fail c refl refl f k))
        | inr f ↦ rw f (
            bind_endpoint-Holds
              (record s { self = record s.self { av = (lib s.trace c).out }; trace = c ∷ s.trace })
              (Accounted-perm _ (λ h ne. ground (arith, z)) (Accounted-open c refl refl f k)))
      ]

  open_endpoint-Holds :
      (s : Con)
      → s.self.ep ≡ 0
      → s.self.av ≡ 0
      → Holds s
      → Returns (λ _ t. Holds t) (open_endpoint lib mgr names s)
  unfolding open_endpoint
  open_endpoint-Holds s z v k =
      let c = Call.endpoint s.self.domain s.self.info in
      elim (Bool-cases (failed (lib s.trace c).ret)) [
        | inl f ↦ rw f (returns (Accounted-fail c refl refl f k))
        | inr f ↦ rw f (
            open_vector-Holds
              (record s { self = record s.self { ep = (lib s.trace c).out }; trace = c ∷ s.trace })
              v (Accounted-perm _ (λ h ne. ground (arith, z)) (Accounted-open c refl refl f k)))
      ]

  -- The end of the destructor gives back what the connection holds.
  close_all-Accounted :
      (s : Con) → Holds s → Returns (λ _ t. Accounted lib t.trace held) (close_all lib mgr names s)
  unfolding close_all
  close_all-Accounted s k = elim (Bool-cases s.self.is_server) [
    | inl e ↦
        let all = closing-Accounted (closing-Accounted k) in
        rw e (returns (Accounted-perm held (λ h ne. ground (arith, e)) all))
    | inr e ↦
        let info_first : Accounted lib s.trace (s.self.info ∷ s.self.ep ∷ s.self.av ∷ held) =
          Accounted-perm _ (λ h ne. ground (arith, e)) k in
        rw e (returns (closing-Accounted (closing-Accounted (Accounted-freeinfo info_first))))
  ]

  resolve-Holds :
      (s : Con)
      → s.self.is_server ≡ false
      → s.self.info ≡ 0
      → (lib s.trace Call.allocinfo).out ≢ 0
      → Holds s
      → Returns
          (λ _ t. (t.self.ep ≡ s.self.ep) × (t.self.av ≡ s.self.av) × Holds t)
          (resolve lib mgr names s)
  unfolding resolve
  resolve-Holds s client z ne k =
      let h = (lib s.trace Call.allocinfo).out in
      let some_hints : (h == 0) ≡ false = ground arith in
      let no_info : (s.self.info == 0) ≡ true = ground arith in
      let c = Call.getinfo s.self.ip s.self.port 0 h in
      let out = (lib (Call.allocinfo ∷ s.trace) c).out in
      let hints = Accounted-call Call.allocinfo refl k in
      rw (some_hints, no_info)
        (elim (Bool-cases (failed (lib (Call.allocinfo ∷ s.trace) c).ret)) [
          | inl f ↦
              rw f (returns (refl, refl, Accounted-freeinfo (Accounted-fail c refl refl f hints)))
          | inr f ↦ rw f (
              returns (
                refl,
                refl,
                Accounted-perm _ (λ p ne. ground (arith, z, client))
                    (Accounted-freeinfo (
                      Accounted-perm (h ∷ out ∷ s.self.ep ∷ s.self.av ∷ own_info s.self ∷ held)
                        (λ p ne. ground arith) (Accounted-open c refl refl f hints))),
              ))
        ])

  no_info : (s : Con) → s.self.info ≡ 0 → own_info s.self ≡ 0
  no_info s i = elim (Bool-cases s.self.is_server) [ inl e ↦ rw e refl | inr e ↦ rw e i ]

  -- The two ways to come by an fi_info.
  find-Holds :
      (b : Bool) (s : Con)
      → s.self.is_server ≡ b
      → (s.self.info ≡ 0) ⊎ (b ≡ true)
      → (lib s.trace Call.allocinfo).out ≢ 0
      → Holds s
      → Returns
          (λ _ t. (t.self.ep ≡ s.self.ep) × (t.self.av ≡ s.self.av) × Holds t)
          ((if b then pure true else resolve lib mgr names) s)
  find-Holds true s e own ne k = returns (refl, refl, k)
  find-Holds false s e (inl i) ne k = resolve-Holds s e i ne k
  find-Holds false s e (inr y) ne k = absurd (ground arith)

  set_up-Holds :
      (s : Con)
      → s.self.ep ≡ 0
      → s.self.av ≡ 0
      → (s.self.info ≡ 0) ⊎ (s.self.is_server ≡ true)
      → (lib s.trace Call.allocinfo).out ≢ 0
      → Holds s
      → Returns (λ _ t. Holds t) (set_up lib mgr names s)
  unfolding set_up
  set_up-Holds s z v own ne k =
      Returns-bind (find-Holds s.self.is_server s refl own ne k) λ found t (ep, av, kt).
        elim (Bool-cases found) [
          | inl y ↦ rw y (open_endpoint-Holds t (ep ∙ z) (av ∙ v) kt)
          | inr n ↦ rw n (returns kt)
        ]

  -- A connection that is deleted after its endpoint was set up, at whichever call that failed, has
  -- given back each handle that it opened, once. It starts without an endpoint and an address
  -- vector, a client without an fi_info, and fi_allocinfo must not return the null pointer.
  pub set_up-close_all :
      (s : Con)
      → s.self.ep ≡ 0
      → s.self.av ≡ 0
      → (s.self.info ≡ 0) ⊎ (s.self.is_server ≡ true)
      → (lib s.trace Call.allocinfo).out ≢ 0
      → Accounted lib s.trace held
      → Returns
          (λ _ t. Accounted lib t.trace held)
          ((do _ ← set_up lib mgr names; close_all lib mgr names) s)
  set_up-close_all s z v own ne k =
      let none_own : own_info s.self ≡ 0 = elim own [ inl i ↦ no_info s i | inr e ↦ rw e refl ] in
      let absent : (h : ℕ)
          → h ≢ 0
          → count h held ≡ count h (s.self.ep ∷ s.self.av ∷ own_info s.self ∷ held) =
        λ h ne. ground (arith, z, v, none_own) in
      let start : Holds s = Accounted-perm _ (λ h ne. absent h ne) k in
      Returns-bind (set_up-Holds s z v own ne start) λ _ t kt. close_all-Accounted t kt
