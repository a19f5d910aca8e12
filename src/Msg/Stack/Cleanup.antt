-- ===== src/Msg/Stack/Cleanup.antt =====
-- What the labels at the end of `MsgStack::init` give back.
use hpnl.Base.{ℕ, ◌≡◌, refl, List, [], ◌∷◌, ◌++◌, true, false, inr, ◌⊎◌, ℤ, success, minus_one}
use hpnl.Base.Run.{Returns, returns}
use hpnl.Fabric.{Lib, Obj, closing, freeing}
use hpnl.Fabric.Handles.{Accounted, closing-Accounted, freeing-Accounted}
use hpnl.Chunk.{ChunkMgr}
use hpnl.Msg.Stack.{
  MsgStack, World, free_hints, free_info, free_fabric, free_eq, free_domain, close_cqs,
}

-- The handles in the fields that `init` sets.
abbrev pub handles : MsgStack → List ℕ
handles k = k.domain ∷ k.peq ∷ k.fabric ∷ k.info ∷ k.hints ∷ k.cqs

module _ {G : Type 0} (lib : Lib) (mgr : ChunkMgr G) where
  abbrev pub Stk : Type 0
  Stk = Obj MsgStack (World G)

  -- 0 with every handle in its field, or -1 with every handle given back.
  abbrev pub SetUp : ℤ → Stk → Type 0
  SetUp r t =
      ((r ≡ success) × (t.self.initialized ≡ true) × Accounted lib t.trace (handles t.self))
      ⊎ ((r ≡ minus_one) × (t.self.initialized ≡ false) × Accounted lib t.trace [])

  pub free_hints-SetUp :
      (s : Stk) → Accounted lib s.trace (s.self.hints ∷ []) → Returns SetUp (free_hints lib mgr s)
  unfolding free_hints
  free_hints-SetUp s k = returns (inr (refl, refl, freeing-Accounted k))

  pub free_info-SetUp :
      (s : Stk)
      → Accounted lib s.trace (s.self.info ∷ s.self.hints ∷ [])
      → Returns SetUp (free_info lib mgr s)
  unfolding free_info
  free_info-SetUp s k =
      free_hints-SetUp
        (record s { self = record s.self { info = 0 }; trace = freeing s.self.info s.trace })
        (freeing-Accounted k)

  pub free_fabric-SetUp :
      (s : Stk)
      → Accounted lib s.trace (s.self.fabric ∷ s.self.info ∷ s.self.hints ∷ [])
      → Returns SetUp (free_fabric lib mgr s)
  unfolding free_fabric
  free_fabric-SetUp s k =
      free_info-SetUp
        (record s { self = record s.self { fabric = 0 }; trace = closing s.self.fabric s.trace })
        (closing-Accounted k)

  pub free_eq-SetUp :
      (s : Stk)
      → Accounted lib s.trace (s.self.peq ∷ s.self.fabric ∷ s.self.info ∷ s.self.hints ∷ [])
      → Returns SetUp (free_eq lib mgr s)
  unfolding free_eq
  free_eq-SetUp s k =
      free_fabric-SetUp
        (record s { self = record s.self { peq = 0 }; trace = closing s.self.peq s.trace })
        (closing-Accounted k)

  -- The handles but for the queues.
  abbrev pub single : MsgStack → List ℕ
  single k = k.domain ∷ k.peq ∷ k.fabric ∷ k.info ∷ k.hints ∷ []

  pub free_domain-SetUp :
      (s : Stk) → Accounted lib s.trace (single s.self) → Returns SetUp (free_domain lib mgr s)
  unfolding free_domain
  free_domain-SetUp s k =
      free_eq-SetUp
        (record s { self = record s.self { domain = 0 }; trace = closing s.self.domain s.trace })
        (closing-Accounted k)

  pub close_cqs-Accounted :
      (qs : List ℕ) (held : List ℕ) (s : Stk)
      → Accounted lib s.trace (qs ++ held)
      → Returns (λ _ t. (t.self ≡ s.self) × Accounted lib t.trace held) (close_cqs lib mgr qs s)
  unfolding close_cqs
  close_cqs-Accounted [] held s k = returns (refl, k)
  close_cqs-Accounted (q ∷ qs) held s k = close_cqs-Accounted qs held _ (closing-Accounted k)
