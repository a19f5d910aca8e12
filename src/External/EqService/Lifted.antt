-- ===== src/External/EqService/Lifted.antt =====
-- From the methods of the stack to those of `ExternalEqService`.
use hpnl.Base.{◌≡◌, refl, Option, some}
use hpnl.Base.Run.{M, Returns, returns, Returns-bind}
use hpnl.Fabric.{Obj}
use hpnl.External.EqService.{ExternalEqService, on_stack, on_demultiplexer, with_demultiplexer}
use hpnl.External.Events.{ExternalEqDemultiplexer}
use hpnl.External.Events
use hpnl.Msg.Stack.{MsgStack, World}

module _ {G A : Type 0} where
  -- The stack comes back in the demultiplexer, and that in the service; both are otherwise as they
  -- were.
  pub record OnStack (P : A → Obj MsgStack (World G) → Type 0) (d : ExternalEqDemultiplexer)
      (v : ExternalEqService) (a : A) (t : Obj ExternalEqService (World G)) : Type 0 where
    pub stack : MsgStack
    pub there : t.self ≡ record v { eq_demultiplexer = some (record d { stack = stack }) }
    pub inner : P a (record { self = stack; env = t.env; trace = t.trace })

  module _ (P : A → Obj MsgStack (World G) → Type 0) (m : M (Obj MsgStack (World G)) A)
      (d : ExternalEqDemultiplexer) (s : Obj ExternalEqService (World G))
      (h : Returns P (m (record { self = d.stack; env = s.env; trace = s.trace }))) where
    with_demultiplexer-OnStack :
        (o : Option ExternalEqDemultiplexer)
        → o ≡ some d
        → Returns (OnStack P d s.self) (with_demultiplexer o (Events.on_stack m) s)
    unfolding with_demultiplexer
    with_demultiplexer-OnStack o e =
        rw (e, with_demultiplexer)
          (Returns-bind
            {P = λ a t.
              (t.self ≡ record d { stack = t.self.stack })
              × P a (record { self = t.self.stack; env = t.env; trace = t.trace })}
            (Returns-bind h λ a t p. returns (refl, p))
            λ a t (same, p).
              returns (record { stack = t.self.stack; there = rw (← same) refl; inner = p }))

    pub on_stack-OnStack :
        s.self.eq_demultiplexer ≡ some d → Returns (OnStack P d s.self) (on_stack m s)
    unfolding on_stack on_demultiplexer
    on_stack-OnStack e = with_demultiplexer-OnStack s.self.eq_demultiplexer e
