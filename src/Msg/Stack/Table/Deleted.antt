-- ===== src/Msg/Stack/Table/Deleted.antt =====
-- What is left when a connection is shut down, reaped, and deleted.
use hpnl.Base.{ℕ, ◌≡◌, refl, none, some, true, ◌==◌, arith, if◌then◌else◌, ap}
use hpnl.Base.StdMap.{lookup, has, assign, erase, lookup-erase, lookup-assign}
use hpnl.Base.Run.{Returns, returns, Returns-bind}
use hpnl.Fabric.{Lib, Obj}
use hpnl.Chunk.{ChunkMgr, ChunkMgrLaws}
use hpnl.Msg.Connection.{MsgConnection}
use hpnl.Msg.Connection
use hpnl.Msg.Connection.Fixed.{destruct-returns}
use hpnl.Msg.Connection.Io.{Infos}
use hpnl.Msg.Stack.{MsgStack, World}
use hpnl.Msg.Stack.Table

module _ {G : Type 0} (lib : Lib) (mgr : ChunkMgr G) (infos : Infos) (laws : ChunkMgrLaws mgr) where
  abbrev pub Stk : Type 0
  Stk = Obj MsgStack (World G)

  -- The connection is deleted, and the others stay.
  pub delete_connection-gone :
      (p : ℕ) (c : MsgConnection) (s : Stk)
      → lookup p s.env.cons ≡ some c
      → Returns
          (λ _ t.
            (t.self ≡ s.self)
            × ((i : ℕ) → lookup i t.env.cons ≡ (if p == i then none else lookup i s.env.cons)))
          (Table.delete_connection lib mgr infos p s)
  unfolding Table.delete_connection Table.on_con
  delete_connection-gone p c s there =
      rw (Table.on_con, there)
        (Returns-bind
          (Returns-bind
            {Q = λ _ t.
              (t.self ≡ s.self) × ((u : MsgConnection) × (t.env.cons ≡ assign p u s.env.cons))}
            (destruct-returns lib mgr laws (record { self = c; env = s.env.mem; trace = s.trace }))
            λ _ t on. returns (refl, (t.self, refl)))
          λ _ t (same, (u, changed)). returns (
            same,
            λ i. ground (
              arith,
              lookup-erase p i t.env.cons,
              ap (lookup i) changed,
              lookup-assign p i u s.env.cons,
            ),
          ))

  pub shutdown-keeps :
      (p : ℕ) (c : MsgConnection) (s : Stk)
      → lookup p s.env.cons ≡ some c
      → Returns
          (λ _ t. (t.self ≡ s.self) × (t.env.cons ≡ assign p c s.env.cons))
          (Table.on_con lib mgr infos p (Connection.shutdown lib mgr) s)
  unfolding Table.on_con Connection.shutdown
  shutdown-keeps p c s there = rw (Table.on_con, there) (returns (refl, refl))

  -- The stack's table without an id that is in it.
  pub reap-erases :
      (eq : ℕ) (s : Stk)
      → has eq s.self.con_map ≡ true
      → Returns
          (λ _ t. (t.self ≡ record s.self { con_map = erase eq s.self.con_map }) × (t.env ≡ s.env))
          (Table.reap lib mgr infos eq s)
  unfolding Table.reap
  reap-erases eq s known = rw known (returns (refl, refl))
