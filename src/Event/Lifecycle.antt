-- ===== src/Event/Lifecycle.antt =====
-- What an event does to the connection that it is for.
use hpnl.Base.{
  ℕ, ◌≡◌, ◌≢◌, refl, none, some, true, false, ◌==◌, if◌then◌else◌, arith, Bool-cases, inl, inr,
  success, ◌∙◌, ap, subst, sym, is_some,
}
use hpnl.Base.StdMap.{
  lookup, has, assign, lookup-assign, lookup-assign_self, lookup-erase, has-lookup,
}
use hpnl.Base.Run.{ok, Returns, returns, Returns-bind}
use hpnl.Fabric.{Lib, Obj}
use hpnl.Chunk.{ChunkMgr}
use hpnl.Msg.Connection.{MsgConnection, ConStatus}
use hpnl.Msg.Connection.Io.{Infos}
use hpnl.Msg.Stack.{World}
use hpnl.Msg.Stack.Table.{get_connection, reap}
use hpnl.Event.Proactor.{EqHandler, Reactor}
use hpnl.Event.Proactor.Table.{remove_handler-lookup}
use hpnl.Event.Handler.{on_close, shut_con, drop_con, change_con, con_at, notify}

-- The handler's event queue is in both tables: of handlers, and of connections, where it stands for
-- the connection `c` at `p`.
pub record IsOpen {G : Type 0} (h : EqHandler) (p : ℕ) (c : MsgConnection)
    (s : Obj Reactor (World G)) : Type 0 where
  pub some_eq : h.eq ≢ 0
  pub some_con : p ≢ 0
  pub handled : has h.eq s.self.event_map ≡ true
  pub known : lookup h.eq s.self.stack.con_map ≡ some p
  pub there : lookup p s.env.cons ≡ some c

-- The event queue is in neither table, the connection is down, and the other entries stay.
pub record IsClosed {G : Type 0} (h : EqHandler) (p : ℕ) (c : MsgConnection)
    (s t : Obj Reactor (World G)) : Type 0 where
  pub handlers :
      (i : ℕ) → lookup i t.self.event_map ≡ (if h.eq == i then none else lookup i s.self.event_map)
  pub connections :
      (i : ℕ)
      → lookup i t.self.stack.con_map ≡ (if h.eq == i then none else lookup i s.self.stack.con_map)
  pub objects :
      (q : ℕ)
      → lookup q t.env.cons
        ≡ (if p == q then some (record c { status = ConStatus.down }) else lookup q s.env.cons)

module _ {G : Type 0} (lib : Lib) (mgr : ChunkMgr G) (infos : Infos) where
  pub change_con-some :
      (p : ℕ) (f : MsgConnection → MsgConnection) (c : MsgConnection) (s : Obj Reactor (World G))
      → lookup p s.env.cons ≡ some c
      → change_con lib mgr infos p f s
        ≡ ok tt (record s { env = record s.env { cons = assign p (f c) s.env.cons } })
  unfolding change_con
  change_con-some p f c s e = rw (e, change_con)

  con_at-some :
      (p : ℕ) (c : MsgConnection) (s : Obj Reactor (World G))
      → lookup p s.env.cons ≡ some c
      → con_at lib mgr infos p s ≡ ok c s
  unfolding con_at
  con_at-some p c s e = rw (e, con_at)

  shut_con-cons :
      (p : ℕ) (c : MsgConnection) (s : Obj Reactor (World G))
      → lookup p s.env.cons ≡ some c
      → Returns
          (λ _ t.
            (t.self ≡ s.self)
            × (t.env.cons ≡ assign p (record c { status = ConStatus.shutdown_req }) s.env.cons))
          (shut_con lib mgr infos p s)
  unfolding shut_con notify
  shut_con-cons p c s e =
      let shut : MsgConnection = record c { status = ConStatus.shutdown_req } in
      let t : Obj Reactor (World G) = record s {
        env = record s.env { cons = assign p shut s.env.cons };
      } in
      rw (change_con-some p (λ c. record c { status = ConStatus.shutdown_req }) c s e) (
        rw (con_at-some p shut t (lookup-assign_self p shut s.env.cons))
          (elim (Bool-cases (c.shutdown_callback == 0)) [
            | inl z ↦ rw z (returns (refl, refl))
            | inr z ↦ rw z (returns (refl, refl))
          ]))

  drop_con-IsClosed :
      (h : EqHandler) (p : ℕ) (c : MsgConnection) (s t : Obj Reactor (World G))
      → IsOpen h p c s
      → t.self ≡ s.self
      → t.env.cons ≡ assign p (record c { status = ConStatus.shutdown_req }) s.env.cons
      → Returns (λ r u. (r ≡ success) × IsClosed h p c s u) (drop_con lib mgr infos h.eq p t)
  unfolding drop_con reap
  drop_con-IsClosed h p c s t o e e' =
      let shut : MsgConnection = record c { status = ConStatus.shutdown_req } in
      let gone : MsgConnection = record c { status = ConStatus.down } in
      let handled = subst (λ r. has h.eq r.event_map ≡ true) (sym e) o.handled in
      Returns-bind (remove_handler-lookup lib h.eq t o.some_eq handled) λ _ u (w, l).
        let there =
          ap (λ w. lookup p w.cons) w.env
          ∙ ap (lookup p) e'
          ∙ lookup-assign_self p shut s.env.cons in
        let stack = w.stack ∙ ap (λ r. r.stack) e in
        let known =
          has-lookup h.eq u.self.stack.con_map
          ∙ ap (λ k. is_some (lookup h.eq k.con_map)) stack
          ∙ ap is_some o.known in
        rw (change_con-some p (λ c. record c { status = ConStatus.down }) shut u there, known)
          (returns (
            refl,
            record {
              handlers = λ i. ground (arith, l i, ap (λ r. lookup i r.event_map) e);
              connections = λ i. ground (
                arith,
                lookup-erase h.eq i u.self.stack.con_map,
                ap (λ k. lookup i k.con_map) stack,
              );
              objects = λ q. ground (
                arith,
                lookup-assign p q gone u.env.cons,
                ap (λ w. lookup q w.cons) w.env,
                ap (lookup q) e',
                lookup-assign p q shut s.env.cons,
              );
            },
          ))

  -- When the peer closes a connection that is in both tables, under a handler that is in the table,
  -- the handler and the entry go and the connection is down; the others stay.
  pub on_close-IsClosed :
      (h : EqHandler) (p : ℕ) (c : MsgConnection) (s : Obj Reactor (World G))
      → IsOpen h p c s
      → Returns (λ r t. (r ≡ success) × IsClosed h p c s t) (on_close lib mgr infos h s)
  unfolding on_close get_connection
  on_close-IsClosed h p c s o =
      let ne = o.some_con in
      let some_con : (p == 0) ≡ false = ground arith in
      rw (o.known, some_con)
        (Returns-bind (shut_con-cons p c _ o.there)
          λ _ t (e, e'). drop_con-IsClosed h p c s t o e e')
