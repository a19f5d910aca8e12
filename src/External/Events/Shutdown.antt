-- ===== src/External/Events/Shutdown.antt =====
-- What the end of a connection leaves, where the Java binding drives the queue of events.
use hpnl.Base.{
  ℕ, ◌≡◌, ◌≢◌, refl, none, some, ◌==◌, if◌then◌else◌, arith, Bool-cases, inl, inr, failed, false,
  ◌∷◌, ◌∙◌, ap, is_some,
}
use hpnl.Base.StdMap.{StdMap, lookup, has, erase, lookup-assign, lookup-erase, has-lookup}
use hpnl.Base.Run.{Returns, returns, Returns-bind}
use hpnl.Fabric.{Call, Lib, Obj}
use hpnl.Chunk.{ChunkMgr}
use hpnl.Msg.Connection.{MsgConnection, ConStatus}
use hpnl.Msg.Connection.Io.{Infos}
use hpnl.Msg.Stack.{World}
use hpnl.Msg.Stack.Table.{get_connection, reap}
use hpnl.Event.Codes.{EventType, value}
use hpnl.Event.Proactor.{is_negative}
use hpnl.External.Events.{
  ExternalEqDemultiplexer, Report, change_event, delete_event, down_con, on_shutdown,
}

module _ {G : Type 0} (lib : Lib) where
  -- The stack and the connections are as they were.
  abbrev Kept : (s t : Obj ExternalEqDemultiplexer (World G)) → Type 0
  Kept s t = (t.self.stack ≡ s.self.stack) × (t.env ≡ s.env)

  change_event-Kept :
      (eq : ℕ) (change : ℕ → Call) (after : StdMap ℕ → StdMap ℕ)
      (s : Obj ExternalEqDemultiplexer (World G))
      → eq ≢ 0
      → Returns (λ _ t. Kept s t) (change_event lib eq change after s)
  unfolding change_event
  change_event-Kept eq change after s ne =
      let some_eq : (eq == 0) ≡ false = ground arith in
      let c = Call.control eq in
      let d = change (lib s.trace c).out in
      rw some_eq (elim (Bool-cases (failed (lib s.trace c).ret)) [
        | inl f ↦ rw f (returns (refl, refl))
        | inr f ↦ rw f (elim (Bool-cases (is_negative (lib (c ∷ s.trace) d).ret)) [
          | inl g ↦ rw g (returns (refl, refl))
          | inr g ↦ rw g (returns (refl, refl))
        ])
      ])

  delete_event-Kept :
      (eq : ℕ) (s : Obj ExternalEqDemultiplexer (World G))
      → eq ≢ 0
      → Returns (λ _ t. Kept s t) (delete_event lib eq s)
  unfolding delete_event
  delete_event-Kept eq s ne = elim (Bool-cases (has eq s.self.fid_map)) [
    | inl h ↦ rw h (change_event-Kept eq (λ fd. Call.epoll_del fd eq) (erase eq) s ne)
    | inr h ↦ rw h (returns (refl, refl))
  ]

module _ {G : Type 0} (lib : Lib) (mgr : ChunkMgr G) (infos : Infos) where
  -- The report names the connection `c` at `p`, which is down; its queue is in the stack's table no
  -- more, and the other connections stay.
  pub record IsReaped (p : ℕ) (c : MsgConnection) (old r : Report)
      (s t : Obj ExternalEqDemultiplexer (World G)) : Type 0 where
    pub report : r ≡ record old { code = value EventType.shutdown; con = p }
    pub connections :
        (i : ℕ)
        → lookup i t.self.stack.con_map
          ≡ (if old.eq == i then none else lookup i s.self.stack.con_map)
    pub objects :
        (q : ℕ)
        → lookup q t.env.cons
          ≡ (if p == q then some (record c { status = ConStatus.down }) else lookup q s.env.cons)

  -- At the end of a connection that stands in the stack's table under its queue, the connection is
  -- reported, is down, and has left the table, whether or not epoll lets the queue go; the others
  -- stay.
  pub on_shutdown-IsReaped :
      (p : ℕ) (c : MsgConnection) (old : Report) (s : Obj ExternalEqDemultiplexer (World G))
      → old.eq ≢ 0
      → p ≢ 0
      → lookup old.eq s.self.stack.con_map ≡ some p
      → lookup p s.env.cons ≡ some c
      → Returns (λ r t. IsReaped p c old r s t) (on_shutdown lib mgr infos old s)
  unfolding on_shutdown get_connection down_con reap
  on_shutdown-IsReaped p c old s some_eq some_con known there =
      let real : (p == 0) ≡ false = ground arith in
      let gone : MsgConnection = record c { status = ConStatus.down } in
      Returns-bind (delete_event-Kept lib old.eq s some_eq) λ _ t (stack, env).
        let known' = ap (λ k. lookup old.eq k.con_map) stack ∙ known in
        let there' = ap (λ w. lookup p w.cons) env ∙ there in
        let has' = has-lookup old.eq t.self.stack.con_map ∙ ap is_some known' in
        rw (known', real)
          (rw (there', down_con)
            (rw has' (
              returns (record {
                report = refl;
                connections = λ i. ground (
                  arith,
                  lookup-erase old.eq i t.self.stack.con_map,
                  ap (λ k. lookup i k.con_map) stack,
                );
                objects = λ q.
                    ground
                      (arith, lookup-assign p q gone t.env.cons, ap (λ w. lookup q w.cons) env);
              }))))
