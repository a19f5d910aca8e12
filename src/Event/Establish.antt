-- ===== src/Event/Establish.antt =====
-- What becomes of a connection when it is established.
use hpnl.Base.{
  ℕ, ◌≡◌, ◌≢◌, refl, some, false, ◌==◌, if◌then◌else◌, arith, Bool-cases, inl, inr, success, ◌∙◌,
  ap,
}
use hpnl.Base.StdMap.{lookup, assign, lookup-assign, lookup-assign_self}
use hpnl.Base.Run.{ok, fault, Returns, returns, Returns-bind}
use hpnl.Fabric.{Lib, Obj}
use hpnl.Chunk.{ChunkMgr}
use hpnl.Msg.Connection.{MsgConnection, ConStatus}
use hpnl.Msg.Connection.Io.{Infos, init_addr}
use hpnl.Msg.Stack.{MsgStack, World}
use hpnl.Msg.Stack.Table.{get_connection, on_con}
use hpnl.Event.Proactor.{EqHandler, Reactor}
use hpnl.Event.Handler.{on_connected, notify, equip}
use hpnl.Event.Lifecycle.{IsOpen, change_con-some}

-- The connection at `p`, which was `c`, is connected, on the queues that it was on, and has the
-- handler's callbacks where the handler has any.
pub record Connected {G : Type 0} (h : EqHandler) (p : ℕ) (c : MsgConnection)
    (t : Obj Reactor (World G)) : Type 0 where
  pub con : MsgConnection
  pub there : lookup p t.env.cons ≡ some con
  pub status : con.status ≡ ConStatus.connected
  pub queues : (con.con_eq ≡ c.con_eq) × (con.con_cq ≡ c.con_cq)
  pub recv : con.recv_callback ≡ (if h.recv_callback == 0 then c.recv_callback else h.recv_callback)
  pub send : con.send_callback ≡ (if h.send_callback == 0 then c.send_callback else h.send_callback)
  pub read : con.read_callback ≡ (if h.read_callback == 0 then c.read_callback else h.read_callback)
  pub write :
      con.write_callback ≡ (if h.write_callback == 0 then c.write_callback else h.write_callback)
  pub shutdown :
      con.shutdown_callback
      ≡ (if h.shutdown_callback == 0 then c.shutdown_callback else h.shutdown_callback)

module _ {G : Type 0} (lib : Lib) (mgr : ChunkMgr G) (infos : Infos) where
  -- The callback of a connected connection changes nothing in the tables.
  notify-keeps :
      (callback p : ℕ) (s : Obj Reactor (World G))
      → Returns (λ _ t. (t.self ≡ s.self) × (t.env ≡ s.env)) (notify lib mgr infos callback p s)
  unfolding notify
  notify-keeps callback p s = elim (Bool-cases (callback == 0)) [
    | inl z ↦ rw z (returns (refl, refl))
    | inr z ↦ rw z (returns (refl, refl))
  ]

  module _ (p : ℕ) (c : MsgConnection) (s : Obj MsgStack (World G))
      (there : lookup p s.env.cons ≡ some c) where
    pub init_addr-some :
        infos.dest_addr c.info ≢ 0
        → infos.src_addr c.info ≢ 0
        → on_con lib mgr infos p (init_addr lib mgr infos) s
          ≡ ok tt (record s { env = record s.env { cons = assign p c s.env.cons } })
    unfolding on_con init_addr
    init_addr-some d a =
        let d' : (infos.dest_addr c.info == 0) ≡ false = ground arith in
        let a' : (infos.src_addr c.info == 0) ≡ false = ground arith in
        rw (there, on_con) (rw (d', a'))

    init_addr_fault :
        infos.dest_addr c.info ≡ 0 → on_con lib mgr infos p (init_addr lib mgr infos) s ≡ fault
    unfolding on_con init_addr
    init_addr_fault d = rw (there, on_con) (rw d)

  module _ (h : EqHandler) (p : ℕ) (c : MsgConnection) (s : Obj Reactor (World G))
      (o : IsOpen h p c s) where
    -- The stack once the connection has its callbacks.
    abbrev equipped : Obj MsgStack (World G)
    equipped = record {
      self = s.self.stack;
      env = record s.env { cons = assign p (equip h c) s.env.cons };
      trace = s.trace;
    }

    -- When a connection in the tables is established, it is connected and has the handler's
    -- callbacks where the handler has any; the tables and the other connections stay. Both
    -- addresses of its fi_info have to be there.
    pub on_connected-Connected :
        infos.dest_addr c.info ≢ 0
        → infos.src_addr c.info ≢ 0
        → Returns
            (λ r t.
              (r ≡ success)
              × (t.self ≡ s.self)
              × Connected h p c t
              × ((q : ℕ) → q ≢ p → lookup q t.env.cons ≡ lookup q s.env.cons))
            (on_connected lib mgr infos h s)
    unfolding on_connected get_connection equip
    on_connected-Connected d a =
        let ne = o.some_con in
        let d' : infos.dest_addr (equip h c).info ≢ 0 = d in
        let a' : infos.src_addr (equip h c).info ≢ 0 = a in
        let some_con : (p == 0) ≡ false = ground arith in
        rw (o.known, some_con)
          (rw (change_con-some lib mgr infos p (equip h) c s o.there) (
            rw
              (init_addr-some p (equip h c) equipped (lookup-assign_self p (equip h c) s.env.cons)
                d' a')
              (Returns-bind (notify-keeps h.connected_callback p _) λ _ t (e, e'). returns (
                refl,
                e,
                record {
                  con = equip h c;
                  there =
                      ap (λ w. lookup p w.cons) e'
                      ∙ lookup-assign_self p (equip h c) (assign p (equip h c) s.env.cons);
                  status = refl;
                  queues = (refl, refl);
                  recv = refl;
                  send = refl;
                  read = refl;
                  write = refl;
                  shutdown = refl;
                },
                λ q ne. ground (
                  arith,
                  ap (λ w. lookup q w.cons) e',
                  lookup-assign p q (equip h c) (assign p (equip h c) s.env.cons),
                  lookup-assign p q (equip h c) s.env.cons,
                ),
              ))))

    -- For a connection in the tables, a destination address that is missing is read through the
    -- null pointer: the test of `init_addr` is the wrong way round.
    pub on_connected_fault : infos.dest_addr c.info ≡ 0 → on_connected lib mgr infos h s ≡ fault
    unfolding on_connected get_connection equip
    on_connected_fault d =
        let ne = o.some_con in
        let some_con : (p == 0) ≡ false = ground arith in
        rw (o.known, some_con)
          (rw (change_con-some lib mgr infos p (equip h) c s o.there) (
            rw (
              init_addr_fault p (equip h c) equipped (lookup-assign_self p (equip h c) s.env.cons)
                d)))
