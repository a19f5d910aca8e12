-- ===== src/Service/Session/Ending.antt =====
-- A connection that is established and then closed by the peer.
use hpnl.Base.{ℕ, ℤ, ◌≡◌, ◌≢◌, some, false, arith, success, ap, ◌∙◌}
use hpnl.Base.StdMap.{StdMap, lookup, has, has-lookup}
use hpnl.Base.Run.{ok, pure, Returns, returns, Returns-run, Returns-bind, Returns-mono, ◌>>=◌}
use hpnl.Fabric.{Lib}
use hpnl.Chunk.{ChunkMgr}
use hpnl.Msg.Connection.{MsgConnection, ConStatus}
use hpnl.Msg.Connection.Io.{Infos}
use hpnl.Msg.Stack.{MsgStack}
use hpnl.Event.Proactor.{EqHandler}
use hpnl.Event.Handler.{on_connected, on_close}
use hpnl.Event.Lifecycle.{on_close-IsClosed}
use hpnl.Event.Establish.{Connected, on_connected-Connected}
use hpnl.Service.{EqDemultiplexer, ServiceM, on_reactor}
use hpnl.Service.Session.{Serv, IsUp, InSession, view, on_reactor-IsUp}

module _ {G : Type 0} (lib : Lib) (mgr : ChunkMgr G) (infos : Infos) where
  -- The events of a connection's life, as its handler gets them, and what they return.
  unfoldable pub live : EqHandler → ServiceM G (ℤ × ℤ)
  unfolding on_reactor
  live h = do
    connected ← on_reactor (on_connected lib mgr infos h)
    closed ← on_reactor (on_close lib mgr infos h)
    pure (connected, closed)

  -- The queue is in neither table, and the connection `c` is down, and else as it was.
  pub record IsOver (h : EqHandler) (p : ℕ) (c : MsgConnection) (t : Serv G) : Type 0 where
    pub k : MsgStack
    pub d : EqDemultiplexer
    pub handlers : StdMap EqHandler
    pub up : IsUp k d handlers t
    pub no_handler : has h.eq handlers ≡ false
    pub no_entry : has h.eq k.con_map ≡ false
    pub there : lookup p t.env.cons ≡ some (record c { status = ConStatus.down })

  -- Both handlers succeed. The first leaves the connection connected, with the handler's callbacks,
  -- in the service `mid`, and the second ends that connection.
  pub record HasLived (h : EqHandler) (p : ℕ) (c : MsgConnection) (s : Serv G) (r : ℤ × ℤ)
      (t : Serv G) : Type 0 where
    pub connected_result : r.0 ≡ success
    pub close_result : r.1 ≡ success
    pub mid : Serv G
    pub connects : on_reactor (on_connected lib mgr infos h) s ≡ ok success mid
    pub k : MsgStack
    pub d : EqDemultiplexer
    pub handlers : StdMap EqHandler
    pub up : IsUp k d handlers mid
    pub established : Connected h p c (view k d handlers mid)
    pub over : IsOver h p established.con t

  close-IsOver :
      (h : EqHandler) (p : ℕ) (c : MsgConnection) (s : Serv G)
      → InSession h p c s
      → Returns (λ r t. (r ≡ success) × IsOver h p c t) (on_reactor (on_close lib mgr infos h) s)
  close-IsOver h p c s i =
      Returns-mono
        (on_reactor-IsUp i.k i.d i.handlers (on_close lib mgr infos h) s i.up
          (on_close-IsClosed lib mgr infos h p c (view i.k i.d i.handlers s) i.opened))
        λ r t (k, d, handlers, up, (e, closed)). (
          e,
          record {
            k = k;
            d = d;
            handlers = handlers;
            up = up;
            no_handler = ground (arith, has-lookup h.eq handlers, closed.handlers h.eq);
            no_entry = ground (arith, has-lookup h.eq k.con_map, closed.connections h.eq);
            there = ground (arith, closed.objects p);
          },
        )

  -- A connection that is open in its service, and whose fi_info has both addresses, lives its life:
  -- when it is established and then closed by the peer, both handlers succeed. After the first it is
  -- connected, on the queues that it was on, and has the handler's callbacks where the handler has
  -- any; in the end it is down, and else as the first left it, and its event queue is in the stack's
  -- and in the proactor's table no more.
  pub live-IsOver :
      (h : EqHandler) (p : ℕ) (c : MsgConnection) (s : Serv G)
      → InSession h p c s
      → infos.dest_addr c.info ≢ 0
      → infos.src_addr c.info ≢ 0
      → Returns (HasLived h p c s) (live h s)
  unfolding live
  live-IsOver h p c s i dest src =
      let o = i.opened in
      let (r, mid, runs, (k, d, handlers, up, (e, same, connected, _))) = Returns-run (
        on_reactor-IsUp i.k i.d i.handlers (on_connected lib mgr infos h) s i.up
          (on_connected-Connected lib mgr infos h p c (view i.k i.d i.handlers s) o dest src)) in
      rw runs (
        Returns-bind
          (close-IsOver h p connected.con mid (record {
            k = k;
            d = d;
            handlers = handlers;
            up = up;
            opened = record {
              some_eq = o.some_eq;
              some_con = o.some_con;
              handled = ap (λ r. has h.eq r.event_map) same ∙ o.handled;
              known = ap (λ r. lookup h.eq r.stack.con_map) same ∙ o.known;
              there = connected.there;
            };
          }))
          λ _ t (e', over). returns (record {
            connected_result = e;
            close_result = e';
            mid = mid;
            connects = runs ∙ ap (λ x. ok x mid) e;
            k = k;
            d = d;
            handlers = handlers;
            up = up;
            established = connected;
            over = over;
          }))
