-- ===== src/Msg/Stack/Table/Assign.antt =====
-- How connections are spread over the completion queues.
use hpnl.Base.{
  ℕ, ◌+◌, ◌%◌, ◌^◌, ◌≡◌, ◌≢◌, refl, some, Bool, true, false, not, ◌&&◌, ◌==◌, arith, Bool-cases,
  inl, inr, failed, ap, get_elem?, ℤ, ◌∷◌, ◌∙◌, sym,
}
use hpnl.Base.StdMap.{lookup, assign, insert, lookup-assign_self}
use hpnl.Base.Run.{ok, M, Returns, returns, Returns-bind, Returns-mono, Returns-run}
use hpnl.Fabric.{Answer, Call, Lib, Obj}
use hpnl.Chunk.{Mem, ChunkMgr, ChunkMgrLaws}
use hpnl.Msg.Connection.{MsgConnection, ConStatus}
use hpnl.Msg.Connection
use hpnl.Msg.Connection.Fixed.{Queued, init-Queued, destruct-returns, connect-On}
use hpnl.Msg.Connection.Io.{Infos}
use hpnl.Msg.Connection.Io
use hpnl.Msg.Stack.{MsgStack, World}
use hpnl.Msg.Stack.Table.{
  on_con, new_connection, delete_connection, enter, is_pending, start_connection,
}

module _ {G : Type 0} (lib : Lib) (mgr : ChunkMgr G) (infos : Infos) (laws : ChunkMgrLaws mgr) where
  abbrev pub Stk : Type 0
  Stk = Obj MsgStack (World G)

  -- The stack is `k`, and the connection at `p` is as `u` sees it.
  pub record Holds (k : MsgStack) (p : ℕ) (u : Obj MsgConnection (Mem G)) (t : Stk) : Type 0 where
    pub same : t.self ≡ k
    pub there : lookup p t.env.cons ≡ some u.self
    pub mem : t.env.mem ≡ u.env
    pub trace : t.trace ≡ u.trace

  -- What a method of the connection does, and where its run has ended.
  pub record Ran {A : Type 0} (k : MsgStack) (p : ℕ) (run : M (Obj MsgConnection (Mem G)) A)
      (u : Obj MsgConnection (Mem G)) (P : A → Obj MsgConnection (Mem G) → Type 0) (a : A) (t : Stk)
      : Type 0 where
    pub after : Obj MsgConnection (Mem G)
    pub ended : run u ≡ ok a after
    pub inner : P a after
    pub holds : Holds k p after t

  view-Holds :
      (k : MsgStack) (p : ℕ) (u : Obj MsgConnection (Mem G)) (t : Stk)
      → Holds k p u t
      → record { self = u.self; env = t.env.mem; trace = t.trace } ≡ u
  view-Holds k p u t h =
      ap (λ e. record { self = u.self; env = e; trace = t.trace }) h.mem
      ∙ ap (λ e. record { self = u.self; env = u.env; trace = e }) h.trace

  pub on_con-Ran :
      {A : Type 0} {P : A → Obj MsgConnection (Mem G) → Type 0} (k : MsgStack) (p : ℕ)
      (m : M (Obj MsgConnection (Mem G)) A) (u : Obj MsgConnection (Mem G)) (t : Stk)
      → Holds k p u t
      → Returns P (m u)
      → Returns (Ran k p m u P) (on_con lib mgr infos p m t)
  unfolding on_con
  on_con-Ran k p m u t h r =
      let (a, w, ended, inner) = Returns-run r in
      rw (h.there, on_con)
        (rw (view-Holds k p u t h) (
          rw ended (
            returns (record {
              after = w;
              ended = ended;
              inner = inner;
              holds = record {
                same = h.same;
                there = lookup-assign_self p w.self t.env.cons;
                mem = refl;
                trace = refl;
              };
            }))))

  -- A new connection of the stack on the queue `q`, before its `init`.
  abbrev pub begun : Stk → (info : ℕ) (server : Bool) (junk q : ℕ) → Obj MsgConnection (Mem G)
  begun s info server junk q = record {
    self =
        Connection.construct (lib s.trace Call.new).out s.self.fabric info s.self.domain q server
          s.self.buffer_num (s.self.seq_num % s.self.worker_num) s.self.external_service junk;
    env = s.env.mem;
    trace = Call.new ∷ s.trace;
  }

  -- What fi_eq_open answers in the `init` of such a connection.
  abbrev pub opened_queue : Stk → (info : ℕ) → Answer
  opened_queue s info =
      lib (Call.endpoint s.self.domain info ∷ Call.new ∷ s.trace) (Call.eq_open s.self.fabric)

  pub new_connection-Holds :
      (info : ℕ) (server : Bool) (junk q : ℕ) (s : Stk)
      → s.self.worker_num ≢ 0
      → get_elem? s.self.cqs (s.self.seq_num % s.self.worker_num) ≡ some q
      → Returns
          (λ p t. (p ≡ (lib s.trace Call.new).out) × Holds s.self p (begun s info server junk q) t)
          (new_connection lib mgr infos info server junk s)
  unfolding new_connection Connection.construct
  new_connection-Holds info server junk q s ne e =
      let some_worker : (s.self.worker_num == 0) ≡ false = ground arith in
      let out = (lib s.trace Call.new).out in
      rw (some_worker, e)
        (returns (
          refl,
          record {
            same = refl;
            there = lookup-assign_self out _ s.env.cons;
            mem = refl;
            trace = refl;
          },
        ))

  pub delete-self :
      (k : MsgStack) (p : ℕ) (u : Obj MsgConnection (Mem G)) (s : Stk)
      → Holds k p u s
      → Returns (λ _ t. t.self ≡ k) (delete_connection lib mgr infos p s)
  unfolding delete_connection
  delete-self k p u s h =
      Returns-bind
        (on_con-Ran k p (Connection.destruct lib mgr) u s h (destruct-returns lib mgr laws u))
        λ _ t w. returns w.holds.same

  -- The run of `init` of a new connection.
  abbrev pub InitEnds :
      Stk → (info : ℕ) (server : Bool) (junk q : ℕ) → ℤ → Obj MsgConnection (Mem G) → Type 0
  InitEnds s info server junk q r u = Connection.init lib mgr (begun s info server junk q) ≡ ok r u

  -- A result of the connection's `connect` that is an error.
  abbrev pub is_error : ℤ → Bool
  is_error r = failed r && not (is_pending lib mgr infos r)

  -- The connection, at the address `new` gave, is in the table, with a status, under the event queue
  -- that fi_eq_open gave in its `init`, unless there was an entry under that; it is on the completion
  -- queue whose turn it was, and the turn has moved on.
  pub record Placed (s : Stk) (info : ℕ) (status : ConStatus) (t : Stk) : Type 0 where
    pub con : MsgConnection
    pub there : lookup (lib s.trace Call.new).out t.env.cons ≡ some con
    pub opened : failed (opened_queue s info).ret ≡ false
    pub event_queue : con.con_eq ≡ (opened_queue s info).out
    pub status_set : con.status ≡ status
    pub index : con.cq_index ≡ s.self.seq_num % s.self.worker_num
    pub queue : get_elem? s.self.cqs con.cq_index ≡ some con.con_cq
    pub turn : t.self.seq_num ≡ (s.self.seq_num + 1) % 2 ^ 64
    pub table :
        t.self.con_map ≡ insert (opened_queue s info).out (lib s.trace Call.new).out s.self.con_map

  -- The outcome of opening a connection. The null pointer, with the stack as it was, just where the
  -- connection's `init`, or its `connect` after that, has failed; and the connection in the table,
  -- with the queue that fi_eq_open gave as the result, just where neither has.
  pub data Entered (s : Stk) (info junk q r : ℕ) (t : Stk) : Type 0 where
    not_opened :
        (code : ℤ) (u : Obj MsgConnection (Mem G))
        → InitEnds s info false junk q code u
        → failed code ≡ true
        → r ≡ 0
        → t.self ≡ s.self
        → Entered s info junk q r t
    not_connected :
        (code res : ℤ) (u w : Obj MsgConnection (Mem G))
        → InitEnds s info false junk q code u
        → failed code ≡ false
        → Io.connect lib mgr infos u ≡ ok res w
        → is_error res ≡ true
        → r ≡ 0
        → t.self ≡ s.self
        → Entered s info junk q r t
    entered :
        (code res : ℤ) (u w : Obj MsgConnection (Mem G))
        → InitEnds s info false junk q code u
        → failed code ≡ false
        → Io.connect lib mgr infos u ≡ ok res w
        → is_error res ≡ false
        → r ≡ (opened_queue s info).out
        → Placed s info ConStatus.connect_req t
        → Entered s info junk q r t

  module _ (s : Stk) (q : ℕ)
      (e : get_elem? s.self.cqs (s.self.seq_num % s.self.worker_num) ≡ some q) where
    abbrev turn : ℕ
    turn = s.self.seq_num % s.self.worker_num

    -- A connection whose event queue is the one that fi_eq_open gave enters the table.
    pub enter-Placed :
        (info p : ℕ) (status : ConStatus) (u : Obj MsgConnection (Mem G)) (t : Stk)
        → p ≡ (lib s.trace Call.new).out
        → Holds s.self p u t
        → u.self.cq_index ≡ turn
        → u.self.con_cq ≡ q
        → failed (opened_queue s info).ret ≡ false
        → u.self.con_eq ≡ (opened_queue s info).out
        → Returns
            (λ r t. (r ≡ (opened_queue s info).out) × Placed s info status t)
            (enter lib mgr infos p status t)
    unfolding enter
    enter-Placed info p status u t new h index queue opened eq =
        rw (h.there, enter)
          (returns (
            eq,
            record {
              con = record u.self { status = status };
              there =
                  ap (λ x. lookup x (assign p (record u.self { status = status }) t.env.cons))
                    (sym new)
                  ∙ lookup-assign_self p _ t.env.cons;
              opened = opened;
              event_queue = eq;
              status_set = refl;
              index = index;
              queue = ground (arith, e, index, queue);
              turn = ap (λ k. (k.seq_num + 1) % 2 ^ 64) h.same;
              table =
                  ap (λ k. insert u.self.con_eq p k.con_map) h.same
                  ∙ ap (λ x. insert x p s.self.con_map) eq
                  ∙ ap (λ x. insert (opened_queue s info).out x s.self.con_map) new;
            },
          ))

    pub init-Ends :
        (info : ℕ) (server : Bool) (junk : ℕ)
        → Returns
            (Queued lib mgr laws turn q (opened_queue s info))
            (Connection.init lib mgr (begun s info server junk q))
    unfolding Connection.construct
    init-Ends info server junk =
        init-Queued lib mgr laws turn q (begun s info server junk q) refl refl

    pub start_connection-Entered :
        (info junk : ℕ)
        → s.self.worker_num ≢ 0
        → Returns (Entered s info junk q) (start_connection lib mgr infos info junk s)
    unfolding start_connection
    start_connection-Entered info junk ne =
        Returns-bind (new_connection-Holds info false junk q s ne e) λ p t (new, h).
          Returns-bind
            (on_con-Ran s.self p (Connection.init lib mgr) (begun s info false junk q) t h
              (init-Ends info false junk))
            λ r t i. elim (Bool-cases (failed r)) [
              | inl f ↦ rw f (
                  Returns-bind (delete-self s.self p i.after t i.holds)
                    λ _ v same. returns (not_opened r i.after i.ended f refl same))
              | inr f ↦ rw f (
                  let o = i.inner.event_queue f in
                  Returns-bind
                    (on_con-Ran s.self p (Io.connect lib mgr infos) i.after t i.holds (
                      connect-On lib mgr laws turn q (λ x. x ≡ (opened_queue s info).out) infos
                        i.after (i.inner.index, i.inner.queue, o.1)))
                    λ res v c. elim (Bool-cases (is_error res)) [
                      | inl g ↦ rw g (
                          Returns-bind (delete-self s.self p c.after v c.holds) λ _ v same.
                            returns
                              (not_connected r res i.after c.after i.ended f c.ended g refl same))
                      | inr g ↦ rw g (
                          Returns-mono
                            (enter-Placed info p ConStatus.connect_req c.after v new c.holds
                              c.inner.0 c.inner.1 o.0 c.inner.2)
                            λ x y (eq, placed).
                              entered r res i.after c.after i.ended f c.ended g eq placed)
                    ])
            ]
