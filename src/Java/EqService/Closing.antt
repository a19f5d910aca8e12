-- ===== src/Java/EqService/Closing.antt =====
-- What EqService's `shutdown1` does, and does not do again.
use hpnl.Base.{ℕ, ◌≡◌, ◌≢◌, refl, some, none, true, false, ◌==◌, ltb, arith, ◌∷◌, ◌<◌}
use hpnl.Base.StdMap.{lookup, has, erase, assign, lookup-assign, lookup-assign_self, lookup-erase}
use hpnl.Base.Run.{ok, Returns, returns}
use hpnl.Fabric.{Call, Trace, Lib}
use hpnl.Chunk.External.{external_chunk_mgr}
use hpnl.External.EqService.{ExternalEqService}
use hpnl.External.EqService
use hpnl.External.Events.{ExternalEqDemultiplexer}
use hpnl.Java.Binding.{Binding, on_service}
use hpnl.Java.EqService.{Env, EqBinding, shutdown1, shut_con, con_at}
use hpnl.Msg.Connection.{MsgConnection, ConStatus, rank}
use hpnl.Msg.Connection
use hpnl.Msg.Connection.Io.{Infos}
use hpnl.Msg.Stack.Table

-- An object whose service is there, with its demultiplexer.
abbrev pub running :
    Binding ExternalEqService
    → ExternalEqService
    → ExternalEqDemultiplexer
    → Env
    → Trace
    → EqBinding
running b v d env trace = record {
  self = record b { native_handle = some (record v { eq_demultiplexer = some d }) };
  env = env;
  trace = trace;
}

module _ (lib : Lib) (infos : Infos) (b : Binding ExternalEqService) (v : ExternalEqService) where
  -- An id that is not in the table.
  pub shutdown1-none :
      (eq : ℕ) (d : ExternalEqDemultiplexer) (env : Env) (trace : Trace)
      → lookup eq d.stack.con_map ≡ none
      → shutdown1 lib infos eq (running b v d env trace) ≡ ok tt (running b v d env trace)
  unfolding shutdown1 on_service EqService.get_connection EqService.on_stack
      EqService.on_demultiplexer Table.get_connection
  shutdown1-none eq d env trace e = rw e refl

  -- The table without an id.
  abbrev without : ℕ → ExternalEqDemultiplexer → ExternalEqDemultiplexer
  without eq d = record d { stack = record d.stack { con_map = erase eq d.stack.con_map } }

  -- The connection at `p` has been shut down: once, and it is down and out of the table; the other
  -- connections and the other entries are as they were, and to shut it down again does nothing.
  pub record IsShut (eq p : ℕ) (c : MsgConnection) (d : ExternalEqDemultiplexer) (env : Env)
      (trace : Trace) (t : EqBinding) : Type 0 where
    pub once : t.trace ≡ Call.shutdown c.ep ∷ trace
    pub down : lookup p t.env.cons ≡ some (record c { status = ConStatus.down })
    pub others : (i : ℕ) → (p == i) ≡ false → lookup i t.env.cons ≡ lookup i env.cons
    pub bound :
        t.self
        ≡ record b { native_handle = some (record v { eq_demultiplexer = some (without eq d) }) }
    pub again : shutdown1 lib infos eq t ≡ ok tt t

  shutdown_ep :
      (p : ℕ) (c : MsgConnection) (d : ExternalEqDemultiplexer) (env : Env) (trace : Trace)
      → lookup p env.cons ≡ some c
      → on_service
          (EqService.on_stack (
            Table.on_con lib external_chunk_mgr infos p
              (Connection.shutdown lib external_chunk_mgr)))
          (running b v d env trace)
        ≡ ok
            (lib trace (Call.shutdown c.ep)).ret
            (running b v d (record env { cons = assign p c env.cons }) (Call.shutdown c.ep ∷ trace))
  unfolding on_service EqService.on_stack EqService.on_demultiplexer Table.on_con
      Connection.shutdown
  shutdown_ep p c d env trace there = rw (Table.on_con, there) refl

  reap_id :
      (eq p : ℕ) (d : ExternalEqDemultiplexer) (env : Env) (trace : Trace)
      → lookup eq d.stack.con_map ≡ some p
      → on_service (EqService.reap lib external_chunk_mgr infos eq) (running b v d env trace)
        ≡ ok tt (running b v (without eq d) env trace)
  unfolding on_service EqService.on_stack EqService.on_demultiplexer EqService.reap Table.reap has
  reap_id eq p d env trace entry = rw entry refl

  module _ (eq p : ℕ) (c : MsgConnection) (d : ExternalEqDemultiplexer) (env : Env) (trace : Trace)
      (entry : lookup eq d.stack.con_map ≡ some p) (there : lookup p env.cons ≡ some c)
      (up : rank c.status < rank ConStatus.down) where
    shut_con-IsShut :
        Returns
          (λ _ t. IsShut eq p c d env trace t)
          (shut_con lib infos eq p (running b v d env trace))
    unfolding shut_con
    shut_con-IsShut =
        let live : ltb (rank c.status) (rank ConStatus.down) ≡ true = ground arith in
        let same : lookup p (assign p c env.cons) ≡ some c = lookup-assign_self p c env.cons in
        rw (con_at, there, live)
          (rw (shutdown_ep p c d env trace there, con_at, same)
            (rw (reap_id eq p d _ _ entry) (
              returns (record {
                once = refl;
                down = lookup-assign_self p _ _;
                others = λ i ne. rw (lookup-assign, ne, lookup-assign, ne) refl;
                bound = refl;
                again = shutdown1-none eq (without eq d) _ _ (rw lookup-erase (ground arith));
              }))))

    -- A connection that is in the table under its event queue, and not down yet, is shut down once,
    -- however often it is asked for.
    pub shutdown1-IsShut :
        p ≢ 0
        → Returns
            (λ _ t. IsShut eq p c d env trace t)
            (shutdown1 lib infos eq (running b v d env trace))
    unfolding shutdown1 on_service EqService.get_connection EqService.on_stack
        EqService.on_demultiplexer Table.get_connection
    shutdown1-IsShut some_con =
        let real : (p == 0) ≡ false = ground arith in rw entry (rw real shut_con-IsShut)
