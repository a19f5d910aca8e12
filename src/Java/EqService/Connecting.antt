-- ===== src/Java/EqService/Connecting.antt =====
-- What EqService's `native_connect` comes to at a client.
use hpnl.Base.{
  ℕ, suc, ◌+◌, ◌*◌, ◌%◌, ◌≤◌, ◌≡◌, ◌≢◌, refl, Option, none, some, ◌<◌, true, false, ◌==◌,
  if◌then◌else◌, arith, ℤ, pos, minus_one, length, get_elem?, ap,
}
use hpnl.Base.Run.{Returns, returns, Returns-bind, Returns-mono}
use hpnl.Fabric.{Lib, Obj}
use hpnl.Chunk.External.{external_chunk_mgr, reclaim, free_size}
use hpnl.Chunk.External.Laws.{external_chunk_mgr-Laws}
use hpnl.External.EqService.{ExternalEqService, set_buffer, is_buffer_enough, connect}
use hpnl.External.EqService.Lifted.{OnStack, on_stack-OnStack}
use hpnl.External.Events.{ExternalEqDemultiplexer}
use hpnl.Java.Binding.Lifted.{on_service-Lifted, refill_pool-Enough, refill_pool-hangs}
use hpnl.Java.EqService.{Env, EqBinding, memory_service, native_connect}
use hpnl.Java.MemPool.{MemPool}
use hpnl.Java.MemPool.Growth.{MemoryServiceLaws}
use hpnl.Msg.Connection.Io.{Infos}
use hpnl.Msg.Stack.{MsgStack}
use hpnl.Msg.Stack.Table
use hpnl.Msg.Stack.Table.Dialled.{Outcome, Verdict, OpensQueues, connect-Outcome, outcome-Verdict}

module _ (lib : Lib) (infos : Infos) where
  -- The service keeps the buffers that the pool gives it.
  pub memory_service-Laws : MemoryServiceLaws (memory_service lib infos)
  unfolding set_buffer is_buffer_enough external_chunk_mgr reclaim free_size
  memory_service-Laws = record {
    free = λ env. length env.mem.mgr.bufs;
    needed = λ v. 2 * v.buffer_num;
    keeps = λ buffer size id s. returns (refl, omega arith);
    tells = λ s. returns (refl, refl);
  }

  module _ (ip port junk q : ℕ) (d : ExternalEqDemultiplexer) where
    -- What the stack's `connect` has come to, from a stack `start` that was the demultiplexer's.
    abbrev Called : ℕ → Obj MsgStack Env → Type 0
    Called r t =
        (start : Obj MsgStack Env) × (start.self ≡ d.stack)
        × Outcome lib external_chunk_mgr infos external_chunk_mgr-Laws start ip port true junk q r t

    -- The loop has come to its end, and the stack's `connect` from `start` to `outcome`. The answer is
    -- -1, and the table of connections is as it was; or it is the event queue of a connection that is
    -- placed in the table and waits to be established.
    pub record Answered (r : Option ℤ) (t : EqBinding) : Type 0 where
      pub eq : ℕ
      pub answer : r ≡ some (if eq == 0 then minus_one else pos eq)
      pub service : ExternalEqService
      pub handle : t.self.native_handle ≡ some service
      pub stack : MsgStack
      pub demultiplexer : service.eq_demultiplexer ≡ some (record d { stack = stack })
      pub start : Obj MsgStack Env
      pub same : start.self ≡ d.stack
      pub outcome :
          Outcome lib external_chunk_mgr infos external_chunk_mgr-Laws start ip port true junk q eq
            (record { self = stack; env = t.env; trace = t.trace })
      pub verdict :
          Verdict lib external_chunk_mgr infos external_chunk_mgr-Laws start ip port eq
            (record { self = stack; env = t.env; trace = t.trace })

  module _ (ip port junk q : ℕ) (d : ExternalEqDemultiplexer) (opens : OpensQueues lib)
      (ne : d.stack.worker_num ≢ 0)
      (turn : get_elem? d.stack.cqs (d.stack.seq_num % d.stack.worker_num) ≡ some q) where
    connect-Called :
        (s : Obj ExternalEqService Env)
        → s.self.is_server ≡ false
        → s.self.eq_demultiplexer ≡ some d
        → Returns
            (OnStack (Called ip port junk q d) d s.self)
            (connect lib external_chunk_mgr infos ip port junk s)
    unfolding connect
    connect-Called s client there =
        let start : Obj MsgStack Env = record { self = d.stack; env = s.env; trace = s.trace } in
        simp client (
          on_stack-OnStack (Called ip port junk q d)
            (Table.connect lib external_chunk_mgr infos ip port true junk) d s
            (Returns-mono
              (connect-Outcome lib external_chunk_mgr infos external_chunk_mgr-Laws ip port true
                junk q start ne turn)
              λ r t o. (start, refl, o))
            there)

    -- A client has a pool that grows, and the rounds of the loop are at least the buffers that are
    -- missing. There is a worker, the stack has a queue for the turn, and where fi_eq_open succeeds it
    -- gives no null pointer. Then the loop ends, and `native_connect` returns -1, and the table of
    -- connections is as it was, where the address is refused or the connection's `init` or `connect`
    -- fails; and otherwise it returns the event queue that fi_eq_open gave to a new connection, which
    -- waits to be established, and is in the table under it, unless an entry was there.
    pub native_connect-Answered :
        (rounds : ℕ) (v : ExternalEqService) (p : MemPool) (s : EqBinding)
        → s.self.native_handle ≡ some v
        → v.is_server ≡ false
        → v.eq_demultiplexer ≡ some d
        → s.self.buffer_pool ≡ some p
        → p.next_buffer_num ≢ 0
        → 2 * v.buffer_num ≤ length s.env.mem.mgr.bufs + rounds
        → Returns (Answered ip port junk q d) (native_connect lib infos (suc rounds) ip port junk s)
    unfolding native_connect memory_service-Laws
    native_connect-Answered rounds v p s handle client there pool grows l =
        Returns-bind
          (refill_pool-Enough lib (memory_service lib infos) memory_service-Laws rounds v p s handle
            grows l pool)
          λ b t (ended, e). rw ended (
            Returns-bind (on_service-Lifted v _ t e.handle (connect-Called _ client there))
              λ eq u h.
                let i = h.inner in
                returns (record {
                  eq = eq;
                  answer = refl;
                  service = h.service;
                  handle = h.handle;
                  stack = i.stack;
                  demultiplexer = ap (λ w. w.eq_demultiplexer) i.there;
                  start = i.inner.0;
                  same = i.inner.1;
                  outcome = i.inner.2;
                  verdict =
                      outcome-Verdict lib external_chunk_mgr infos external_chunk_mgr-Laws ip port
                        true junk q eq _ _ opens i.inner.2;
                }))

  -- A pool that does not grow, with less buffers than are needed: `native_connect` does not come back,
  -- however many rounds of its loop there are.
  pub native_connect-hangs :
      (rounds ip port junk : ℕ) (v : ExternalEqService) (p : MemPool) (s : EqBinding)
      → s.self.native_handle ≡ some v
      → s.self.buffer_pool ≡ some p
      → p.next_buffer_num ≡ 0
      → length s.env.mem.mgr.bufs < 2 * v.buffer_num
      → Returns (λ r _. r ≡ none) (native_connect lib infos rounds ip port junk s)
  unfolding native_connect memory_service-Laws
  native_connect-hangs rounds ip port junk v p s handle pool still few =
      Returns-bind
        (refill_pool-hangs lib (memory_service lib infos) memory_service-Laws rounds v p s handle
          still few pool)
        λ b t off. rw off (returns refl)
