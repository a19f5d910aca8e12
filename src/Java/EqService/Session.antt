-- ===== src/Java/EqService/Session.antt =====
-- A connection of the Java binding from `native_connect` to `shutdown1`.
use mathlib.Core.List.{reverse}
use hpnl.Base.{
  ℕ, suc, ◌+◌, ◌*◌, ◌%◌, ◌≤◌, ◌≡◌, ◌≢◌, ◌⊎◌, inl, inr, refl, [], ◌∷◌, ◌++◌, Option, some, true,
  false, ◌==◌, arith, ℤ, pos, minus_one, length, get_elem?, ap, sym, ◌∙◌, subst, Bool-cases,
  success,
}
use hpnl.Base.StdMap.{lookup, has, insert, assign, lookup-assign_self, lookup-insert}
use hpnl.Base.Run.{ok, Returns, returns, Returns-bind, Returns-mono, ◌>>=◌}
use hpnl.Fabric.{Call, Trace, Lib}
use hpnl.Chunk.External.{external_chunk_mgr}
use hpnl.Chunk.External.Laws.{external_chunk_mgr-Laws}
use hpnl.Event.Codes.{EventType, value}
use hpnl.Event.Establish.{init_addr-some}
use hpnl.Event.Handler.{Event}
use hpnl.External.EqService.{ExternalEqService}
use hpnl.External.EqService
use hpnl.External.Events.{Report}
use hpnl.External.Events
use hpnl.External.Events.{ExternalEqDemultiplexer}
use hpnl.Java.Binding.{Upcall, Binding, on_service}
use hpnl.Java.EqService.{Env, EqBinding, EqM, on_report, native_connect, shutdown1}
use hpnl.Java.EqService.Closing.{running, shutdown1-IsShut}
use hpnl.Java.EqService.Connecting.{Answered, native_connect-Answered}
use hpnl.Java.EqService.Established.{IsEstablished, pushes, on_connected-IsEstablished}
use hpnl.Java.MemPool.{MemPool}
use hpnl.Msg.Connection.{MsgConnection, ConStatus}
use hpnl.Msg.Connection.Io.{Infos}
use hpnl.Msg.Stack.Table
use hpnl.Msg.Stack.Table.Dialled.{OpensQueues, resolved, Verdict, gave_up, dialled}

-- An object is what it is made of.
as_running :
    (s : EqBinding) (v : ExternalEqService) (d : ExternalEqDemultiplexer)
    → s.self.native_handle ≡ some v
    → v.eq_demultiplexer ≡ some d
    → running s.self v d s.env s.trace ≡ s
as_running s v d handle there =
    ap (λ h. record s { self = record s.self { native_handle = h } })
      (ap (λ x. some (record v { eq_demultiplexer = x })) (sym there) ∙ sym handle)

-- The variables of `wait_eq_event1` when it has found the queue of an event.
abbrev pub variables : (eq : ℕ) → Report
variables eq = record { code = success; info = 0; eq = eq; con = 0 }

module _ (lib : Lib) (infos : Infos) where
  -- The demultiplexer reads that the connection under `eq` is established, the binding does what is
  -- reported, and then Java shuts the connection down.
  unfoldable pub live : (rounds junk eq : ℕ) → EqM (Unit {0})
  unfolding on_report on_service shutdown1
  live rounds junk eq = do
    r ← on_service (
        EqService.on_demultiplexer
          (Events.on_event lib external_chunk_mgr infos Event.connected_event (variables eq)))
    _ ← on_report lib infos rounds junk r
    shutdown1 lib infos eq

  -- Java has heard of the connection, of its send buffers and of the event, once each and in this
  -- order; the connection has been shut down once and is down, and to shut it down again does nothing.
  pub record IsOver (eq p : ℕ) (c : MsgConnection) (s t : EqBinding) : Type 0 where
    pub heard :
        t.self.upcalls
        ≡ reverse (
            Upcall.establish_connection eq p c.cq_index c.dest_port c.src_port
            ∷ (pushes s.env.mem.heap eq c.send_chunks
                ++ Upcall.handle_eq_callback eq (value EventType.connected_event) 0 ∷ []))
          ++ s.self.upcalls
    pub once : t.trace ≡ Call.shutdown c.ep ∷ s.trace
    pub down : lookup p t.env.cons ≡ some (record c { status = ConStatus.down })
    pub again : shutdown1 lib infos eq t ≡ ok tt t

  module _ (eq p : ℕ) (c : MsgConnection) (v : ExternalEqService) (d : ExternalEqDemultiplexer)
      (entry : lookup eq d.stack.con_map ≡ some p) (some_con : p ≢ 0) where
    shut-IsOver :
        (s u : EqBinding)
        → s.self.native_handle ≡ some v
        → v.eq_demultiplexer ≡ some d
        → IsEstablished eq p (value EventType.connected_event) c s u
        → Returns (λ _ t. IsOver eq p c s t) (shutdown1 lib infos eq u)
    shut-IsOver s u handle there e =
        subst (λ x. Returns (λ _ t. IsOver eq p c s t) (shutdown1 lib infos eq x))
          (as_running u v d (e.service ∙ handle) there)
          (Returns-mono
            (shutdown1-IsShut lib infos u.self v eq p (record c { status = ConStatus.connected }) d
              u.env u.trace entry e.connected (ground arith) some_con)
            λ _ t i. record {
              heard = ap (λ o. o.upcalls) i.bound ∙ e.upcalls;
              once = i.once ∙ ap (λ x. Call.shutdown c.ep ∷ x) e.trace;
              down = i.down;
              again = i.again;
            })

    -- What the demultiplexer reports of the event, and the object then.
    abbrev told : Report → Report
    told old = record old { code = value EventType.connected_event; con = p }

    abbrev noted : EqBinding → EqBinding
    noted s = record s { env = record s.env { cons = assign p c s.env.cons } }

    reads_running :
        (old : Report) (b : Binding ExternalEqService) (env : Env) (trace : Trace)
        → old.eq ≡ eq
        → lookup p env.cons ≡ some c
        → infos.dest_addr c.info ≢ 0
        → infos.src_addr c.info ≢ 0
        → on_service
            (EqService.on_demultiplexer
              (Events.on_event lib external_chunk_mgr infos Event.connected_event old))
            (running b v d env trace)
          ≡ ok (told old) (noted (running b v d env trace))
    unfolding on_service EqService.on_demultiplexer Events.on_event Events.on_connected
        Table.get_connection value
    reads_running old b env trace same con dest src =
        let real : (p == 0) ≡ false = ground arith in
        rw (same, entry, real)
          (rw
            (init_addr-some lib external_chunk_mgr infos p c
              (record { self = d.stack; env = env; trace = trace }) con dest src)
            refl)

    reads_connected :
        (old : Report) (s : EqBinding)
        → s.self.native_handle ≡ some v
        → v.eq_demultiplexer ≡ some d
        → old.eq ≡ eq
        → lookup p s.env.cons ≡ some c
        → infos.dest_addr c.info ≢ 0
        → infos.src_addr c.info ≢ 0
        → on_service
            (EqService.on_demultiplexer
              (Events.on_event lib external_chunk_mgr infos Event.connected_event old))
            s
          ≡ ok (told old) (noted s)
    reads_connected old s handle there same con dest src =
        subst
          (λ x.
            on_service
              (EqService.on_demultiplexer
                (Events.on_event lib external_chunk_mgr infos Event.connected_event old))
              x
            ≡ ok (told old) (noted x))
          (as_running s v d handle there) (reads_running old s.self s.env s.trace same con dest src)

    on_report-IsEstablished :
        (rounds junk : ℕ) (old : Report) (s : EqBinding)
        → old.eq ≡ eq
        → lookup p s.env.cons ≡ some c
        → Returns
            (λ _ u. IsEstablished eq p (value EventType.connected_event) c s u)
            (on_report lib infos rounds junk (told old) s)
    unfolding on_report value
    on_report-IsEstablished rounds junk old s same there = rw same (
        Returns-bind
          (on_connected-IsEstablished eq p (value EventType.connected_event) c s some_con there)
          λ _ u e. returns e)

    -- A connection is in the table of its service under its event queue, at an address that is not the
    -- null pointer, and both addresses of its fi_info are there. When it is established and then shut
    -- down, Java has heard of it, of its send buffers and of the event, once each and in this order; it
    -- has been shut down once and is down, and to shut it down again does nothing.
    pub live-IsOver :
        (rounds junk : ℕ) (s : EqBinding)
        → s.self.native_handle ≡ some v
        → v.eq_demultiplexer ≡ some d
        → lookup p s.env.cons ≡ some c
        → infos.dest_addr c.info ≢ 0
        → infos.src_addr c.info ≢ 0
        → Returns (λ _ t. IsOver eq p c s t) (live rounds junk eq s)
    unfolding live
    live-IsOver rounds junk s handle there con dest src =
        rw (reads_connected (variables eq) s handle there refl con dest src) (
          Returns-bind
            (on_report-IsEstablished rounds junk (variables eq) (noted s) refl
              (lookup-assign_self p c s.env.cons))
            λ _ u e.
              Returns-mono (shut-IsOver (noted s) u handle there e)
                λ _ t i. record { heard = i.heard; once = i.once; down = i.down; again = i.again })

  -- What can be said of the answer of `native_connect`, and of the connection that it is for.
  pub data Answer (ip port junk q : ℕ) (d : ExternalEqDemultiplexer) (rounds : ℕ) (r : Option ℤ)
      (t : EqBinding) : Type 0 where
    -- -1, and the table is as it was.
    no_answer :
        (a : Answered lib infos ip port junk q d r t)
        → r ≡ some minus_one
        → a.stack.con_map ≡ d.stack.con_map
        → Answer ip port junk q d rounds r t
    -- The queue stood in the table already.
    stale :
        (a : Answered lib infos ip port junk q d r t)
        → r ≡ some (pos a.eq)
        → has a.eq d.stack.con_map ≡ true
        → Answer ip port junk q d rounds r t
    -- The queue of a connection in the table one of whose addresses is missing.
    unaddressed :
        (a : Answered lib infos ip port junk q d r t) (p : ℕ) (c : MsgConnection)
        → r ≡ some (pos a.eq)
        → lookup a.eq a.stack.con_map ≡ some p
        → lookup p t.env.cons ≡ some c
        → c.con_eq ≡ a.eq
        → (infos.dest_addr c.info ≡ 0) ⊎ (infos.src_addr c.info ≡ 0)
        → Answer ip port junk q d rounds r t
    -- The queue of a connection in the table whose life ends well.
    alive :
        (a : Answered lib infos ip port junk q d r t) (p : ℕ) (c : MsgConnection)
        → r ≡ some (pos a.eq)
        → lookup a.eq a.stack.con_map ≡ some p
        → lookup p t.env.cons ≡ some c
        → c.con_eq ≡ a.eq
        → Returns (λ _ u. IsOver a.eq p c t u) (live rounds junk a.eq t)
        → Answer ip port junk q d rounds r t

  module _ (ip port junk q : ℕ) (d : ExternalEqDemultiplexer)
      (some_con : (t : Trace) → (lib t Call.new).out ≢ 0) where
    real-Answer :
        (rounds : ℕ) (r : Option ℤ) (t : EqBinding) (a : Answered lib infos ip port junk q d r t)
        → (p : ℕ) (c : MsgConnection) → p ≢ 0
        → r ≡ some (pos a.eq)
        → c.con_eq ≡ a.eq
        → lookup p t.env.cons ≡ some c
        → a.stack.con_map ≡ insert a.eq p d.stack.con_map
        → Answer ip port junk q d rounds r t
    real-Answer rounds r t a p c ne answer eq there table =
        elim (Bool-cases (has a.eq d.stack.con_map)) [
          | inl old ↦ stale a answer old
          | inr new ↦
              let entry : lookup a.eq a.stack.con_map ≡ some p =
                ap (lookup a.eq) table
                ∙ ground (arith, new, lookup-insert a.eq a.eq p d.stack.con_map) in
              elim (Bool-cases (infos.dest_addr c.info == 0)) [
                | inl z ↦ unaddressed a p c answer entry there eq (inl (ground arith))
                | inr d' ↦ elim (Bool-cases (infos.src_addr c.info == 0)) [
                  | inl z ↦ unaddressed a p c answer entry there eq (inr (ground arith))
                  | inr s' ↦ alive a p c answer entry there eq (
                      live-IsOver a.eq p c a.service (record d { stack = a.stack }) entry ne rounds
                        junk t a.handle a.demultiplexer there (ground arith) (ground arith))
                ]
              ]
        ]

    verdict-Answer :
        (rounds : ℕ) (r : Option ℤ) (t : EqBinding) (a : Answered lib infos ip port junk q d r t)
        → Verdict lib external_chunk_mgr infos external_chunk_mgr-Laws a.start ip port a.eq
            (record { self = a.stack; env = t.env; trace = t.trace })
        → Answer ip port junk q d rounds r t
    verdict-Answer rounds r t a (gave_up z same) =
        let null : (a.eq == 0) ≡ true = ground arith in
        no_answer a (a.answer ∙ rw null refl) (same ∙ ap (λ k. k.con_map) a.same)
    verdict-Answer rounds r t a (dialled ne e placed) =
        let real : (a.eq == 0) ≡ false = ground arith in
        let start = resolved lib external_chunk_mgr infos external_chunk_mgr-Laws a.start ip port in
        let p = (lib start.trace Call.new).out in
        real-Answer rounds r t a p placed.con (some_con start.trace) (a.answer ∙ rw real refl)
          (placed.event_queue ∙ sym e) placed.there
          (placed.table
            ∙ ap (λ x. insert x p a.start.self.con_map) (sym e)
            ∙ ap (λ k. insert a.eq p k.con_map) a.same)

    -- A client has a pool that grows, and the rounds of the loop that waits for buffers are at least the
    -- buffers that are missing. There is a worker, and the stack has a queue for the turn; `new` never
    -- gives the null pointer, and fi_eq_open none where it succeeds. Then `native_connect` comes back
    -- with -1, and the table of connections is as it was, where the address is refused or the
    -- connection's `init` or `connect` fails. Otherwise it comes back with the event queue that
    -- fi_eq_open gave. Unless that stood in the table, or an address of the connection's fi_info is
    -- missing, when the demultiplexer reads that the connection is established, and Java then shuts it
    -- down, it is shut down once and down, after Java has heard of it, of its send buffers and of the
    -- event, once each and in this order.
    pub native_connect-live :
        (rounds : ℕ) (v : ExternalEqService) (p : MemPool) (s : EqBinding)
        → OpensQueues lib
        → d.stack.worker_num ≢ 0
        → get_elem? d.stack.cqs (d.stack.seq_num % d.stack.worker_num) ≡ some q
        → s.self.native_handle ≡ some v
        → v.is_server ≡ false
        → v.eq_demultiplexer ≡ some d
        → s.self.buffer_pool ≡ some p
        → p.next_buffer_num ≢ 0
        → 2 * v.buffer_num ≤ length s.env.mem.mgr.bufs + rounds
        → Returns
            (Answer ip port junk q d rounds)
            (native_connect lib infos (suc rounds) ip port junk s)
    native_connect-live rounds v p s opens ne turn handle client there pool grows l =
        Returns-mono
          (native_connect-Answered lib infos ip port junk q d opens ne turn rounds v p s handle
            client there pool grows l)
          λ r t a. verdict-Answer rounds r t a a.verdict
