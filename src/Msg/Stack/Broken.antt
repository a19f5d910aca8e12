-- ===== src/Msg/Stack/Broken.antt =====
-- A stack whose `init` fails while it opens its completion queues, and that is deleted.
use hpnl.Base.{
  ℕ, suc, ◌+◌, ◌*◌, ◌≡◌, ◌≢◌, ◌≤◌, ◌<◌, refl, List, [], ◌∷◌, Bool, true, false, ltb, arith, failed,
  count, Bool-cases, inl, inr, subst, sym, take, ap,
}
use hpnl.Base.Run.{◌>>=◌, Returns, returns, Returns-bind, Returns-mono}
use hpnl.Fabric.{Call, Trace, Lib, closing, freeing}
use hpnl.Fabric.Handles.{closed}
use hpnl.Chunk.{ChunkMgr}
use hpnl.Msg.Connection.Io.{Infos}
use hpnl.Msg.Stack.{
  MsgStack, World, construct, max_workers, close_cqs, free_cq, free_domain, free_eq, free_fabric,
  free_info, free_hints, open_cqs,
}
use hpnl.Msg.Stack.Cleanup.{Stk, single}
use hpnl.Msg.Stack.Table.{destruct, delete_all, free_chunks}

-- A stack within `init`, with the handles that it has got.
abbrev pub in_init :
    (w b : ℕ) (server external : Bool) (fabric domain hints info peq : ℕ) (cqs : List ℕ) → MsgStack
in_init w b server external fabric domain hints info peq cqs =
    record (construct w b server external) {
      fabric = fabric;
      domain = domain;
      hints = hints;
      info = info;
      peq = peq;
      cqs = cqs;
    }

module _ {G : Type 0} (lib : Lib) (mgr : ChunkMgr G) (infos : Infos) (h : ℕ) (ne : h ≢ 0) where
  closed-closing : (p : ℕ) (t : Trace) → closed h (closing p t) ≡ closed h t + count h (p ∷ [])
  unfolding closed closing
  closed-closing p t = ground arith

  closed-freeing : (p : ℕ) (t : Trace) → closed h (freeing p t) ≡ closed h t + count h (p ∷ [])
  unfolding closed freeing
  closed-freeing p t = ground arith

  -- The handles but for the queues are given back once each.
  single-closed :
      (k : MsgStack) (t : Trace)
      → closed h
          (freeing k.hints (freeing k.info (closing k.fabric (closing k.peq (closing k.domain t)))))
        ≡ closed h t + count h (single lib mgr k)
  single-closed k t = omega (
    arith,
    closed-closing k.domain t,
    closed-closing k.peq (closing k.domain t),
    closed-closing k.fabric (closing k.peq (closing k.domain t)),
    closed-freeing k.info (closing k.fabric (closing k.peq (closing k.domain t))),
    closed-freeing k.hints (freeing k.info (closing k.fabric (closing k.peq (closing k.domain t)))),
  )

  close_cqs-closed :
      (qs : List ℕ) (s : Stk lib mgr)
      → Returns
          (λ _ t.
            (t.self ≡ s.self)
            × (t.env ≡ s.env)
            × (closed h t.trace ≡ closed h s.trace + count h qs))
          (close_cqs lib mgr qs s)
  unfolding close_cqs
  close_cqs-closed [] s = returns (refl, refl, omega arith)
  close_cqs-closed (q ∷ qs) s =
      Returns-mono (close_cqs-closed qs (record s { trace = closing q s.trace }))
        λ _ t (same, env, more). (same, env, omega (arith, more, closed-closing q s.trace))

  -- The stack after the label `free_cq`: the queues' pointers stay.
  abbrev cleared : MsgStack → MsgStack
  cleared k = record k { domain = 0; peq = 0; fabric = 0; info = 0; hints = 0; initialized = false }

  abbrev queues : MsgStack → List ℕ
  queues k = take k.worker_num k.cqs

  -- Everything has been given back once more.
  record IsCleared (s t : Stk lib mgr) : Type 0 where
    kept : t.self ≡ cleared s.self
    env : t.env ≡ s.env
    once :
        closed h t.trace
        ≡ closed h s.trace + count h (single lib mgr s.self) + count h (queues s.self)

  free_cq-IsCleared :
      (s : Stk lib mgr)
      → s.self.worker_num ≤ max_workers
      → Returns (λ _ t. IsCleared s t) (free_cq lib mgr s)
  unfolding free_cq free_domain free_eq free_fabric free_info free_hints
  free_cq-IsCleared s w =
      let fits : ltb max_workers s.self.worker_num ≡ false = ground arith in
      rw fits (
        Returns-bind (close_cqs-closed (take s.self.worker_num s.self.cqs) s)
          λ _ t (same, env, more). returns (record {
            kept = ap cleared same;
            env = env;
            once = omega (
              arith,
              more,
              single-closed t.self t.trace,
              ap (λ k. count h (single lib mgr k)) same,
            );
          }))

  module _ (w b : ℕ) (server external : Bool) (fabric domain hints info peq : ℕ) (cqs : List ℕ)
      (few : w ≤ max_workers) where
    abbrev pub stack : MsgStack
    stack = in_init w b server external fabric domain hints info peq cqs

    -- The destructor closes the queues of such a stack, and has nothing else to close.
    destruct-closed :
        (env : World G) (trace : Trace)
        → Returns
            (λ _ u. closed h u.trace ≡ closed h trace + count h (take w cqs))
            (destruct lib mgr infos (record { self = cleared stack; env = env; trace = trace }))
    unfolding destruct delete_all free_chunks construct closing freeing
    destruct-closed env trace =
        let fits : ltb max_workers w ≡ false = ground arith in
        rw fits (
          Returns-bind (close_cqs-closed (take w cqs) _) λ _ t (same, _, more).
            elim (Bool-cases server) [ inl e ↦ rw e (returns more) | inr e ↦ rw e (returns more) ])

    free_cq-destruct :
        (env : World G) (trace : Trace)
        → Returns
            (λ _ t.
              closed h t.trace
              ≡ closed h trace + count h (single lib mgr stack) + 2 * count h (take w cqs))
            ((free_cq lib mgr >>= λ _. destruct lib mgr infos)
              (record { self = stack; env = env; trace = trace }))
    unfolding construct
    free_cq-destruct env trace =
        Returns-bind (free_cq-IsCleared (record { self = stack; env = env; trace = trace }) few)
          λ _ t clear.
            Returns-mono
              (subst
                (λ k.
                  Returns (λ _ u. closed h u.trace ≡ closed h t.trace + count h (take w cqs))
                    (destruct lib mgr infos (record { self = k; env = t.env; trace = t.trace })))
                (sym clear.kept) (destruct-closed t.env t.trace))
              λ _ u more. omega (arith, more, clear.once)

    -- A stack with at most ten workers, and no connections yet, opens its queues in `init`, and the
    -- next one does not open. Then each queue that it has open is closed twice, by `init` and by the
    -- destructor, and each other handle is given back once.
    pub open_cqs-destruct :
        (n i : ℕ) (env : World G) (trace : Trace)
        → i < max_workers
        → failed (lib trace (Call.cq_open domain)).ret ≡ true
        → Returns
            (λ _ t.
              closed h t.trace
              ≡ closed h trace + count h (single lib mgr stack) + 2 * count h (take w cqs))
            ((open_cqs lib mgr (suc n) i >>= λ _. destruct lib mgr infos)
              (record { self = stack; env = env; trace = trace }))
    unfolding open_cqs construct closed
    open_cqs-destruct n i env trace l f =
        let room : ltb i max_workers ≡ true = ground arith in
        rw (room, f)
          (Returns-mono (free_cq-destruct env (Call.cq_open domain ∷ trace))
            λ _ t more. ground (arith, more, ne))
