-- ===== src/Java/Binding/Lifted.antt =====
-- From the methods of a service to the native methods that call them.
use hpnl.Base.{ℕ, suc, ◌+◌, ◌≤◌, ◌≡◌, ◌≢◌, refl, ap, ◌∙◌, Option, some, true, false, ◌<◌}
use hpnl.Base.Run.{M, Returns, returns, Returns-bind}
use hpnl.Fabric.{Lib, Obj}
use hpnl.Java.Binding.{Binding, on_service, with_service, refill_pool, refill_with, keep_pool}
use hpnl.Java.MemPool.{MemPool, MemoryService}
use hpnl.Java.MemPool.Growth.{MemoryServiceLaws, refill-Refilled, refill-hangs}

module _ {S E : Type 0} where
  -- The service comes back in the object, which is otherwise as it was.
  pub record Lifted {A : Type 0} (P : A → Obj S E → Type 0) (s : Obj (Binding S) E) (a : A)
      (t : Obj (Binding S) E) : Type 0 where
    pub service : S
    pub handle : t.self.native_handle ≡ some service
    pub inner : P a (record { self = service; env = t.env; trace = t.trace })
    pub pool : t.self.buffer_pool ≡ s.self.buffer_pool
    pub upcalls : t.self.upcalls ≡ s.self.upcalls

  pub on_service-Lifted :
      {A : Type 0} {P : A → Obj S E → Type 0} (v : S) (m : M (Obj S E) A) (s : Obj (Binding S) E)
      → s.self.native_handle ≡ some v
      → Returns P (m (record { self = v; env = s.env; trace = s.trace }))
      → Returns (Lifted P s) (on_service m s)
  unfolding on_service with_service
  on_service-Lifted v m s there h =
      rw (there, with_service)
        (Returns-bind h λ a t p.
          returns
            (record { service = t.self; handle = refl; inner = p; pool = refl; upcalls = refl }))

module _ {S E : Type 0} (lib : Lib) (service : MemoryService S E)
    (laws : MemoryServiceLaws service) where
  -- The loop has ended, with enough buffers.
  pub record Enough (v : S) (p : MemPool) (s t : Obj (Binding S) E) : Type 0 where
    pub pool : MemPool
    pub kept : t.self.buffer_pool ≡ some pool
    pub step : pool.next_buffer_num ≡ p.next_buffer_num
    pub handle : t.self.native_handle ≡ some v
    pub enough : laws.needed v ≤ laws.free t.env
    pub upcalls : t.self.upcalls ≡ s.self.upcalls

  module _ (rounds : ℕ) (v : S) (p : MemPool) (s : Obj (Binding S) E)
      (there : s.self.native_handle ≡ some v) (ne : p.next_buffer_num ≢ 0)
      (l : laws.needed v ≤ laws.free s.env + rounds) where
    refill_with-Enough :
        (o : Option MemPool)
        → o ≡ some p
        → Returns (λ b t. (b ≡ true) × Enough v p s t) (refill_with lib service (suc rounds) o s)
    unfolding refill_with keep_pool
    refill_with-Enough o pool = rw pool (
        Returns-bind
          (on_service-Lifted v _ s there (refill-Refilled lib service laws rounds p _ ne l))
          λ r t h.
            let i = h.inner in
            rw (i.ended, keep_pool)
              (returns (
                refl,
                record {
                  pool = i.pool;
                  kept = refl;
                  step = i.step;
                  handle = h.handle ∙ ap some i.same;
                  enough = i.enough;
                  upcalls = h.upcalls;
                },
              )))

    -- The pool grows, and as many rounds as there are buffers missing come before the last. Then the
    -- loop ends.
    pub refill_pool-Enough :
        s.self.buffer_pool ≡ some p
        → Returns (λ b t. (b ≡ true) × Enough v p s t) (refill_pool lib service (suc rounds) s)
    unfolding refill_pool
    refill_pool-Enough pool = refill_with-Enough s.self.buffer_pool pool

  module _ (rounds : ℕ) (v : S) (p : MemPool) (s : Obj (Binding S) E)
      (there : s.self.native_handle ≡ some v) (still : p.next_buffer_num ≡ 0)
      (few : laws.free s.env < laws.needed v) where
    refill_with-hangs :
        (o : Option MemPool)
        → o ≡ some p
        → Returns (λ b _. b ≡ false) (refill_with lib service rounds o s)
    unfolding refill_with keep_pool
    refill_with-hangs o pool = rw pool (
        Returns-bind
          (on_service-Lifted v _ s there (refill-hangs lib service laws rounds p _ still few))
          λ r t h. rw (h.inner.0, keep_pool) (returns refl))

    -- The pool does not grow, and there are too few buffers. Then the loop does not end.
    pub refill_pool-hangs :
        s.self.buffer_pool ≡ some p → Returns (λ b _. b ≡ false) (refill_pool lib service rounds s)
    unfolding refill_pool
    refill_pool-hangs pool = refill_with-hangs s.self.buffer_pool pool
