-- ===== src/Java/MemPool/Growth.antt =====
-- When the loop that makes a pool grow ends.
use hpnl.Base.{
  ℕ, zero, suc, ◌+◌, ◌≤◌, ◌<◌, ◌≡◌, ◌≢◌, ◌⊎◌, inl, inr, refl, ◌∙◌, ap, false, leb, arith, none,
  Option, ◌∷◌, some, Bool-cases,
}
use hpnl.Base.Run.{ok, Returns, returns, Returns-bind, Returns-mono}
use hpnl.Fabric.{Call, Lib, Obj}
use hpnl.Java.MemPool.{MemPool, MemoryService, alloc, alloc_all, realloc, refill}

-- A service that keeps the buffers that it gets: it counts those that are free, and knows how many
-- it needs.
pub record MemoryServiceLaws {O E : Type 0} (service : MemoryService O E) : Type 0 where
  pub free : E → ℕ
  pub needed : O → ℕ
  pub keeps :
      (buffer size id : ℕ) (s : Obj O E)
      → Returns
          (λ _ t. (t.self ≡ s.self) × (free t.env ≡ free s.env + 1))
          (service.set_buffer buffer size id s)
  pub tells :
      (s : Obj O E)
      → Returns
          (λ b t. (t ≡ s) × (b ≡ leb (needed s.self) (free s.env)))
          (service.is_buffer_enough s)

module _ {O E : Type 0} (lib : Lib) (service : MemoryService O E)
    (laws : MemoryServiceLaws service) where
  -- The pool has given the service `n` buffers.
  pub record Grown (p : MemPool) (n : ℕ) (s : Obj O E) (q : MemPool) (t : Obj O E) : Type 0 where
    pub same : t.self ≡ s.self
    pub more : laws.free t.env ≡ laws.free s.env + n
    pub step : q.next_buffer_num ≡ p.next_buffer_num

  alloc-Grown :
      (p : MemPool) (s : Obj O E) → Returns (λ q t. Grown p 1 s q t) (alloc lib service p s)
  unfolding alloc
  alloc-Grown p s =
      let c = Call.malloc p.buffer_size in
      Returns-bind
        (laws.keeps (lib s.trace c).out p.buffer_size p.seq_id (record s { trace = c ∷ s.trace }))
        λ _ t (same, more). returns (record { same = same; more = more; step = refl })

  alloc_all-Grown :
      (n : ℕ) (p : MemPool) (s : Obj O E)
      → Returns (λ q t. Grown p n s q t) (alloc_all lib service n p s)
  unfolding alloc_all
  alloc_all-Grown zero p s = returns (record { same = refl; more = omega arith; step = refl })
  alloc_all-Grown (suc n) p s = Returns-bind (alloc-Grown p s) λ q t g.
      Returns-mono (alloc_all-Grown n q t) λ r u h. record {
        same = h.same ∙ g.same;
        more = omega (arith, g.more, h.more);
        step = h.step ∙ g.step;
      }

  -- The loop has come to its end with enough buffers, and with less than one helping too many if
  -- there were not enough before.
  pub record Refilled (p : MemPool) (s : Obj O E) (r : Option MemPool) (t : Obj O E) : Type 0 where
    pub pool : MemPool
    pub ended : r ≡ some pool
    pub step : pool.next_buffer_num ≡ p.next_buffer_num
    pub same : t.self ≡ s.self
    pub enough : laws.needed s.self ≤ laws.free t.env
    pub bound :
        (laws.free t.env ≡ laws.free s.env)
        ⊎ (laws.free t.env < laws.needed s.self + p.next_buffer_num)

  -- One more round: what the rounds after it come to counts where there are not enough buffers.
  one_round :
      (n : ℕ) (p : MemPool) (s : Obj O E)
      → (laws.free s.env < laws.needed s.self
          → (q : MemPool) (t : Obj O E) → Grown p p.next_buffer_num s q t
          → Returns (Refilled p s) (refill lib service n q t))
      → Returns (Refilled p s) (refill lib service (suc n) p s)
  unfolding refill realloc
  one_round n p s next = Returns-bind (laws.tells s) λ b t (same, told).
      elim (Bool-cases (leb (laws.needed s.self) (laws.free s.env))) [
        | inl e ↦
            rw (told, same, e)
              (returns (record {
                pool = p;
                ended = refl;
                step = refl;
                same = refl;
                enough = ground arith;
                bound = inl refl;
              }))
        | inr e ↦
            rw (told, same, e)
              (Returns-bind (alloc_all-Grown p.next_buffer_num p s) (next (ground arith)))
      ]

  -- What holds of the loop after a helping, with one that was too small before, holds of it all.
  from_Grown :
      (p q : MemPool) (s t : Obj O E)
      → laws.free s.env < laws.needed s.self
      → Grown p p.next_buffer_num s q t
      → (r : Option MemPool) (u : Obj O E) → Refilled q t r u
      → Refilled p s r u
  from_Grown p q s t few g r u h =
      let same = ap laws.needed g.same in
      record {
        pool = h.pool;
        ended = h.ended;
        step = h.step ∙ g.step;
        same = h.same ∙ g.same;
        enough = omega (arith, h.enough, same);
        bound = inr (ground (arith, h.bound, few, g.more, g.step, same));
      }

  -- The pool grows by at least one buffer at a time, and as many rounds as there are buffers missing
  -- come before the last. Then the loop ends.
  pub refill-Refilled :
      (rounds : ℕ) (p : MemPool) (s : Obj O E)
      → p.next_buffer_num ≢ 0
      → laws.needed s.self ≤ laws.free s.env + rounds
      → Returns (Refilled p s) (refill lib service (suc rounds) p s)
  refill-Refilled zero p s ne l = one_round zero p s (λ few. absurd (omega arith))
  refill-Refilled (suc n) p s ne l = one_round (suc n) p s λ few q t g.
      let same = ap laws.needed g.same in
      Returns-mono
        (refill-Refilled n q t (λ e. ne (omega (arith, g.step, e)))
          (omega (arith, g.more, same, ne)))
        (from_Grown p q s t few g)

  alloc_all-none :
      (n : ℕ) (p : MemPool) (s : Obj O E) → n ≡ 0 → alloc_all lib service n p s ≡ ok p s
  unfolding alloc_all
  alloc_all-none n p s z = rw z refl

  -- A pool that does not grow keeps the loop going for ever.
  pub refill-hangs :
      (rounds : ℕ) (p : MemPool) (s : Obj O E)
      → p.next_buffer_num ≡ 0
      → laws.free s.env < laws.needed s.self
      → Returns (λ r t. (r ≡ none) × (t ≡ s)) (refill lib service rounds p s)
  unfolding refill realloc
  refill-hangs zero p s z few = returns (refl, refl)
  refill-hangs (suc n) p s z few = Returns-bind (laws.tells s) λ b t (same, told).
      let more : b ≡ false = ground (arith, told, few) in
      rw (more, same, alloc_all-none p.next_buffer_num p s z) (refill-hangs n p s z few)
