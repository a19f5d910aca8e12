-- ===== src/Chunk/Pool/Registry.antt =====
-- What `ChunkPool` promises: each chunk that it hands out is found again by its id.
use hpnl.Base.{
  ◌-◌, ◌^◌, ◌%◌, ℕ, ◌+◌, ◌*◌, ◌/◌, ◌≤◌, ◌<◌, ◌≡◌, ◌≢◌, refl, Option, none, some, arith, ◌==◌, sym,
  ◌∙◌, subst, ap, contains, true, false, inl, inr, Bool-cases,
}
use hpnl.Base.StdMap.{lookup}
use hpnl.Base.Run.{ok, Returns, returns, Returns-bind, Returns-mono, Returns-ok}
use hpnl.Fabric.{Lib, Obj}
use hpnl.Chunk.{Heap, Used}
use hpnl.Chunk.Pool.{
  Storage, Context, ChunkPool, number_chunks, number_block, take_block, chunk_of, id_of, register,
  allocate, system_malloc, malloc, fill, get_chunk, get_by_id, reclaim,
}
use hpnl.Chunk.Pool.Laws.{StorageLaws}
use hpnl.Chunk.Pool.Ids.{
  Registered, number_chunks-buffer_size, number_chunks-keeps, number_chunks-Registered,
}

module _ {S : Type 0} (lib : Lib) (sizeof_chunk : ℕ) (st : Storage S) (partition : ℕ)
    (laws : StorageLaws st partition) where
  -- Each free chunk is known by an id, and the store cuts its blocks as the ids are given.
  pub record IsConsistent (p : ChunkPool S) : Type 0 where
    pub step : p.context.buffer_size + sizeof_chunk ≡ partition
    pub free : (q : ℕ) → contains q (laws.chunks p.store) ≡ true → Registered p.context q

  -- A chunk handed out is no null pointer and is known by an id.
  Handed : ℕ → Obj (ChunkPool S) Heap → Type 0
  Handed ck s = IsConsistent s.self × (ck ≢ 0 → Registered s.self.context ck)

  abbrev BlockRegistered : Obj (ChunkPool S) Heap → ℕ → ℕ → Obj (ChunkPool S) Heap → Type 0
  BlockRegistered s bytes block t =
      IsConsistent t.self
      × (t.self.store ≡ s.self.store)
      × (block ≢ 0
          → (i : ℕ) → i < bytes / partition
          → Registered t.self.context (block + i * partition))

  -- The pool after a block at `memory` is numbered.
  abbrev numbered : ℕ → ℕ → ℕ → ChunkPool S → ChunkPool S
  numbered bytes memory mr p = record p {
    context = number_chunks partition mr (bytes / partition) memory p.context;
  }

  numbered-IsConsistent :
      (bytes memory mr : ℕ) (p : ChunkPool S)
      → IsConsistent p
      → IsConsistent (numbered bytes memory mr p)
  numbered-IsConsistent bytes memory mr p v = record {
    step = rw (number_chunks-buffer_size partition mr (bytes / partition) memory p.context) v.step;
    free = λ q h. number_chunks-keeps partition mr _ memory q p.context (v.free q h);
  }

  number_block-Registered :
      (bytes memory : ℕ) (mr : Option ℕ) (s : Obj (ChunkPool S) Heap)
      → IsConsistent s.self
      → Returns
          (BlockRegistered s bytes)
          (number_block lib sizeof_chunk st partition bytes memory mr s)
  unfolding number_block
  number_block-Registered bytes memory none s v = returns (v, refl, λ h. absurd (h refl))
  number_block-Registered bytes memory (some mr) s v =
      returns {s = record s { self = numbered bytes memory mr s.self }} (
        numbered-IsConsistent bytes memory mr s.self v,
        refl,
        λ _ i h. number_chunks-Registered partition mr _ i memory s.self.context h,
      )

  register-self :
      (domain memory bytes : ℕ) (s : Obj (ChunkPool S) Heap)
      → Returns (λ _ t. t.self ≡ s.self) (register lib sizeof_chunk st domain memory bytes s)
  unfolding register
  register-self domain memory bytes s = elim (Bool-cases (domain == 0)) [
    | inl e ↦ rw e (returns refl)
    | inr e ↦ rw e (returns refl)
  ]

  allocate-Registered :
      (bytes : ℕ) (s : Obj (ChunkPool S) Heap)
      → IsConsistent s.self
      → Returns (BlockRegistered s bytes) (allocate lib sizeof_chunk st bytes s)
  unfolding allocate
  allocate-Registered bytes s v = rw v.step (
      Returns-bind (register-self s.self.context.domain _ bytes _) λ mr t e.
        Returns-mono (number_block-Registered bytes _ mr t (subst IsConsistent (sym e) v))
          λ block u w. (w.0, w.1 ∙ ap (λ p. p.store) e, w.2))

  -- A chunk that leaves a store whose chunks are all registered.
  taken-Handed :
      (p : ChunkPool S) (store : S)
      → p.context.buffer_size + sizeof_chunk ≡ partition
      → st.is_empty store ≡ false
      → ((q : ℕ) → contains q (laws.chunks store) ≡ true → Registered p.context q)
      → IsConsistent (record p { store = (st.malloc store).1 })
        × ((st.malloc store).0 ≢ 0 → Registered p.context (st.malloc store).0)
  taken-Handed p store e full known = (
    record { step = e; free = λ q h. known q (laws.malloc_leaves store q h) },
    λ _. known _ (laws.malloc_takes store full),
  )

  block-Registered :
      (bytes block : ℕ) (s t : Obj (ChunkPool S) Heap)
      → BlockRegistered s bytes block t
      → block ≢ 0
      → (q : ℕ) → contains q (laws.chunks (st.add_block block bytes t.self.store)) ≡ true
      → Registered t.self.context q
  block-Registered bytes block s t w ne q h = elim (laws.block_adds _ block bytes q h) [
    | inl old ↦ w.0.free q old
    | inr (i, below, e) ↦ subst (Registered t.self.context) (sym e) (w.2 ne i below)
  ]

  take_block-Handed :
      (bytes block : ℕ) (s t : Obj (ChunkPool S) Heap)
      → partition ≤ bytes
      → BlockRegistered s bytes block t
      → Returns Handed (take_block lib sizeof_chunk st bytes block t)
  unfolding take_block Handed
  take_block-Handed bytes block s t room w = elim (Bool-cases (block == 0)) [
    | inl e ↦ rw e (returns (w.0, λ h. absurd (h refl)))
    | inr e ↦ rw e (
        returns (
          taken-Handed t.self (st.add_block block bytes t.self.store) w.0.step
            (laws.block_fills t.self.store block bytes room)
            (block-Registered bytes block s t w (ground arith))))
  ]

  malloc-Handed :
      (s : Obj (ChunkPool S) Heap)
      → IsConsistent s.self
      → Returns Handed (malloc lib sizeof_chunk st s)
  unfolding malloc system_malloc Handed
  malloc-Handed s v = elim (Bool-cases (st.is_empty s.self.store)) [
    | inl e ↦ rw e (
        Returns-bind (allocate-Registered (st.request s.self.store) s v) λ block t w.
          take_block-Handed (st.request s.self.store) block s t (laws.requests_one s.self.store) w)
    | inr e ↦ rw e (returns (taken-Handed s.self s.self.store v.step e v.free))
  ]

  -- What `get` has filled in, and how the chunk is found again.
  pub record Filled (ck : ℕ) (s : Obj (ChunkPool S) Heap) : Type 0 where
    pub consistent : IsConsistent s.self
    pub found : get_by_id lib sizeof_chunk st (s.env ck).buffer_id s ≡ ok ck s
    pub capacity : (s.env ck).capacity ≡ s.self.buffer_size
    pub empty : (s.env ck).size ≡ 0
    pub data_follows : (s.env ck).buffer ≡ ck + sizeof_chunk
    pub context : (s.env ck).ctx_chunk ≡ ck

  id_of-some :
      (ck id : ℕ) (c : Context) → lookup ck c.chunk_to_id_map ≡ some id → id_of ck c ≡ (id, c)
  unfolding id_of
  id_of-some ck id c e = rw (e, id_of)

  chunk_of-some :
      (id : ℕ) (e : ℕ × ℕ) (c : Context)
      → lookup id c.id_to_chunk_map ≡ some e
      → chunk_of id c ≡ (e, c)
  unfolding chunk_of
  chunk_of-some id e c h = rw (h, chunk_of)

  fill-Filled :
      (ck : ℕ) (con : Option Used) (s : Obj (ChunkPool S) Heap)
      → IsConsistent s.self
      → ck ≢ 0
      → Registered s.self.context ck
      → Returns (λ r t. (r.0 ≡ ck) × Filled ck t) (fill lib sizeof_chunk st ck con s)
  unfolding fill get_by_id
  fill-Filled ck con s v ne r =
      let c : Context = s.self.context in
      let some_chunk : (ck == 0) ≡ false = ground arith in
      rw (some_chunk, id_of-some ck r.id c r.to_id, chunk_of-some r.id (ck, r.mr) c r.to_chunk)
        (returns (
          refl,
          record {
            consistent = record { step = v.step; free = v.free };
            found = ground (arith, r.to_chunk);
            capacity = ground arith;
            empty = ground arith;
            data_follows = ground arith;
            context = ground arith;
          },
        ))

  -- If the pool is consistent and its allocator gives a chunk, `get` hands it out, empty and with
  -- the pool's capacity, and `get` by the chunk's own id finds that chunk; the pool stays
  -- consistent.
  pub get_chunk-Filled :
      (con : Option Used) (s t : Obj (ChunkPool S) Heap) (ck : ℕ)
      → IsConsistent s.self
      → malloc lib sizeof_chunk st s ≡ ok ck t
      → ck ≢ 0
      → Returns (λ r u. (r.0 ≡ ck) × Filled ck u) (get_chunk lib sizeof_chunk st con s)
  unfolding get_chunk Handed
  get_chunk-Filled con s t ck v e ne =
      let h : Handed ck t = Returns-ok ck t (subst (Returns Handed) e (malloc-Handed s v)) in
      rw e (fill-Filled ck con t h.0 ne (h.1 ne))

  -- What the return of a chunk does: the chunk is free, the free chunks stay free, there is one
  -- buffer less in use, and each id stands for the chunk that it stood for.
  pub record Reclaimed (ck : ℕ) (s t : Obj (ChunkPool S) Heap) : Type 0 where
    pub consistent : IsConsistent t.self
    pub freed : contains ck (laws.chunks t.self.store) ≡ true
    pub keeps :
        (q : ℕ)
        → contains q (laws.chunks s.self.store) ≡ true
        → contains q (laws.chunks t.self.store) ≡ true
    pub used : t.self.used_buffers + 1 ≡ s.self.used_buffers
    pub same_ids :
        (i : ℕ) → lookup i t.self.context.id_to_chunk_map ≡ lookup i s.self.context.id_to_chunk_map

  -- A chunk that is known by an id comes back to a consistent pool with a buffer in use. Then it is
  -- free, and the chunks that were free stay so; there is one buffer less in use, if they are fewer
  -- than 2 ^ 64; each id stands for the chunk that it stood for, and the pool is consistent.
  pub reclaim-IsConsistent :
      (ck : ℕ) (used : Used) (s : Obj (ChunkPool S) Heap)
      → IsConsistent s.self
      → Registered s.self.context ck
      → 0 < s.self.used_buffers
      → s.self.used_buffers < 2 ^ 64
      → Returns (λ _ t. Reclaimed ck s t) (reclaim lib sizeof_chunk st ck (some used) s)
  unfolding reclaim
  reclaim-IsConsistent ck used s v r some_used bound =
      returns
        {s = record s {
          self = record s.self {
            store = st.free ck s.self.store;
            used_buffers = (s.self.used_buffers + 2 ^ 64 - 1) % 2 ^ 64;
          };
        }}
        (record {
          consistent = record {
            step = v.step;
            free = λ q h. elim (laws.free_adds _ ck q h) [
              | inl e ↦ subst (Registered s.self.context) (sym e) r
              | inr old ↦ v.free q old
            ];
          };
          freed = laws.free_puts s.self.store ck;
          keeps = λ q h. laws.free_keeps s.self.store ck q h;
          used = ground arith;
          same_ids = λ i. refl;
        })
