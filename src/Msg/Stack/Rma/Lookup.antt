-- ===== src/Msg/Stack/Rma/Lookup.antt =====
-- Which chunk is found under an id.
use hpnl.Base.{
  ℕ, ◌≡◌, ◌≢◌, refl, none, some, Bool, true, false, not, ◌&&◌, ◌==◌, if◌then◌else◌, arith,
  Bool-cases, inl, inr, failed, ◌∷◌,
}
use hpnl.Base.StdMap.{
  lookup, assign, subscript-some, subscript-none, lookup-insert, lookup-assign, lookup-erase,
  has-lookup,
}
use hpnl.Base.Run.{Returns, returns, Returns-bind, ◌>>=◌}
use hpnl.Fabric.{Answer, Call, Lib, Obj}
use hpnl.Chunk.{ChunkMgr, Chunk, Heap, new_chunk, update}
use hpnl.Msg.Stack.{MsgStack, World}
use hpnl.Msg.Stack.Rma.{reg_rma_buffer, register, get_rma_chunk, unreg_rma_buffer}

update_at : (h : Heap) (p : ℕ) (c : Chunk) → update h p c p ≡ c
update_at h p c = ground arith

module _ {G : Type 0} (lib : Lib) (mgr : ChunkMgr G) where
  abbrev Stk : Type 0
  Stk = Obj MsgStack (World G)

  -- What `new` gives for the chunk, and what fi_mr_reg answers then.
  abbrev chunk_given : Stk → ℕ
  chunk_given s = (lib s.trace Call.new).out

  abbrev registration : (buffer size : ℕ) → Stk → Answer
  registration buffer size s = lib (Call.new ∷ s.trace) (Call.mr_reg s.self.domain buffer size)

  abbrev accepts : (buffer size : ℕ) → Stk → Bool
  accepts buffer size s = (s.self.initialized && not (buffer == 0)) && not (size == 0)

  -- The outcomes of a registration: it is refused, fi_mr_reg fails and the chunk is freed, or the
  -- chunk holds the buffer and its registration, and is found under the id.
  pub data Registers (buffer size id : ℕ) (s : Stk) (ck : ℕ) (t : Stk) : Type 0 where
    refused : accepts buffer size s ≡ false → ck ≡ 0 → t ≡ s → Registers buffer size id s ck t
    not_registered :
        accepts buffer size s ≡ true
        → failed (registration buffer size s).ret ≡ true
        → ck ≡ 0
        → t.self ≡ s.self
        → t.trace
          ≡ Call.free (chunk_given s) ∷ Call.mr_reg s.self.domain buffer size ∷ Call.new ∷ s.trace
        → Registers buffer size id s ck t
    registered :
        accepts buffer size s ≡ true
        → failed (registration buffer size s).ret ≡ false
        → ck ≡ chunk_given s
        → t.env.mem.heap ck ≡ record new_chunk {
          buffer = buffer;
          capacity = size;
          buffer_id = id;
          mr = (registration buffer size s).out;
        }
        → ((i : ℕ)
            → lookup i t.self.rma_chunk_map
              ≡ (if id == i then some ck else lookup i s.self.rma_chunk_map))
        → Registers buffer size id s ck t

  register-Registers :
      (buffer size id : ℕ) (s : Stk)
      → lookup id s.self.rma_chunk_map ≡ none
      → accepts buffer size s ≡ true
      → Returns (Registers buffer size id s) (register lib mgr buffer size id s)
  unfolding register
  register-Registers buffer size id s new ok =
      let m = s.self.rma_chunk_map in
      let ck = chunk_given s in
      let v : Chunk = record new_chunk { buffer = buffer; capacity = size; buffer_id = id } in
      let old = update s.env.mem.heap ck v in
      elim (Bool-cases (failed (registration buffer size s).ret)) [
        | inl f ↦ rw f (returns (not_registered ok f refl refl refl))
        | inr f ↦ rw f (
            returns (
              registered ok f refl
                (update_at old ck (record v { mr = (registration buffer size s).out }))
                (λ i. ground (arith, new, lookup-insert id i ck m, has-lookup id m))))
      ]

  -- The id is not in the table. Then nothing changes and the null pointer comes back if the stack is
  -- not initialized or the buffer or its size is 0. If fi_mr_reg fails, the null pointer comes back, the
  -- new chunk is freed and the stack is as it was. Otherwise the new chunk comes back: it holds the
  -- buffer, its size, its id and the registration that fi_mr_reg gave; it is found under the id, and
  -- the other ids keep their buffers.
  pub reg_rma_buffer-Registers :
      (buffer size id : ℕ) (s : Stk)
      → lookup id s.self.rma_chunk_map ≡ none
      → Returns (Registers buffer size id s) (reg_rma_buffer lib mgr buffer size id s)
  unfolding reg_rma_buffer
  reg_rma_buffer-Registers buffer size id s new = elim (Bool-cases (accepts buffer size s)) [
    | inl e ↦ rw e (register-Registers buffer size id s new e)
    | inr e ↦ rw e (returns (refused e refl refl))
  ]

  -- Taking away a buffer that is in the table closes its registration, removes its id, and leaves
  -- the other ids alone.
  pub unreg_rma_buffer-erases :
      (id ck : ℕ) (s : Stk)
      → lookup id s.self.rma_chunk_map ≡ some ck
      → ck ≢ 0
      → Returns
          (λ _ t.
            (t.trace ≡ Call.free ck ∷ Call.close (s.env.mem.heap ck).mr ∷ s.trace)
            × ((i : ℕ)
                → lookup i t.self.rma_chunk_map
                  ≡ (if id == i then none else lookup i s.self.rma_chunk_map)))
          (unreg_rma_buffer lib mgr id s)
  unfolding unreg_rma_buffer get_rma_chunk
  unreg_rma_buffer-erases id ck s there ne =
      let some_chunk : (ck == 0) ≡ false = ground arith in
      rw (subscript-some id ck s.self.rma_chunk_map there, some_chunk)
        (returns (refl, λ i. lookup-erase id i s.self.rma_chunk_map))

  -- Under an id that is in the table nothing is registered.
  register_taken :
      (buffer size id v : ℕ) (s : Stk)
      → lookup id s.self.rma_chunk_map ≡ some v
      → Returns
          (λ _ t. lookup id t.self.rma_chunk_map ≡ some v)
          (reg_rma_buffer lib mgr buffer size id s)
  unfolding reg_rma_buffer register
  register_taken buffer size id v s there =
      let m = s.self.rma_chunk_map in
      let out = (lib s.trace Call.new).out in
      let c = Call.mr_reg s.self.domain buffer size in
      elim (Bool-cases ((s.self.initialized && not (buffer == 0)) && not (size == 0))) [
        | inr e ↦ rw e (returns there)
        | inl e ↦ rw e (elim (Bool-cases (failed (lib (Call.new ∷ s.trace) c).ret)) [
          | inl f ↦ rw f (returns there)
          | inr f ↦
              rw f (returns (ground (arith, there, lookup-insert id id out m, has-lookup id m)))
        ])
      ]

  -- Asking for an id that is not in the table makes it unusable: a buffer that is registered under
  -- it next is not found.
  pub get_rma_chunk-forgets :
      (buffer size id : ℕ) (s : Stk)
      → lookup id s.self.rma_chunk_map ≡ none
      → Returns
          (λ found _. found ≡ 0)
          ((do
            _ ← get_rma_chunk lib mgr id
            _ ← reg_rma_buffer lib mgr buffer size id
            get_rma_chunk lib mgr id)
            s)
  unfolding get_rma_chunk
  get_rma_chunk-forgets buffer size id s absent =
      rw (subscript-none id s.self.rma_chunk_map absent) (
        Returns-bind
          (register_taken buffer size id 0
            (record s { self = record s.self { rma_chunk_map = assign id 0 s.self.rma_chunk_map } })
            (ground (arith, lookup-assign id id 0 s.self.rma_chunk_map)))
          λ ck t e. rw (subscript-some id 0 t.self.rma_chunk_map e) (returns refl))
