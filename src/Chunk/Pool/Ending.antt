-- ===== src/Chunk/Pool/Ending.antt =====
-- How often the destructor closes the registration of a block.
use hpnl.Base.{
  ℕ, zero, suc, ◌+◌, ◌/◌, ltb, ◌≡◌, ◌≢◌, ◌≤◌, refl, [], ◌∷◌, none, false, ◌==◌, if◌then◌else◌,
  arith, Bool-cases, inl, inr, failed,
}
use hpnl.Base.StdMap.{StdMap, lookup, assign, lookup-assign}
use hpnl.Base.Run.{Returns, returns, Returns-bind, Returns-mono, ◌>>=◌}
use hpnl.Fabric.{Answer, Call, Lib, Obj, Trace, closing}
use hpnl.Fabric.Handles.{closed}
use hpnl.Chunk.{Heap}
use hpnl.Chunk.Pool.{
  ChunkPool, Context, Storage, number_one, number_chunks, allocate, close_all, destruct,
}

-- How many chunks have the registration `h`.
abbrev pub sharers : (h : ℕ) → StdMap (ℕ × ℕ) → ℕ
sharers h [] = 0
sharers h ((id, e) ∷ rest) = (if e.1 == h then 1 else 0) + sharers h rest

-- The ids that are to come are not in the map.
abbrev pub IsFresh : Context → Type 0
IsFresh c = (i : ℕ) → c.id ≤ i → lookup i c.id_to_chunk_map ≡ none

sharers-assign :
    (h k : ℕ) (e : ℕ × ℕ) (m : StdMap (ℕ × ℕ))
    → lookup k m ≡ none
    → sharers h (assign k e m) ≡ (if e.1 == h then 1 else 0) + sharers h m
unfolding assign lookup
sharers-assign h k e [] free = refl
sharers-assign h k e ((j, f) ∷ m) free = elim (Bool-cases (j == k)) [
  | inl z ↦ absurd (ground (arith, free, z))
  | inr z ↦ rw z (elim (Bool-cases (ltb k j)) [
    | inl l ↦ rw l refl
    | inr l ↦ rw l (omega (arith, sharers-assign h k e m (ground (arith, free, z))))
  ])
]

number_chunks-sharers :
    (h chunk_size mr n ptr : ℕ) (c : Context)
    → IsFresh c
    → sharers h (number_chunks chunk_size mr n ptr c).id_to_chunk_map
      ≡ (if mr == h then n else 0) + sharers h c.id_to_chunk_map
unfolding number_chunks number_one
number_chunks-sharers h chunk_size mr zero ptr c fresh = ground arith
number_chunks-sharers h chunk_size mr (suc n) ptr c fresh =
    let next : IsFresh (number_one mr ptr c) = λ i b.
      ground (arith, lookup-assign c.id i (ptr, mr) c.id_to_chunk_map, fresh i (omega arith)) in
    ground (
      arith,
      number_chunks-sharers h chunk_size mr n (ptr + chunk_size) (number_one mr ptr c) next,
      sharers-assign h c.id (ptr, mr) c.id_to_chunk_map (fresh c.id (omega arith)),
    )

closed-closing :
    (h x : ℕ) (t : Trace) → h ≢ 0 → closed h (closing x t) ≡ (if x == h then 1 else 0) + closed h t
unfolding closed closing
closed-closing h x t ne = ground arith

close_all-closed :
    {S : Type 0} (h : ℕ) (m : StdMap (ℕ × ℕ)) (s : Obj (ChunkPool S) Heap)
    → h ≢ 0
    → Returns (λ _ t. closed h t.trace ≡ sharers h m + closed h s.trace) (close_all m s)
unfolding close_all
close_all-closed h [] s ne = returns (omega arith)
close_all-closed h ((id, (ck, mr)) ∷ rest) s ne =
    Returns-mono (close_all-closed h rest (record s { trace = closing mr s.trace }) ne)
      λ _ t e. omega (arith, e, closed-closing h mr s.trace ne)

destruct-closed :
    {S : Type 0} (h : ℕ) (s : Obj (ChunkPool S) Heap)
    → h ≢ 0
    → Returns
        (λ _ t. closed h t.trace ≡ sharers h s.self.context.id_to_chunk_map + closed h s.trace)
        (destruct s)
unfolding destruct
destruct-closed h s ne =
    Returns-bind (close_all-closed h s.self.context.id_to_chunk_map s ne) λ _ t e. returns e

module _ {S : Type 0} (lib : Lib) (sizeof_chunk : ℕ) (st : Storage S) where
  -- The registration of the next block of so many bytes.
  abbrev registration : (bytes : ℕ) → Obj (ChunkPool S) Heap → Answer
  registration bytes s =
      let memory = (lib s.trace (Call.malloc bytes)).out in
      lib (Call.malloc bytes ∷ s.trace) (Call.mr_reg s.self.context.domain memory bytes)

  -- The pool has a domain, its ids to come are not in use, and fi_mr_reg gives the next block a
  -- registration. Then the destructor closes that one registration once for each chunk of the block.
  pub allocate-destruct :
      (bytes : ℕ) (s : Obj (ChunkPool S) Heap)
      → s.self.context.domain ≢ 0
      → IsFresh s.self.context
      → failed (registration bytes s).ret ≡ false
      → (registration bytes s).out ≢ 0
      → Returns
          (λ _ t.
            closed (registration bytes s).out t.trace
            ≡ bytes / (s.self.context.buffer_size + sizeof_chunk)
              + sharers (registration bytes s).out s.self.context.id_to_chunk_map
              + closed (registration bytes s).out s.trace)
          ((do _ ← allocate lib sizeof_chunk st bytes; destruct) s)
  unfolding allocate closed
  allocate-destruct bytes s some_domain fresh good some_mr =
      let real : (s.self.context.domain == 0) ≡ false = ground arith in
      let h = (registration bytes s).out in
      let n = bytes / (s.self.context.buffer_size + sizeof_chunk) in
      let memory = (lib s.trace (Call.malloc bytes)).out in
      let numbered : Obj (ChunkPool S) Heap = record {
        self = record s.self {
          context =
              number_chunks (s.self.context.buffer_size + sizeof_chunk) h n memory s.self.context;
        };
        env = s.env;
        trace = Call.mr_reg s.self.context.domain memory bytes ∷ Call.malloc bytes ∷ s.trace;
      } in
      rw (real, good)
        (Returns-mono (destruct-closed h numbered some_mr) λ _ t e. ground (
          arith,
          e,
          number_chunks-sharers h (s.self.context.buffer_size + sizeof_chunk) h n memory
              s.self.context fresh,
        ))
