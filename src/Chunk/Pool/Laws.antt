-- ===== src/Chunk/Pool/Laws.antt =====
-- What is assumed of the free store of boost::pool.
use hpnl.Base.{ℕ, ◌+◌, ◌*◌, ◌/◌, ◌≤◌, ◌<◌, ◌≡◌, List, contains, true, false, ◌⊎◌}
use hpnl.Chunk.Pool.{Storage}

-- What boost documents of the free store, whose chunks are `chunks`: taking and giving back a chunk
-- moves that chunk, a block has room for a part of `partition` bytes at least, and is cut into such
-- parts from its start.
pub record StorageLaws {S : Type 0} (st : Storage S) (partition : ℕ) : Type 0 where
  pub chunks : S → List ℕ
  pub malloc_takes : (s : S) → st.is_empty s ≡ false → contains (st.malloc s).0 (chunks s) ≡ true
  pub malloc_leaves :
      (s : S) (p : ℕ) → contains p (chunks (st.malloc s).1) ≡ true → contains p (chunks s) ≡ true
  pub free_adds :
      (s : S) (q p : ℕ)
      → contains p (chunks (st.free q s)) ≡ true
      → (p ≡ q) ⊎ (contains p (chunks s) ≡ true)
  pub free_puts : (s : S) (q : ℕ) → contains q (chunks (st.free q s)) ≡ true
  pub free_keeps :
      (s : S) (q p : ℕ) → contains p (chunks s) ≡ true → contains p (chunks (st.free q s)) ≡ true
  pub requests_one : (s : S) → partition ≤ st.request s
  pub block_fills :
      (s : S) (block bytes : ℕ)
      → partition ≤ bytes
      → st.is_empty (st.add_block block bytes s) ≡ false
  pub block_adds :
      (s : S) (block bytes p : ℕ)
      → contains p (chunks (st.add_block block bytes s)) ≡ true
      → (contains p (chunks s) ≡ true)
        ⊎ ((i : ℕ) × (i < bytes / partition) × (p ≡ block + i * partition))
