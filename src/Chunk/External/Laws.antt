-- ===== src/Chunk/External/Laws.antt =====
-- What the operations of `ExternalChunkMgr` do.
use hpnl.Base.{
  ℕ, zero, suc, ◌+◌, ◌*◌, ◌^◌, ◌<◌, ◌≡◌, refl, List, [], ◌∷◌, none, some, arith, true, length,
  subst, is_some, ltb,
}
use native.Mathlib.Nat.{add-zero}
use hpnl.Base.StdMap.{
  lookup, has, assign, lookup-assign, subscript-some, subscript-none, has-lookup,
}
use hpnl.Base.Run.{◌>>=◌, ok, Returns, returns, Returns-bind, Returns-mono}
use hpnl.Fabric.{Call, Lib, Trace}
use hpnl.Chunk.{Used, Heap, ChunkMgrLaws}
use hpnl.Chunk.External.{
  State, ExternalChunkMgr, external_chunk_mgr, get, get_back, get_by_id, reclaim, make, make_all,
  construct,
}

get_back-eq :
    (bufs rest : List ℕ) (ck : ℕ) (u : Used) (s : State)
    → bufs ≡ ck ∷ rest
    → get_back bufs (some u) s ≡ ok (ck, some u) (record s { self = record s.self { bufs = rest } })
unfolding get_back
get_back-eq bufs rest ck u s e = rw e

pub get-cons :
    {ck : ℕ} {rest : List ℕ} (u : Used) (s : State)
    → s.self.bufs ≡ ck ∷ rest
    → get (some u) s ≡ ok (ck, some u) (record s { self = record s.self { bufs = rest } })
unfolding get
get-cons {ck} {rest} u s e = get_back-eq s.self.bufs rest ck u s e

get_back-nil :
    (bufs : List ℕ) (u : Used) (s : State) → bufs ≡ [] → get_back bufs (some u) s ≡ ok (0, some u) s
unfolding get_back
get_back-nil bufs u s e = rw e

pub get-nil : (u : Used) (s : State) → s.self.bufs ≡ [] → get (some u) s ≡ ok (0, some u) s
unfolding get
get-nil u s e = get_back-nil s.self.bufs u s e

get_back-Returns :
    (bufs : List ℕ) (u : Used) (s : State) → Returns (λ _ _. Unit {0}) (get_back bufs (some u) s)
unfolding get_back
get_back-Returns [] u s = returns tt
get_back-Returns (ck ∷ rest) u s = returns tt

-- A connection can use this manager: it never faults when a connection asks.
pub external_chunk_mgr-Laws : ChunkMgrLaws external_chunk_mgr
unfolding external_chunk_mgr get reclaim
external_chunk_mgr-Laws = record {
  get_returns = λ u s. get_back-Returns s.self.bufs u s;
  reclaim_returns = λ ck u s. returns tt;
}

-- Ids below `n` and no others have a chunk; so many chunks are free.
pub record HasIds (n : ℕ) (m : ExternalChunkMgr) : Type 0 where
  pub next : m.next_id ≡ n
  pub free : length m.bufs ≡ n
  pub ids : (i : ℕ) → is_some (lookup i m.buf_map) ≡ ltb i n

module _ (lib : Lib) where
  make-HasIds :
      (n : ℕ) (s : State)
      → n + 1 < 2 ^ 32
      → HasIds n s.self
      → Returns (λ _ t. HasIds (n + 1) t.self) (make lib s)
  unfolding make
  make-HasIds n s h v = returns (record {
    next = ground arith;
    free = ground arith;
    ids = λ i. ground (
      arith,
      v.ids i,
      v.ids s.self.next_id,
      has-lookup s.self.next_id s.self.buf_map,
      lookup-assign s.self.next_id i (lib s.trace Call.new).out s.self.buf_map,
    );
  })

  make_all-HasIds :
      (k n : ℕ) (s : State)
      → n + k < 2 ^ 32
      → HasIds n s.self
      → Returns (λ _ t. HasIds (n + k) t.self) (make_all lib k s)
  unfolding make_all
  make_all-HasIds zero n s h v = rw add-zero (returns v)
  make_all-HasIds (suc k) n s h v = Returns-bind (make-HasIds n s (omega arith) v) λ _ t w.
      Returns-mono (make_all-HasIds k (n + 1) t (omega arith) w)
        λ _ u x. subst (λ m. HasIds m u.self) (omega arith) x

  -- The second constructor makes two chunks for each of the `n` buffers, all of them free, with the
  -- ids below `2 * n`, which has to be below 2 ^ 32, and no other id is known.
  pub construct-HasIds :
      (n size : ℕ) (heap : Heap) (trace : Trace)
      → n * 2 < 2 ^ 32
      → Returns (λ _ t. HasIds (n * 2) t.self) (construct lib n size heap trace)
  unfolding construct lookup
  construct-HasIds n size heap trace h =
      Returns-mono
        (make_all-HasIds (n * 2) 0 _ (omega arith)
          (record { next = refl; free = refl; ids = λ i. ground arith }))
        λ _ t v. subst (λ m. HasIds m t.self) (omega arith) v

-- `get` by an unknown id makes an entry for it, so a chunk with that id that is given to the
-- manager next is not found by it.
pub get_by_id-forgets :
    (id ck : ℕ) (s : State)
    → lookup id s.self.buf_map ≡ none
    → (s.env ck).buffer_id ≡ id
    → Returns (λ found _. found ≡ 0) ((do _ ← get_by_id id; _ ← reclaim ck none; get_by_id id) s)
unfolding get_by_id reclaim
get_by_id-forgets id ck s unknown e =
    let kept : lookup id (assign id 0 s.self.buf_map) ≡ some 0 =
      ground (arith, lookup-assign id id 0 s.self.buf_map) in
    let there : has id (assign id 0 s.self.buf_map) ≡ true =
      ground (arith, has-lookup id (assign id 0 s.self.buf_map), kept) in
    rw (subscript-none id s.self.buf_map unknown, e, there, subscript-some id 0 _ kept)
      (returns refl)
