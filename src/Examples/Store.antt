-- ===== src/Examples/Store.antt =====
-- A free store as a list of the free chunks, with parts of 16 bytes: the laws of a store can hold.
use hpnl.Base.{
  ℕ, zero, suc, ◌+◌, ◌*◌, ◌/◌, ◌≤◌, ◌<◌, ◌≡◌, refl, List, [], ◌∷◌, true, false, arith, contains,
  ◌⊎◌, inl, inr, is_empty,
}
use hpnl.Chunk.Pool.{Storage}
use hpnl.Chunk.Pool.Laws.{StorageLaws}

abbrev pop : List ℕ → ℕ × List ℕ
pop [] = (0, [])
pop (p ∷ s) = (p, s)

-- The first `n` parts from `p` on, in front of the free chunks.
abbrev parts : ℕ → ℕ → List ℕ → List ℕ
parts zero p s = s
parts (suc n) p s = p ∷ parts n (p + 16) s

abbrev pub store : Storage (List ℕ)
store = record {
  is_empty = is_empty;
  malloc = pop;
  free = λ p s. p ∷ s;
  request = λ s. 32;
  add_block = λ block bytes s. parts (bytes / 16) block s;
}

pub pop_takes : (s : List ℕ) → is_empty s ≡ false → contains (pop s).0 s ≡ true
pop_takes [] h = ground arith
pop_takes (p ∷ s) h = ground arith

pub pop_leaves : (s : List ℕ) (p : ℕ) → contains p (pop s).1 ≡ true → contains p s ≡ true
pop_leaves [] p h = h
pop_leaves (q ∷ s) p h = ground arith

pub push_adds : (s : List ℕ) (q p : ℕ) → contains p (q ∷ s) ≡ true → (p ≡ q) ⊎ (contains p s ≡ true)
push_adds s q p h = ground arith

pub parts_fill : (n p : ℕ) (s : List ℕ) → 1 ≤ n → is_empty (parts n p s) ≡ false
parts_fill zero p s h = absurd (omega arith)
parts_fill (suc n) p s h = refl

-- A chunk among the parts is a part, or was free before.
pub parts_add :
    (n block p : ℕ) (s : List ℕ)
    → contains p (parts n block s) ≡ true
    → (contains p s ≡ true) ⊎ ((i : ℕ) × (i < n) × (p ≡ block + i * 16))
parts_add zero block p s h = inl h
parts_add (suc n) block p s h = elim (push_adds (parts n (block + 16) s) block p h) [
  | inl e ↦ inr (0, omega arith, omega (arith, e))
  | inr h ↦ elim (parts_add n (block + 16) p s h) [
    | inl old ↦ inl old
    | inr (i, l, e) ↦ inr (suc i, omega (arith, l), omega (arith, e))
  ]
]

abbrev pub store-Laws : StorageLaws store 16
store-Laws = record {
  chunks = λ s. s;
  malloc_takes = pop_takes;
  malloc_leaves = pop_leaves;
  free_adds = λ s q p h. push_adds s q p h;
  free_puts = λ s q. ground arith;
  free_keeps = λ s q p h. ground arith;
  requests_one = λ s. omega arith;
  block_fills = λ s block bytes l. parts_fill (bytes / 16) block s (omega arith);
  block_adds = λ s block bytes p h. parts_add (bytes / 16) block p s h;
}
