-- ===== src/Chunk/Pool/Ids.antt =====
-- The ids that `PoolAllocator::malloc` gives to the chunks of a block.
use hpnl.Base.{ℕ, zero, suc, ◌+◌, ◌*◌, ◌<◌, ◌≡◌, refl, some, arith, ◌∙◌, subst, ap, ℕ_discrete}
use hpnl.Base.StdMap.{lookup, lookup-assign}
use hpnl.Chunk.Pool.{Context, number_one, number_chunks}

-- A chunk with an id, by which both maps know it.
pub record Registered (c : Context) (p : ℕ) : Type 0 where
  pub id : ℕ
  pub mr : ℕ
  pub below : id < c.id
  pub to_id : lookup p c.chunk_to_id_map ≡ some id
  pub to_chunk : lookup id c.id_to_chunk_map ≡ some (p, mr)

number_one-Registered : (mr ptr : ℕ) (c : Context) → Registered (number_one mr ptr c) ptr
unfolding number_one
number_one-Registered mr ptr c = record {
  id = c.id;
  mr = mr;
  below = omega arith;
  to_id = ground (arith, lookup-assign ptr ptr c.id c.chunk_to_id_map);
  to_chunk = ground (arith, lookup-assign c.id c.id (ptr, mr) c.id_to_chunk_map);
}

-- A chunk that is numbered again is known by its new id.
number_one-keeps :
    (mr ptr p : ℕ) (c : Context) → Registered c p → Registered (number_one mr ptr c) p
unfolding number_one
number_one-keeps mr ptr p c r = elim (ℕ_discrete ptr p) [
  | yes same ↦ subst (Registered (number_one mr ptr c)) same (number_one-Registered mr ptr c)
  | no other ↦ record {
    id = r.id;
    mr = r.mr;
    below = omega (arith, r.below);
    to_id = ground (arith, lookup-assign ptr p c.id c.chunk_to_id_map, r.to_id);
    to_chunk =
        ground (arith, lookup-assign c.id r.id (ptr, mr) c.id_to_chunk_map, r.to_chunk, r.below);
  }
]

module _ (chunk_size mr : ℕ) where
  pub number_chunks-buffer_size :
      (n ptr : ℕ) (c : Context) → (number_chunks chunk_size mr n ptr c).buffer_size ≡ c.buffer_size
  unfolding number_chunks number_one
  number_chunks-buffer_size zero ptr c = refl
  number_chunks-buffer_size (suc n) ptr c = number_chunks-buffer_size n (ptr + chunk_size) _

module _ (chunk_size mr : ℕ) where
  pub number_chunks-keeps :
      (n ptr p : ℕ) (c : Context)
      → Registered c p
      → Registered (number_chunks chunk_size mr n ptr c) p
  unfolding number_chunks
  number_chunks-keeps zero ptr p c r = r
  number_chunks-keeps (suc n) ptr p c r =
      number_chunks-keeps n (ptr + chunk_size) p _ (number_one-keeps mr ptr p c r)

  pub number_chunks-Registered :
      (n i ptr : ℕ) (c : Context)
      → i < n
      → Registered (number_chunks chunk_size mr n ptr c) (ptr + i * chunk_size)
  unfolding number_chunks
  number_chunks-Registered zero i ptr c h = absurd (omega arith)
  number_chunks-Registered (suc n) zero ptr c h =
      let here : ptr ≡ ptr + 0 * chunk_size = omega arith in
      subst (Registered _) here
        (number_chunks-keeps n (ptr + chunk_size) ptr _ (number_one-Registered mr ptr c))
  number_chunks-Registered (suc n) (suc i) ptr c h =
      let there : ptr + chunk_size + i * chunk_size ≡ ptr + suc i * chunk_size = omega arith in
      subst (Registered _) there (number_chunks-Registered n i (ptr + chunk_size) _ (omega arith))

  id_to_chunk-below :
      (n ptr i : ℕ) (c : Context)
      → i < c.id
      → lookup i (number_chunks chunk_size mr n ptr c).id_to_chunk_map ≡ lookup i c.id_to_chunk_map
  unfolding number_chunks number_one
  id_to_chunk-below zero ptr i c h = refl
  id_to_chunk-below (suc n) ptr i c h =
      id_to_chunk-below n (ptr + chunk_size) i (number_one mr ptr c) (omega arith)
      ∙ ground (arith, lookup-assign c.id i (ptr, mr) c.id_to_chunk_map)

  -- The chunks of a block get consecutive ids, in the order of their addresses, from the first id
  -- that is not given yet.
  pub number_chunks-ids :
      (n i ptr : ℕ) (c : Context)
      → i < n
      → lookup (c.id + i) (number_chunks chunk_size mr n ptr c).id_to_chunk_map
        ≡ some (ptr + i * chunk_size, mr)
  unfolding number_chunks number_one
  number_chunks-ids zero i ptr c h = absurd (omega arith)
  number_chunks-ids (suc n) zero ptr c h =
      id_to_chunk-below n (ptr + chunk_size) (c.id + 0) (number_one mr ptr c) (omega arith)
      ∙ ground (arith, lookup-assign c.id (c.id + 0) (ptr, mr) c.id_to_chunk_map)
  number_chunks-ids (suc n) (suc i) ptr c h =
      ap (λ k. lookup k (number_chunks chunk_size mr (suc n) ptr c).id_to_chunk_map) (omega arith)
      ∙ number_chunks-ids n i (ptr + chunk_size) (number_one mr ptr c) (omega arith)
      ∙ ap (λ a. some (a, mr)) (omega arith)
