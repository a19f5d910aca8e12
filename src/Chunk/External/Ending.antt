-- ===== src/Chunk/External/Ending.antt =====
-- The destructor after a chunk was asked for by an id that is not known.
use hpnl.Base.{ℕ, ◌≡◌, refl, [], ◌∷◌, none, some, ◌==◌, arith, Bool-cases, inl, inr}
use hpnl.Base.StdMap.{StdMap, lookup, subscript-none, assign, lookup-assign_self}
use hpnl.Base.Run.{fault, Returns, returns}
use hpnl.Fabric.{Lib}
use hpnl.Chunk.External.{State, get_by_id, free_all, destruct}

module _ (lib : Lib) where
  free_all-fault :
      (id : ℕ) (m : StdMap ℕ) (s : State) → lookup id m ≡ some 0 → free_all lib m s ≡ fault
  unfolding free_all lookup
  free_all-fault id [] s e = absurd (ground arith)
  free_all-fault id ((k, ck) ∷ rest) s e = elim (Bool-cases (ck == 0)) [
    | inl z ↦ rw z refl
    | inr z ↦ rw z (free_all-fault id rest _ (ground (arith, e)))
  ]

  -- After `get` of an id that is not in the map, the destructor dereferences the null pointer.
  pub get_by_id-destruct :
      (id : ℕ) (s : State)
      → lookup id s.self.buf_map ≡ none
      → Returns (λ _ t. destruct lib t ≡ fault) (get_by_id id s)
  unfolding get_by_id destruct
  get_by_id-destruct id s unknown =
      let none_there = lookup-assign_self id 0 s.self.buf_map in
      returns (
        rw (subscript-none id s.self.buf_map unknown)
          (rw (free_all-fault id (assign id 0 s.self.buf_map) _ none_there) refl))
