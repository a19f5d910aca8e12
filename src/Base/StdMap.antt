-- ===== src/Base/StdMap.antt =====
-- std::map with numbers (identifiers, or pointers as addresses) for keys: an association list,
-- kept in ascending order, as an iteration meets the entries.
use Prim.Native.Nat.{ℕ}
use mathlib.Core.Path.{◌≡◌, refl, ap, subst}
use mathlib.Core.Bool.{Bool, true, false}
use mathlib.Core.List.{List, [], ◌∷◌}
use mathlib.Core.Option.{Option, none, some}
use native.Mathlib.Omega.{arith}
use mathlib.Core.Logic.{inl, inr}
use hpnl.Base.Tests.{◌==◌, Bool-cases, ==_iff, ltb, if◌then◌else◌, is_some}

abbrev pub StdMap : Type 0 → Type 0
StdMap V = List (ℕ × V)

module _ {V : Type 0} where
  -- `find`, as the value found.
  unfoldable pub lookup : ℕ → StdMap V → Option V
  lookup key [] = none
  lookup key ((k, value) ∷ rest) = if k == key then some value else lookup key rest

  -- `count(k) != 0`.
  unfoldable pub has : ℕ → StdMap V → Bool
  unfolding lookup
  has k m = is_some (lookup k m)

  -- `m[k] = v`.
  unfoldable pub assign : ℕ → V → StdMap V → StdMap V
  assign k v [] = (k, v) ∷ []
  assign k v ((j, w) ∷ m) =
      if j == k then (k, v) ∷ m else if ltb k j then (k, v) ∷ (j, w) ∷ m else (j, w) ∷ assign k v m

  -- `insert`, which leaves an entry that is there alone.
  unfoldable pub insert : ℕ → V → StdMap V → StdMap V
  unfolding has assign
  insert k v m = if has k m then m else assign k v m

  unfoldable pub erase : ℕ → StdMap V → StdMap V
  erase k [] = []
  erase k ((j, w) ∷ m) = if j == k then erase k m else (j, w) ∷ erase k m

  pub lookup-assign :
      (k i : ℕ) (v : V) (m : StdMap V)
      → lookup i (assign k v m) ≡ (if k == i then some v else lookup i m)
  unfolding lookup assign
  lookup-assign k i v [] = refl
  lookup-assign k i v ((j, w) ∷ m) = ground (arith, lookup-assign k i v m)

  pub lookup-assign_self : (k : ℕ) (v : V) (m : StdMap V) → lookup k (assign k v m) ≡ some v
  lookup-assign_self k v m = ground (arith, lookup-assign k k v m)

  pub lookup-erase :
      (k i : ℕ) (m : StdMap V) → lookup i (erase k m) ≡ (if k == i then none else lookup i m)
  unfolding lookup erase
  lookup-erase k i [] = ground arith
  lookup-erase k i ((j, w) ∷ m) = ground (arith, lookup-erase k i m)

  pub lookup-insert :
      (k i : ℕ) (v : V) (m : StdMap V)
      → lookup i (insert k v m)
        ≡ (if has k m then lookup i m else if k == i then some v else lookup i m)
  unfolding insert
  lookup-insert k i v m = ground (arith, lookup-assign k i v m)

  pub has-lookup : (k : ℕ) (m : StdMap V) → has k m ≡ is_some (lookup k m)
  unfolding has
  has-lookup k m = refl

  pub has-insert :
      (k i : ℕ) (v : V) (m : StdMap V) → has i (insert k v m) ≡ (if k == i then true else has i m)
  has-insert k i v m = elim (Bool-cases (k == i)) [
    | inl e ↦
        subst (λ j. has j (insert k v m) ≡ (if k == j then true else has j m)) ((==_iff k i).0 e)
          (elim (Bool-cases (has k m)) [
            | inl h ↦ ground (
              arith,
              ap is_some (lookup-insert k k v m),
              h,
              has-lookup k m,
              has-lookup k (insert k v m),
            )
            | inr h ↦ ground (
              arith,
              ap is_some (lookup-insert k k v m),
              h,
              has-lookup k m,
              has-lookup k (insert k v m),
            )
          ])
    | inr e ↦
        ground (
          arith,
          ap is_some (lookup-insert k i v m),
          e,
          has-lookup i m,
          has-lookup i (insert k v m),
        )
  ]

  pub has-erase : (k i : ℕ) (m : StdMap V) → has i (erase k m) ≡ (if k == i then false else has i m)
  unfolding has
  has-erase k i m = ground (arith, lookup-erase k i m)

-- `m[k]` where the values are pointers: a missing key is inserted with the null pointer.
unfoldable pub subscript : ℕ → StdMap ℕ → ℕ × StdMap ℕ
unfolding lookup assign
subscript k m = elim (lookup k m) [ some v ↦ (v, m) | none ↦ (0, assign k 0 m) ]

pub subscript-some : (k v : ℕ) (m : StdMap ℕ) → lookup k m ≡ some v → subscript k m ≡ (v, m)
unfolding subscript
subscript-some k v m e = rw (e, subscript)

pub subscript-none : (k : ℕ) (m : StdMap ℕ) → lookup k m ≡ none → subscript k m ≡ (0, assign k 0 m)
unfolding subscript
subscript-none k m e = rw (e, subscript)

pub subscript-lookup :
    (k i : ℕ) (m : StdMap ℕ)
    → lookup i (subscript k m).1
      ≡ (if has k m then lookup i m else if k == i then some 0 else lookup i m)
unfolding subscript has
subscript-lookup k i m = ground (arith, lookup-assign k i 0 m)
