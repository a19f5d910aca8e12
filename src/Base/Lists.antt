-- ===== src/Base/Lists.antt =====
-- Lists measured, counted and indexed by native numbers, under the library's names.
use Prim.Native.Nat.{ℕ, zero, suc, ◌+◌, ◌<◌, ◌≤◌}
use mathlib.Core.Path.{◌≡◌, refl, ap}
use mathlib.Core.Logic.{◌≢◌}
use mathlib.Core.Bool.{Bool, true, false, ◌||◌}
use mathlib.Core.List.{List, [], ◌∷◌, ◌++◌}
use mathlib.Core.Option.{Option, none, some}
use native.Mathlib.Omega.{arith}
use hpnl.Base.Tests.{◌==◌, if◌then◌else◌}

module _ {ℓ} {A : Type ℓ} where
  abbrev pub length : List A → ℕ
  length [] = 0
  length (x ∷ xs) = suc (length xs)

  abbrev pub get_elem? : List A → ℕ → Option A
  get_elem? [] i = none
  get_elem? (x ∷ xs) zero = some x
  get_elem? (x ∷ xs) (suc i) = get_elem? xs i

  -- A write out of bounds changes nothing.
  abbrev pub set : List A → ℕ → A → List A
  set [] i v = []
  set (x ∷ xs) zero v = v ∷ xs
  set (x ∷ xs) (suc i) v = x ∷ set xs i v

  abbrev pub take : ℕ → List A → List A
  take zero xs = []
  take (suc n) [] = []
  take (suc n) (x ∷ xs) = x ∷ take n xs

  abbrev pub drop : ℕ → List A → List A
  drop zero xs = xs
  drop (suc n) [] = []
  drop (suc n) (x ∷ xs) = drop n xs

  abbrev pub replicate : ℕ → A → List A
  replicate zero a = []
  replicate (suc n) a = a ∷ replicate n a

  abbrev pub is_empty : List A → Bool
  is_empty [] = true
  is_empty (x ∷ xs) = false

  pub length-append : (xs ys : List A) → length (xs ++ ys) ≡ length xs + length ys
  length-append [] ys = omega arith
  length-append (x ∷ xs) ys = omega (arith, length-append xs ys)

  -- The first `length xs` elements of `xs ++ ys` are `xs`, and the rest is `ys`.
  pub take_left : (xs ys : List A) → take (length xs) (xs ++ ys) ≡ xs
  take_left [] ys = refl
  take_left (x ∷ xs) ys = ap (◌∷◌ x) (take_left xs ys)

  pub drop_left : (xs ys : List A) → drop (length xs) (xs ++ ys) ≡ ys
  drop_left [] ys = refl
  drop_left (x ∷ xs) ys = drop_left xs ys

  pub take_all : (xs : List A) → take (length xs) xs ≡ xs
  take_all [] = refl
  take_all (x ∷ xs) = ap (◌∷◌ x) (take_all xs)

-- How often a number stands in a list.
abbrev pub count : ℕ → List ℕ → ℕ
count h [] = 0
count h (p ∷ rest) = (if p == h then 1 else 0) + count h rest

pub count-append :
    (h : ℕ) (front back : List ℕ) → count h (front ++ back) ≡ count h front + count h back
count-append h [] back = omega arith
count-append h (p ∷ rest) back = omega (arith, count-append h rest back)

abbrev pub contains : ℕ → List ℕ → Bool
contains a [] = false
contains a (x ∷ xs) = (x == a) || contains a xs

-- The number at a place, or 0 past the end.
abbrev pub at_or_0 : List ℕ → ℕ → ℕ
at_or_0 [] i = 0
at_or_0 (x ∷ xs) zero = x
at_or_0 (x ∷ xs) (suc i) = at_or_0 xs i

pub count-set :
    (h : ℕ) (xs : List ℕ) (i v : ℕ)
    → h ≢ 0
    → i < length xs
    → at_or_0 xs i ≡ 0
    → count h (set xs i v) ≡ (if v == h then 1 else 0) + count h xs
count-set h [] i v ne l e = absurd (omega arith)
count-set h (x ∷ xs) zero v ne l e = ground arith
count-set h (x ∷ xs) (suc i) v ne l e = omega (arith, count-set h xs i v ne (omega arith) e)

pub at_or_0-set_ne : (xs : List ℕ) (i j v : ℕ) → i ≢ j → at_or_0 (set xs i v) j ≡ at_or_0 xs j
at_or_0-set_ne [] i j v ne = refl
at_or_0-set_ne (x ∷ xs) zero zero v ne = absurd (ne refl)
at_or_0-set_ne (x ∷ xs) zero (suc j) v ne = refl
at_or_0-set_ne (x ∷ xs) (suc i) zero v ne = refl
at_or_0-set_ne (x ∷ xs) (suc i) (suc j) v ne = at_or_0-set_ne xs i j v (λ e. ne (ap suc e))

pub length-set {ℓ} : {A : Type ℓ} (xs : List A) (i : ℕ) (v : A) → length (set xs i v) ≡ length xs
length-set [] i v = refl
length-set (x ∷ xs) zero v = refl
length-set (x ∷ xs) (suc i) v = ap suc (length-set xs i v)

-- Where only zeros follow the first `n` places, these hold every other number.
pub count-take :
    (h n : ℕ) (xs : List ℕ)
    → h ≢ 0
    → ((j : ℕ) → n ≤ j → at_or_0 xs j ≡ 0)
    → count h (take n xs) ≡ count h xs
count-take h zero [] ne z = refl
count-take h zero (x ∷ xs) ne z =
    ground (arith, z 0, count-take h zero xs ne (λ j l. z (suc j) (omega arith)))
count-take h (suc n) [] ne z = refl
count-take h (suc n) (x ∷ xs) ne z =
    omega (arith, count-take h n xs ne (λ j l. z (suc j) (omega arith)))

pub at_or_0-replicate : (n j : ℕ) → at_or_0 (replicate n 0) j ≡ 0
at_or_0-replicate zero j = refl
at_or_0-replicate (suc n) zero = refl
at_or_0-replicate (suc n) (suc j) = at_or_0-replicate n j

module _ {ℓ} {A : Type ℓ} where
  pub get_elem?-some : (xs : List A) (i : ℕ) → i < length xs → (x : A) × (get_elem? xs i ≡ some x)
  get_elem?-some [] i l = absurd (ground arith)
  get_elem?-some (x ∷ xs) zero l = (x, refl)
  get_elem?-some (x ∷ xs) (suc i) l = get_elem?-some xs i (omega arith)

  pub get_elem?-set_self :
      (xs : List A) (i : ℕ) (v : A) → i < length xs → get_elem? (set xs i v) i ≡ some v
  get_elem?-set_self [] i v l = absurd (ground arith)
  get_elem?-set_self (x ∷ xs) zero v l = refl
  get_elem?-set_self (x ∷ xs) (suc i) v l = get_elem?-set_self xs i v (omega arith)

  pub get_elem?-set_other :
      (xs : List A) (i j : ℕ) (v : A) → i ≢ j → get_elem? (set xs i v) j ≡ get_elem? xs j
  get_elem?-set_other [] i j v ne = refl
  get_elem?-set_other (x ∷ xs) zero zero v ne = absurd (ne refl)
  get_elem?-set_other (x ∷ xs) zero (suc j) v ne = refl
  get_elem?-set_other (x ∷ xs) (suc i) zero v ne = refl
  get_elem?-set_other (x ∷ xs) (suc i) (suc j) v ne =
      get_elem?-set_other xs i j v (λ e. ne (ap suc e))
