-- ===== src/Fabric/Handles.antt =====
-- How often the calls of a trace have opened a handle and given it back.
use hpnl.Base.{
  ℕ, ◌+◌, ◌≡◌, ◌≢◌, true, false, List, [], ◌∷◌, ◌==◌, if◌then◌else◌, count, arith, failed, subst,
}
use hpnl.Fabric.{Call, Answer, Trace, Lib, closing, freeing}

-- The handle that an answer makes the caller's, or the null pointer. `fi_allocinfo` has no return
-- code but the pointer.
abbrev pub opens : Call → Answer → ℕ
opens Call.allocinfo a = a.out
opens (Call.getinfo _ _ _ _) a = if failed a.ret then 0 else a.out
opens (Call.open_fabric _) a = if failed a.ret then 0 else a.out
opens (Call.eq_open _) a = if failed a.ret then 0 else a.out
opens (Call.open_domain _ _) a = if failed a.ret then 0 else a.out
opens (Call.cq_open _) a = if failed a.ret then 0 else a.out
opens (Call.passive_ep _ _) a = if failed a.ret then 0 else a.out
opens (Call.endpoint _ _) a = if failed a.ret then 0 else a.out
opens (Call.mr_reg _ _ _) a = if failed a.ret then 0 else a.out
opens (Call.av_open _) a = if failed a.ret then 0 else a.out
opens _ a = 0

-- The handle that a call gives back, or the null pointer.
abbrev pub closes : Call → ℕ
closes (Call.close h) = h
closes (Call.freeinfo h) = h
closes _ = 0

-- How often the handle `h` was opened, by calls that succeeded.
unfoldable pub opened : Lib → ℕ → Trace → ℕ
opened lib h [] = 0
opened lib h (c ∷ t) = (if opens c (lib t c) == h then 1 else 0) + opened lib h t

-- How often the handle `h` was given back.
unfoldable pub closed : ℕ → Trace → ℕ
closed h [] = 0
closed h (c ∷ t) = (if closes c == h then 1 else 0) + closed h t

-- Every handle was opened as often as it was given back, but for those in `held`, which are open
-- once for each time that they stand there.
pub record Accounted (lib : Lib) (t : Trace) (held : List ℕ) : Type 0 where
  pub balance : (h : ℕ) → h ≢ 0 → opened lib h t ≡ closed h t + count h held

module _ {lib : Lib} {t : Trace} {held : List ℕ} where
  -- A call that gives nothing back.
  pub Accounted-call :
      (c : Call)
      → closes c ≡ 0
      → Accounted lib t held
      → Accounted lib (c ∷ t) (opens c (lib t c) ∷ held)
  unfolding opened closed
  Accounted-call c e k = record { balance = λ h ne. ground (arith, k.balance h ne) }

  -- A call that opens nothing, either.
  pub Accounted-skip :
      (c : Call)
      → closes c ≡ 0
      → opens c (lib t c) ≡ 0
      → Accounted lib t held
      → Accounted lib (c ∷ t) held
  unfolding opened closed
  Accounted-skip c e o k = record { balance = λ h ne. ground (arith, k.balance h ne) }

  -- A call that opens a handle when it succeeds.
  pub Accounted-fail :
      (c : Call)
      → closes c ≡ 0
      → opens c (lib t c) ≡ (if failed (lib t c).ret then 0 else (lib t c).out)
      → failed (lib t c).ret ≡ true
      → Accounted lib t held
      → Accounted lib (c ∷ t) held
  Accounted-fail c e o f k = Accounted-skip c e (ground arith) k

  pub Accounted-open :
      (c : Call)
      → closes c ≡ 0
      → opens c (lib t c) ≡ (if failed (lib t c).ret then 0 else (lib t c).out)
      → failed (lib t c).ret ≡ false
      → Accounted lib t held
      → Accounted lib (c ∷ t) ((lib t c).out ∷ held)
  Accounted-open c e o f k =
      let new : opens c (lib t c) ≡ (lib t c).out = ground arith in
      subst (λ p. Accounted lib (c ∷ t) (p ∷ held)) new (Accounted-call c e k)

  -- The null pointer does not count.
  pub Accounted-null : {p : ℕ} → p ≡ 0 → Accounted lib t held → Accounted lib t (p ∷ held)
  Accounted-null e k = record { balance = λ h ne. ground (arith, k.balance h ne) }

-- The order of the handles does not matter, nor do null pointers.
pub Accounted-perm :
    {lib : Lib} {t : Trace} {held : List ℕ} (other : List ℕ)
    → ((h : ℕ) → h ≢ 0 → count h held ≡ count h other)
    → Accounted lib t held
    → Accounted lib t other
Accounted-perm other e k = record { balance = λ h ne. omega (arith, k.balance h ne, e h ne) }

module _ {lib : Lib} {t : Trace} {p : ℕ} {held : List ℕ} (k : Accounted lib t (p ∷ held)) where
  pub closing-Accounted : Accounted lib (closing p t) held
  unfolding closing opened closed
  closing-Accounted = record { balance = λ h ne. ground (arith, k.balance h ne) }

  pub freeing-Accounted : Accounted lib (freeing p t) held
  unfolding freeing opened closed
  freeing-Accounted = record { balance = λ h ne. ground (arith, k.balance h ne) }

  -- fi_freeinfo of a pointer that is not tested.
  pub Accounted-freeinfo : Accounted lib (Call.freeinfo p ∷ t) held
  unfolding opened closed
  Accounted-freeinfo = record { balance = λ h ne. ground (arith, k.balance h ne) }
