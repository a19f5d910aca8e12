-- ===== src/Event/Thread.antt =====
-- `ThreadWrapper` (src/demultiplexer/ThreadWrapper.h): a thread that calls `entry` over and over.
pub mod Ending
use hpnl.Base.{ℕ, ◌+◌, Bool, true, false, ◌==◌, ◌||◌, if◌then◌else◌, ℤ, negsuc, pos, ◌≡◌}
use hpnl.Base.Run.{M, ◌>>=◌, ◌>>◌, pure}
use hpnl.Fabric.{Call, Lib, Obj, fi, put, self}

-- `handle` is that of the std::thread, 0 if it is not joinable.
pub record ThreadWrapper : Type 0 where
  pub handle : ℕ
  pub done : Bool

unfoldable pub construct : ThreadWrapper
construct = record { handle = 0; done = false }

abbrev pub ThreadM : Type 0 → Type 0
ThreadM A = M (Obj ThreadWrapper (Unit {0})) A

module _ (lib : Lib) where
  -- No caller asks for a detached thread.
  unfoldable pub start : ThreadM (Unit {0})
  start = do a ← fi lib Call.spawn; put λ w. record w { handle = a.out }

  unfoldable pub stop : ThreadM (Unit {0})
  stop = put λ w. record w { done = true }

  unfoldable pub join : ThreadM (Unit {0})
  join = do
    w ← self
    if w.handle == 0
        then (do _ ← fi lib Call.wait_done; pure tt)
        else (do _ ← fi lib (Call.join w.handle); put λ w. record w { handle = 0 })

-- Where `thread_body` stands: before a call of `entry`, in it, at the test of its result, or at its
-- end. `entry` is the number of calls so far.
pub data Place : Type 0 where
  before inside ended : Place
  after : ℤ → Place

pub record Body : Type 0 where
  pub place : Place
  pub done : Bool
  pub entries : ℕ

abbrev pub is_minus_one : ℤ → Bool
is_minus_one (pos n) = false
is_minus_one (negsuc n) = n == 0

-- `done.load() || ret == -1`
unfoldable pub ends : Bool → ℤ → Bool
ends done ret = done || is_minus_one ret

-- A step of the thread. What `entry` returns is open.
pub data Step : Body → Body → Type 0 where
  call :
      {d : Bool} {n : ℕ}
      → Step
          (record { place = before; done = d; entries = n })
          (record { place = inside; done = d; entries = n + 1 })
  return :
      {d : Bool} {n : ℕ} (ret : ℤ)
      → Step
          (record { place = inside; done = d; entries = n })
          (record { place = after ret; done = d; entries = n })
  leave :
      {d : Bool} {n : ℕ} {ret : ℤ}
      → ends d ret ≡ true
      → Step
          (record { place = after ret; done = d; entries = n })
          (record { place = ended; done = d; entries = n })
  repeat :
      {d : Bool} {n : ℕ} {ret : ℤ}
      → ends d ret ≡ false
      → Step
          (record { place = after ret; done = d; entries = n })
          (record { place = before; done = d; entries = n })
