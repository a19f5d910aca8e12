-- ===== src/Java/Binding.antt =====
-- What the native methods of the services of the Java binding share (java/native).
pub mod Lifted
use hpnl.Base.{ℕ, List, ◌∷◌, Option, none, some, Bool, true, false, ◌==◌, ℤ, pos, negsuc}
use hpnl.Base.Run.{ok, fault, M, ◌>>=◌, ◌>>◌, pure, require, and_then}
use hpnl.Fabric.{Lib, Obj, self, put}
use hpnl.Java.MemPool.{MemPool, MemoryService, refill}

-- The methods of the Java objects that the native methods call, with what they are given but for
-- the texts of addresses. An exception in one of them is not followed.
pub data Upcall : Type 0 where
  -- of EqService: (eq, con, index, dest_port, src_port), (eq, id), (eq, event, block), (eq)
  establish_connection : ℕ → ℕ → ℕ → ℕ → ℕ → Upcall
  push_send_buffer : ℕ → ℕ → Upcall
  handle_eq_callback : ℕ → ℤ → ℕ → Upcall
  close_connection : ℕ → Upcall
  -- of CqService: (eq, event, buffer id, size)
  handle_cq_callback : ℕ → ℤ → ℕ → ℕ → Upcall
  -- of RdmService: (con), (con, id), (con, event, buffer id, size)
  establish_peer : ℕ → Upcall
  push_peer_buffer : ℕ → ℕ → Upcall
  handle_callback : ℕ → ℤ → ℕ → ℕ → Upcall

-- A Java object with its native service: `nativeHandle`, `bufferPool`, which a CqService does not
-- have, and the calls that the object got, newest first.
pub record Binding (S : Type 0) : Type 0 where
  pub native_handle : Option S
  pub buffer_pool : Option MemPool
  pub upcalls : List Upcall

-- Codes as `==` compares them.
abbrev pub is_code : ℤ → ℤ → Bool
is_code (pos m) (pos n) = m == n
is_code (negsuc m) (negsuc n) = m == n
is_code m n = false

abbrev pub BindingM : Type 0 → Type 0 → Type 0 → Type 0
BindingM S E A = M (Obj (Binding S) E) A

module _ {S E : Type 0} where
  with_service : {A : Type 0} → Option S → M (Obj S E) A → BindingM S E A
  with_service none m s = fault
  with_service (some v) m s =
      and_then (m (record { self = v; env = s.env; trace = s.trace })) (λ a t. ok a (record {
        self = record s.self { native_handle = some t.self };
        env = t.env;
        trace = t.trace;
      }))

  -- A method of the service, which is to be there.
  unfoldable pub on_service : {A : Type 0} → M (Obj S E) A → BindingM S E A
  unfolding with_service
  on_service m s = with_service s.self.native_handle m s

  -- `CallVoidMethod`
  abbrev pub call : Upcall → BindingM S E (Unit {0})
  call u = put λ b. record b { upcalls = u ∷ b.upcalls }

  keep_pool : Option MemPool → BindingM S E Bool
  keep_pool none = pure false
  keep_pool (some p) = do put λ b. record b { buffer_pool = some p }; pure true

  refill_with : Lib → MemoryService S E → (rounds : ℕ) → Option MemPool → BindingM S E Bool
  unfolding refill on_service keep_pool
  refill_with lib service rounds none = do
    enough ← on_service service.is_buffer_enough
    require enough
    pure true
  refill_with lib service rounds (some p) = do
    found ← on_service (refill lib service rounds p)
    keep_pool found

  -- The loop that waits for buffers: false where it has not come to its end. Without a pool
  -- it is a fault to call for more.
  unfoldable pub refill_pool : Lib → MemoryService S E → (rounds : ℕ) → BindingM S E Bool
  unfolding refill_with
  refill_pool lib service rounds = do b ← self; refill_with lib service rounds b.buffer_pool
