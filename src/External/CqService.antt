-- ===== src/External/CqService.antt =====
-- `ExternalCqService` (src/external_service/ExternalCqService.h).
pub mod Broken
use hpnl.Base.{
  ℕ, zero, suc, ◌+◌, List, Option, none, some, Bool, false, ◌==◌, if◌then◌else◌, ℤ, pos, negsuc,
  success, minus_one, get_elem?, set, replicate,
}
use hpnl.Base.Run.{ok, fault, M, ◌>>=◌, ◌>>◌, pure, and_then}
use hpnl.Fabric.{Lib, Obj, put, self}
use hpnl.Chunk.{ChunkMgr}
use hpnl.Event.Completion.{Entry}
use hpnl.External.Completion.{ExternalCqDemultiplexer, Outcome, Report}
use hpnl.External.Completion
use hpnl.Msg.Connection.Io.{Infos}
use hpnl.Msg.Stack.{MsgStack, World}
use hpnl.Msg.Stack.Table

-- A pointer of the array: null, an object, or an object that has been deleted.
pub data Slot : Type 0 where
  null : Slot
  live : ExternalCqDemultiplexer → Slot
  dangling : Slot

-- `worker_num` is that of the `ExternalEqService`, whose stack it shares.
pub record ExternalCqService : Type 0 where
  pub worker_num : ℕ
  pub stack : MsgStack
  pub cq_demultiplexer : List Slot

abbrev max_workers : ℕ
max_workers = 10

unfoldable pub construct : (worker_num : ℕ) (stack : MsgStack) → ExternalCqService
construct worker_num stack = record {
  worker_num = worker_num;
  stack = stack;
  cq_demultiplexer = replicate max_workers null;
}

abbrev pub CqServiceM : Type 0 → Type 0 → Type 0
CqServiceM G A = M (Obj ExternalCqService (World G)) A

abbrev pub is_minus_one : ℤ → Bool
is_minus_one (pos n) = false
is_minus_one (negsuc n) = n == 0

module _ {G : Type 0} where
  -- `cq_demultiplexer[i]`
  unfoldable slot_at : Option Slot → CqServiceM G Slot
  slot_at none s = fault
  slot_at (some x) s = ok x s

  -- `delete` of a pointer: once.
  unfoldable delete_slot : Slot → CqServiceM G Slot
  delete_slot null s = ok null s
  delete_slot (live d) s = ok dangling s
  delete_slot dangling s = fault

  -- The loops that delete `n` demultiplexers from number `i` on.
  unfoldable pub delete_from : (n i : ℕ) → CqServiceM G (Unit {0})
  unfolding slot_at delete_slot
  delete_from zero i = pure tt
  delete_from (suc n) i = do
    v ← self
    x ← slot_at (get_elem? v.cq_demultiplexer i)
    y ← delete_slot x
    put λ v. record v { cq_demultiplexer = set v.cq_demultiplexer i y }
    delete_from n (i + 1)

  -- The destructor.
  unfoldable pub destruct : CqServiceM G (Unit {0})
  unfolding delete_from
  destruct = do v ← self; delete_from v.worker_num 0

  queue_at : Option ℕ → CqServiceM G ℕ
  queue_at none s = fault
  queue_at (some q) s = ok q s

module _ {G : Type 0} (lib : Lib) where
  -- A new demultiplexer in place `i`, and its `init`.
  unfoldable pub open_slot : (i q junk : ℕ) → CqServiceM G ℤ
  unfolding Completion.construct Completion.init
  open_slot i q junk s =
      and_then
        (Completion.init lib (record {
          self = Completion.construct s.self.stack q junk;
          env = s.env;
          trace = s.trace;
        }))
        (λ r t. ok r (record {
          self = record s.self { cq_demultiplexer = set s.self.cq_demultiplexer i (live t.self) };
          env = t.env;
          trace = t.trace;
        }))

  -- The loop of `init`, at round `i` with `n` rounds to go, and what follows it.
  unfoldable pub open_from : (n i junk : ℕ) → CqServiceM G ℤ
  unfolding open_slot delete_from queue_at
  open_from zero i junk = pure success
  open_from (suc n) i junk = do
    v ← self
    q ← queue_at (get_elem? v.stack.cqs i)
    r ← open_slot i q junk
    if is_minus_one r then (do delete_from (i + 1) 0; pure minus_one) else open_from n (i + 1) junk

  unfoldable pub init : (junk : ℕ) → CqServiceM G ℤ
  unfolding open_from
  init junk = do v ← self; open_from v.worker_num 0 junk

  with_slot :
      (read_entry : ℕ → Entry) (first second : ℕ) (old : Report) (num : ℕ)
      → Slot
      → CqServiceM G Outcome
  unfolding Completion.wait_event
  with_slot read_entry first second old num (live d) s =
      and_then
        (Completion.wait_event lib read_entry first second old
          (record { self = d; env = s.env; trace = s.trace }))
        (λ r t. ok r (record {
          self = record s.self { cq_demultiplexer = set s.self.cq_demultiplexer num (live t.self) };
          env = t.env;
          trace = t.trace;
        }))
  with_slot read_entry first second old num other s = fault

  unfoldable pub wait_cq_event :
      (read_entry : ℕ → Entry) (num first second : ℕ) (old : Report) → CqServiceM G Outcome
  unfolding slot_at with_slot
  wait_cq_event read_entry num first second old = do
    v ← self
    x ← slot_at (get_elem? v.cq_demultiplexer num)
    with_slot read_entry first second old num x

module _ {G : Type 0} (lib : Lib) (mgr : ChunkMgr G) (infos : Infos) where
  unfoldable pub get_connection : (eq : ℕ) → CqServiceM G ℕ
  unfolding Table.get_connection
  get_connection eq s =
      and_then
        (Table.get_connection lib mgr infos eq
          (record { self = s.self.stack; env = s.env; trace = s.trace }))
        (λ p t.
          ok p (record { self = record s.self { stack = t.self }; env = t.env; trace = t.trace }))
