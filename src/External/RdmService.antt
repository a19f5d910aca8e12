-- ===== src/External/RdmService.antt =====
-- `ExternalRdmService` (src/external_service/ExternalRdmService.cc).
pub mod Buffers
use hpnl.Base.{ℕ, ◌*◌, Option, none, some, Bool, true, leb, ℤ, success}
use hpnl.Base.Run.{ok, fault, M, ◌>>=◌, ◌>>◌, pure, and_then}
use hpnl.Fabric.{Call, Lib, Obj, fi, self}
use hpnl.Chunk.{Chunk, Mem, Heap, ChunkMgr, new_chunk, update, with_mgr}
use hpnl.Event.Completion.{Entry}
use hpnl.Rdm.Connection.{Names}
use hpnl.Rdm.External.{ExternalRdmCqDemultiplexer, Report}
use hpnl.Rdm.External
use hpnl.Rdm.Stack.{RdmStack, World}
use hpnl.Rdm.Stack

-- `demultiplexer` has hold of the stack, and both are there once `init` has run. The chunk manager
-- is always there.
pub record ExternalRdmService : Type 0 where
  pub demultiplexer : Option ExternalRdmCqDemultiplexer
  pub buffer_num : ℕ
  pub is_server : Bool

unfoldable pub construct : (buffer_num : ℕ) (is_server : Bool) → ExternalRdmService
construct buffer_num is_server = record {
  demultiplexer = none;
  buffer_num = buffer_num;
  is_server = is_server;
}

abbrev pub RdmServiceM : Type 0 → Type 0 → Type 0
RdmServiceM G A = M (Obj ExternalRdmService (World G)) A

module _ {G A : Type 0} where
  -- A method of the stack, which is to be there.
  unfoldable with_stack :
      Option ExternalRdmCqDemultiplexer → M (Obj RdmStack (World G)) A → RdmServiceM G A
  with_stack none m s = fault
  with_stack (some d) m s =
      and_then (m (record { self = d.stack; env = s.env; trace = s.trace })) (λ a t. ok a (record {
        self = record s.self { demultiplexer = some (record d { stack = t.self }) };
        env = t.env;
        trace = t.trace;
      }))

  unfoldable with_demultiplexer :
      Option ExternalRdmCqDemultiplexer
      → M (Obj ExternalRdmCqDemultiplexer Heap) A
      → RdmServiceM G A
  with_demultiplexer none m s = fault
  with_demultiplexer (some d) m s =
      and_then (m (record { self = d; env = s.env.mem.heap; trace = s.trace })) (λ a t.
        ok a (record {
          self = record s.self { demultiplexer = some t.self };
          env = record s.env { mem = record s.env.mem { heap = t.env } };
          trace = t.trace;
        }))

module _ {G : Type 0} (lib : Lib) (mgr : ChunkMgr G) (names : Names) where
  -- The results of both calls of `init` are dropped.
  unfoldable pub init : (junk : ℕ) → RdmServiceM G ℤ
  unfolding Stack.construct Stack.init External.construct External.init with_demultiplexer
  init junk s =
      and_then
        (Stack.init lib mgr names (record {
          self = Stack.construct s.self.buffer_num s.self.is_server true;
          env = s.env;
          trace = s.trace;
        }))
        (λ _ t.
          and_then
            (with_demultiplexer (some (External.construct t.self junk)) (External.init lib)
              (record { self = s.self; env = t.env; trace = t.trace }))
            (λ _ u. ok success u))

  -- The destructor, but for the chunk manager's.
  unfoldable pub destruct : RdmServiceM G (Unit {0})
  unfolding with_stack Stack.destruct
  destruct = do
    v ← self
    elim v.demultiplexer [
      | none ↦ pure tt
      | some d ↦ with_stack (some d) (Stack.destruct lib mgr names)
    ]
    λ s. ok tt (record s { self = record s.self { demultiplexer = none } })

  -- The connection, or the null pointer.
  unfoldable pub listen : (ip port : ℕ) → RdmServiceM G ℕ
  unfolding with_stack Stack.bind
  listen ip port = do v ← self; with_stack v.demultiplexer (Stack.bind lib mgr names ip port true)

  unfoldable pub get_con : (ip port : ℕ) → RdmServiceM G ℕ
  unfolding with_stack Stack.get_con
  get_con ip port = do
    v ← self
    with_stack v.demultiplexer (Stack.get_con lib mgr names ip port true)

  unfoldable pub wait_event :
      (read_entry : ℕ → Entry) (first second : ℕ) (old : Report) → RdmServiceM G Report
  unfolding with_demultiplexer External.wait_event
  wait_event read_entry first second old = do
    v ← self
    with_demultiplexer v.demultiplexer (External.wait_event lib read_entry first second old)

  -- A method of the chunk manager.
  abbrev pub on_mgr : {A : Type 0} → M (Obj ExternalRdmService (Mem G)) A → RdmServiceM G A
  on_mgr m s =
      and_then (m (record { self = s.self; env = s.env.mem; trace = s.trace })) (λ a t.
        ok a (record { self = t.self; env = record s.env { mem = t.env }; trace = t.trace }))

  unfoldable pub set_buffer : (buffer size id : ℕ) → RdmServiceM G (Unit {0})
  set_buffer buffer size id = do
    ck ← fi lib Call.new
    on_mgr (
        place ck.out (record new_chunk {
          buffer = buffer;
          buffer_id = id;
          capacity = size;
          ctx_chunk = ck.out;
        }))
    _ ← on_mgr (with_mgr (mgr.reclaim ck.out none))
    pure tt
    where
      place : ℕ → Chunk → M (Obj ExternalRdmService (Mem G)) (Unit {0})
      place p v s = ok tt (record s { env = record s.env { heap = update s.env.heap p v } })

  -- `2*buffer_num` is a product of ints: it is meant for numbers below 2 ^ 30.
  unfoldable pub is_buffer_enough : RdmServiceM G Bool
  is_buffer_enough = do
    v ← self
    n ← on_mgr (with_mgr mgr.free_size)
    pure (leb (2 * v.buffer_num) n)
