-- ===== src/External/EqService.antt =====
-- `ExternalEqService` (src/external_service/ExternalEqService.cc).
pub mod Lifted
use hpnl.Base.{
  ℕ, ◌*◌, Option, none, some, Bool, true, false, ◌==◌, leb, if◌then◌else◌, ℤ, pos, negsuc, failed,
  success, minus_one,
}
use hpnl.Base.Run.{ok, fault, M, ◌>>=◌, ◌>>◌, pure, and_then}
use hpnl.Fabric.{Call, Lib, Obj, fi, put, self}
use hpnl.Chunk.{Chunk, Mem, ChunkMgr, new_chunk, update, with_mgr}
use hpnl.Event.Handler.{Event}
use hpnl.External.Events.{ExternalEqDemultiplexer, Report}
use hpnl.External.Events
use hpnl.Msg.Connection.Io.{Infos}
use hpnl.Msg.Stack.{MsgStack, World}
use hpnl.Msg
use hpnl.Msg.Stack.Rma
use hpnl.Msg.Stack.Table

-- The stack and the demultiplexer, which has hold of it, come and go together, but for a time within
-- `init`. The chunk manager is always there.
pub record ExternalEqService : Type 0 where
  pub eq_demultiplexer : Option ExternalEqDemultiplexer
  pub worker_num : ℕ
  pub buffer_num : ℕ
  pub is_server : Bool

unfoldable pub construct : (worker_num buffer_num : ℕ) (is_server : Bool) → ExternalEqService
construct worker_num buffer_num is_server = record {
  eq_demultiplexer = none;
  worker_num = worker_num;
  buffer_num = buffer_num;
  is_server = is_server;
}

abbrev pub EqServiceM : Type 0 → Type 0 → Type 0
EqServiceM G A = M (Obj ExternalEqService (World G)) A

abbrev is_minus_one : ℤ → Bool
is_minus_one (pos n) = false
is_minus_one (negsuc n) = n == 0

module _ {G A : Type 0} where
  -- A method of the demultiplexer, and of the stack, which are to be there.
  unfoldable with_demultiplexer :
      Option ExternalEqDemultiplexer → M (Obj ExternalEqDemultiplexer (World G)) A → EqServiceM G A
  with_demultiplexer none m s = fault
  with_demultiplexer (some d) m s =
      and_then (m (record { self = d; env = s.env; trace = s.trace })) (λ a t. ok a (record {
        self = record s.self { eq_demultiplexer = some t.self };
        env = t.env;
        trace = t.trace;
      }))

  unfoldable pub on_demultiplexer : M (Obj ExternalEqDemultiplexer (World G)) A → EqServiceM G A
  unfolding with_demultiplexer
  on_demultiplexer m s = with_demultiplexer s.self.eq_demultiplexer m s

  unfoldable pub on_stack : M (Obj MsgStack (World G)) A → EqServiceM G A
  unfolding on_demultiplexer
  on_stack m = on_demultiplexer (Events.on_stack m)

module _ {G : Type 0} (lib : Lib) (mgr : ChunkMgr G) (infos : Infos) where
  -- The labels at the end of `init`.
  abbrev free_stack : M (Obj MsgStack (World G)) ℤ
  free_stack = do Table.destruct lib mgr infos; pure minus_one

  abbrev Opening : Type 0
  Opening = M (Obj MsgStack (World G)) (Option ExternalEqDemultiplexer)

  -- `init` of a new demultiplexer for the stack.
  unfoldable open_demultiplexer : (junk : ℕ) → Opening
  unfolding Events.construct Events.init Table.destruct
  open_demultiplexer junk s =
      and_then
        (Events.init lib
          (record { self = Events.construct s.self junk; env = s.env; trace = s.trace }))
        (λ r t.
          let u : Obj MsgStack (World G) = record {
            self = t.self.stack;
            env = t.env;
            trace = t.trace;
          } in
          if is_minus_one r then and_then (free_stack u) (λ _ v. ok none v) else ok (some t.self) u)

  unfoldable open_stack : (junk : ℕ) → Opening
  unfolding Msg.Stack.init open_demultiplexer Table.destruct
  open_stack junk = do
    r ← Msg.Stack.init lib mgr
    if is_minus_one r then (do _ ← free_stack; pure none) else open_demultiplexer junk

  unfoldable pub init : (junk : ℕ) → EqServiceM G ℤ
  unfolding Msg.Stack.construct open_stack
  init junk s =
      and_then
        (open_stack junk (record {
          self = Msg.Stack.construct s.self.worker_num s.self.buffer_num s.self.is_server true;
          env = s.env;
          trace = s.trace;
        }))
        (λ found t.
          ok (elim found [ none ↦ minus_one | some _ ↦ success ])
            (record {
              self = record s.self { eq_demultiplexer = found };
              env = t.env;
              trace = t.trace;
            }))

  -- The destructor, but for the chunk manager's.
  unfoldable pub destruct : EqServiceM G (Unit {0})
  unfolding on_stack Table.destruct
  destruct = do
    v ← self
    elim v.eq_demultiplexer [ none ↦ pure tt | some _ ↦ on_stack (Table.destruct lib mgr infos) ]
    put λ v. record v { eq_demultiplexer = none }

  unfoldable pub accept : (info junk : ℕ) → EqServiceM G ℕ
  unfolding on_stack
  accept info junk = on_stack (Table.accept lib mgr infos info junk)

  unfoldable pub serve : (ip port : ℕ) → EqServiceM G ℕ
  unfolding on_stack
  serve ip port = do
    eq ← on_stack (Table.bind lib mgr infos ip port)
    if eq == 0
        then pure 0
        else do r ← on_stack (Table.listen lib mgr infos); pure (if failed r then 0 else eq)

  -- The event queue, or the null pointer.
  unfoldable pub connect : (ip port junk : ℕ) → EqServiceM G ℕ
  unfolding on_stack serve
  connect ip port junk = do
    v ← self
    if v.is_server then serve ip port else on_stack (Table.connect lib mgr infos ip port true junk)

  unfoldable pub reg_rma_buffer : (buffer size id : ℕ) → EqServiceM G ℕ
  unfolding on_stack
  reg_rma_buffer buffer size id = on_stack (Rma.reg_rma_buffer lib mgr buffer size id)

  unfoldable pub unreg_rma_buffer : (id : ℕ) → EqServiceM G (Unit {0})
  unfolding on_stack
  unreg_rma_buffer id = on_stack (Rma.unreg_rma_buffer lib mgr id)

  unfoldable pub get_rma_buffer : (id : ℕ) → EqServiceM G ℕ
  unfolding on_stack
  get_rma_buffer id = on_stack (Rma.get_rma_chunk lib mgr id)

  -- A method of the chunk manager.
  abbrev pub on_mgr : {A : Type 0} → M (Obj ExternalEqService (Mem G)) A → EqServiceM G A
  on_mgr m s =
      and_then (m (record { self = s.self; env = s.env.mem; trace = s.trace })) (λ a t.
        ok a (record { self = t.self; env = record s.env { mem = t.env }; trace = t.trace }))

  unfoldable pub set_buffer : (buffer size id : ℕ) → EqServiceM G (Unit {0})
  set_buffer buffer size id = do
    ck ← fi lib Call.new
    on_mgr (place ck.out (record new_chunk { buffer = buffer; buffer_id = id; capacity = size }))
    _ ← on_mgr (with_mgr (mgr.reclaim ck.out none))
    pure tt
    where
      place : ℕ → Chunk → M (Obj ExternalEqService (Mem G)) (Unit {0})
      place p v s = ok tt (record s { env = record s.env { heap = update s.env.heap p v } })

  -- `2*buffer_num` is a product of ints: it is meant for numbers below 2 ^ 30.
  unfoldable pub is_buffer_enough : EqServiceM G Bool
  is_buffer_enough = do
    v ← self
    n ← on_mgr (with_mgr mgr.free_size)
    pure (leb (2 * v.buffer_num) n)

  unfoldable pub wait_eq_event :
      (read_event : ℕ → Event) (overrun : ℕ) (old : Report) → EqServiceM G Report
  unfolding on_demultiplexer
  wait_eq_event read_event overrun old =
      on_demultiplexer (Events.wait_event lib mgr infos read_event overrun old)

  unfoldable pub get_connection : (eq : ℕ) → EqServiceM G ℕ
  unfolding on_stack
  get_connection eq = on_stack (Table.get_connection lib mgr infos eq)

  unfoldable pub reap : (id : ℕ) → EqServiceM G (Unit {0})
  unfolding on_stack
  reap id = on_stack (Table.reap lib mgr infos id)

  -- The result of the demultiplexer is dropped.
  unfoldable pub add_eq_event : (eq : ℕ) → EqServiceM G ℤ
  unfolding on_demultiplexer
  add_eq_event eq = do _ ← on_demultiplexer (Events.add_event lib eq); pure success

  unfoldable pub delete_eq_event : (eq : ℕ) → EqServiceM G ℤ
  unfolding on_demultiplexer
  delete_eq_event eq = do _ ← on_demultiplexer (Events.delete_event lib eq); pure success
