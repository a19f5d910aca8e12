-- ===== src/Java/CqService.antt =====
-- The native methods of CqService (java/native/com_intel_hpnl_core_CqService.cc).
pub mod Received
use hpnl.Base.{ℕ, Option, none, some, not, ◌==◌, ◌||◌, failed, if◌then◌else◌, ℤ, success, minus_one}
use hpnl.Base.Run.{ok, M, ◌>>=◌, ◌>>◌, pure, require, and_then, when}
use hpnl.Fabric.{Lib, Obj, put, self}
use hpnl.Chunk.External.{external_chunk_mgr}
use hpnl.Event.Codes.{EventType, value}
use hpnl.Event.Completion.{Entry}
use hpnl.Event.Proactor.{is_negative}
use hpnl.External.Completion.{Outcome, Report}
use hpnl.External.CqService.{ExternalCqService}
use hpnl.External.CqService
use hpnl.Java.Binding.{Upcall, Binding, is_code, on_service, call}
use hpnl.Java.EqService.{Env}
use hpnl.Msg.Connection.Io.{Infos}
use hpnl.Msg.Connection.Io
use hpnl.Msg.Stack.{MsgStack}
use hpnl.Msg.Stack.Table

abbrev pub CqBinding : Type 0
CqBinding = Obj (Binding ExternalCqService) Env

abbrev pub CqM : Type 0 → Type 0
CqM A = M CqBinding A

-- A method of the stack.
abbrev pub on_stack : {A : Type 0} → M (Obj MsgStack Env) A → M (Obj ExternalCqService Env) A
on_stack m s =
    and_then (m (record { self = s.self.stack; env = s.env; trace = s.trace })) (λ a t.
      ok a (record { self = record s.self { stack = t.self }; env = t.env; trace = t.trace }))

module _ (lib : Lib) (infos : Infos) where
  -- Of a service for connections, with so many workers and this stack.
  unfoldable pub init : (worker_num : ℕ) (stack : MsgStack) (junk : ℕ) → CqM ℤ
  unfolding CqService.construct CqService.init on_service
  init worker_num stack junk = do
    put λ b. record b { native_handle = some (CqService.construct worker_num stack) }
    on_service (CqService.init lib junk)

  unfoldable pub free : CqM (Unit {0})
  unfolding CqService.destruct on_service
  free = do
    b ← self
    elim b.native_handle [ none ↦ pure tt | some _ ↦ on_service CqService.destruct ]
    put λ b. record b { native_handle = none }

  -- What is done at a completion for the connection at `con`.
  unfoldable pub on_completion : (con : ℕ) → Report → CqM ℤ
  unfolding on_service Table.on_con Io.activate_recv_chunk value
  on_completion con r = do
    call (Upcall.handle_cq_callback r.eq r.code r.buffer_id r.block_buffer_size)
    when (is_code r.code (value EventType.recv_event)) (do
      _ ← on_service (
          on_stack (
            Table.on_con lib external_chunk_mgr infos con
              (Io.activate_recv_chunk lib external_chunk_mgr infos r.ck)))
      pure tt)
    pure r.code

  -- None where the demultiplexer waits for a connection to be connected.
  unfoldable pub on_outcome : Outcome → CqM (Option ℤ)
  unfolding on_completion
  on_outcome Outcome.waiting = pure none
  on_outcome (Outcome.reported r) =
      if is_negative r.code || not (failed r.code) then pure (some r.code) else do
        require (not (r.ck == 0))
        v ← λ s. ok (s.env.mem.heap r.ck) s
        if v.con == 0
            then pure (some minus_one)
            else do code ← on_completion v.con r; pure (some code)

  -- `junk` is what stands in the variable `eq`; `first` and `second` are readings of the clock.
  unfoldable pub wait_cq_event :
      (read_entry : ℕ → Entry) (index first second junk : ℕ) → CqM (Option ℤ)
  unfolding on_outcome on_service CqService.wait_cq_event
  wait_cq_event read_entry index first second junk = do
    o ← on_service (
        CqService.wait_cq_event lib read_entry index first second
          (record { code = success; eq = junk; ck = 0; buffer_id = 0; block_buffer_size = 0 }))
    on_outcome o
