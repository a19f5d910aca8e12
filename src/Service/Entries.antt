-- ===== src/Service/Entries.antt =====
-- What the threads of a service call over and over: `Proactor::eq_service`, `cq_service` and
-- `rdm_cq_service` (src/demultiplexer/Proactor.cc). A demultiplexer works on the service's stack.
use hpnl.Base.{ℕ, List, Option, none, some, ℤ, success, get_elem?, set}
use hpnl.Base.Run.{ok, fault, ◌>>=◌, pure, and_then}
use hpnl.Fabric.{Lib, self}
use hpnl.Chunk.{ChunkMgr}
use hpnl.Event.Completion.{CqDemultiplexer, Entry, Poll}
use hpnl.Event.Completion
use hpnl.Event.Handler.{Event}
use hpnl.Event.Handler
use hpnl.Msg.Connection.Io.{Infos}
use hpnl.Rdm.Completion.{RdmCqDemultiplexer}
use hpnl.Rdm
use hpnl.Rdm.Connection.{Names}
use hpnl.Service.{ServiceM, AnyStack, EqDemultiplexer, msg_stack, rdm_stack, on_reactor}

module _ {G : Type 0} (lib : Lib) (mgr : ChunkMgr G) (infos : Infos) (names : Names) where
  with_eq : (read_event : ℕ → Event) (junk : ℕ) → Option EqDemultiplexer → ServiceM G ℤ
  unfolding on_reactor Handler.eq_service
  with_eq read_event junk none = pure success
  with_eq read_event junk (some _) = on_reactor (Handler.eq_service lib mgr infos read_event junk)

  unfoldable pub eq_service : (read_event : ℕ → Event) (junk : ℕ) → ServiceM G ℤ
  unfolding with_eq
  eq_service read_event junk = do v ← self; with_eq read_event junk v.eq_demultiplexer

  -- The readings of the clock are `start` and `times`. A null demultiplexer is passed over.
  with_cq :
      (read_entry : ℕ → Entry) (index start : ℕ) (times : List ℕ)
      → AnyStack
      → Option (Option CqDemultiplexer)
      → ServiceM G Poll
  unfolding Completion.wait_event
  with_cq read_entry index start times stack none s = fault
  with_cq read_entry index start times stack (some none) s = ok Poll.done s
  with_cq read_entry index start times (msg_stack k) (some (some d)) s =
      and_then
        (Completion.wait_event lib mgr infos read_entry start times (record {
          self = record d { stack = k };
          env = record { mem = s.env.mem; cons = s.env.cons };
          trace = s.trace;
        }))
        (λ r t. ok r (record {
          self = record s.self {
            stack = msg_stack t.self.stack;
            cq_demultiplexer = set s.self.cq_demultiplexer index (some t.self);
          };
          env = record s.env { mem = t.env.mem; cons = t.env.cons };
          trace = t.trace;
        }))
  with_cq read_entry index start times other (some (some d)) s = fault

  unfoldable pub cq_service :
      (read_entry : ℕ → Entry) (index start : ℕ) (times : List ℕ) → ServiceM G Poll
  unfolding with_cq
  cq_service read_entry index start times = do
    v ← self
    with_cq read_entry index start times v.stack (get_elem? v.cq_demultiplexer index)

  with_rdm_cq :
      (read_entry : ℕ → Entry) (start : ℕ) (times : List ℕ)
      → AnyStack
      → Option RdmCqDemultiplexer
      → ServiceM G Poll
  unfolding Rdm.Completion.wait_event
  with_rdm_cq read_entry start times (rdm_stack k) (some d) s =
      and_then
        (Rdm.Completion.wait_event lib mgr names read_entry start times (record {
          self = record d { stack = k };
          env = record { mem = s.env.mem; cons = s.env.peers };
          trace = s.trace;
        }))
        (λ r t. ok r (record {
          self = record s.self {
            stack = rdm_stack t.self.stack;
            rdm_cq_demultiplexer = some t.self;
          };
          env = record s.env { mem = t.env.mem; peers = t.env.cons };
          trace = t.trace;
        }))
  with_rdm_cq read_entry start times other d s = fault

  unfoldable pub rdm_cq_service :
      (read_entry : ℕ → Entry) (start : ℕ) (times : List ℕ) → ServiceM G Poll
  unfolding with_rdm_cq
  rdm_cq_service read_entry start times = do
    v ← self
    with_rdm_cq read_entry start times v.stack v.rdm_cq_demultiplexer
