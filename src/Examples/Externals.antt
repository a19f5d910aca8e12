-- ===== src/Examples/Externals.antt =====
-- The external demultiplexers, and the contexts of datagrams, at concrete inputs.
use hpnl.Base.{List, [], ◌∷◌, ◌≡◌, refl, arith, success}
use hpnl.Base.StdMap.{lookup, has}
use hpnl.Base.Run.{Returns, fault}
use hpnl.Fabric.{Call, Lib, Obj}
use hpnl.Chunk.External.{ExternalChunkMgr, external_chunk_mgr}
use hpnl.Event.Completion.{Entry}
use hpnl.External.Events.{ExternalEqDemultiplexer, Report, on_shutdown}
use hpnl.External.Events.Watched.{Request, Waits, InSync, IsWatched, watches, run, run-IsWatched}
use hpnl.External.Events.Shutdown.{IsReaped, on_shutdown-IsReaped}
use hpnl.Msg.Stack.{World}
use hpnl.Rdm.Completion.{RdmCqDemultiplexer}
use hpnl.Rdm.Completion
use hpnl.Rdm.Connection.{send_buf}
use hpnl.Rdm.Contexts.{IsSend, posted_context, send_buf-faults}
use hpnl.Rdm.Stack
use hpnl.Examples.{works, infos, connection, stack, world}
use hpnl.Examples.Peers.{names, node}

-- A demultiplexer that waits for no queue yet.
abbrev demultiplexer : Obj ExternalEqDemultiplexer (World ExternalChunkMgr)
demultiplexer = record {
  self = record { stack = stack; event_ptr = 0; fabric = 1; fid_map = [] };
  env = world;
  trace = [];
}

abbrev requests : List Request
requests = Request.add 60 ∷ Request.add 70 ∷ Request.delete 60 ∷ Request.delete 80 ∷ []

-- The descriptor of a queue has the number of its address.
abbrev descriptors : Lib
descriptors t (Call.control eq) = record { ret = success; out = eq }
descriptors t c = works t c

descriptors-Waits : Waits descriptors (λ eq. eq)
descriptors-Waits = record {
  own = λ i j e. e;
  succeeds = λ t eq ne. refl;
  gives = λ t eq ne. refl;
  removes = λ t fd id w. refl;
}

demultiplexer-InSync : InSync descriptors (λ eq. eq) demultiplexer
unfolding IsWatched watches has lookup
demultiplexer-InSync = λ id. refl

run-IsWatched_example :
    Returns (λ _ t. InSync descriptors (λ eq. eq) t) (run descriptors requests demultiplexer)
run-IsWatched_example =
    run-IsWatched descriptors (λ eq. eq) descriptors-Waits requests demultiplexer
      (ground arith, (ground arith, (ground arith, (ground arith, tt)))) demultiplexer-InSync

-- The variables of a caller that has an event of queue 60.
abbrev caller : Report
caller = record { code = success; info = 0; eq = 60; con = 0 }

on_shutdown-IsReaped_example :
    Returns
      (λ r t. IsReaped works external_chunk_mgr infos 50 connection caller r demultiplexer t)
      (on_shutdown works external_chunk_mgr infos caller demultiplexer)
unfolding lookup
on_shutdown-IsReaped_example =
    on_shutdown-IsReaped works external_chunk_mgr infos 50 connection caller demultiplexer
      (ground arith) (ground arith) refl refl

send_buf-faults_example :
    Returns
      (λ _ t.
        (posted_context t.trace ≡ 1)
        × ((e : Entry) (d : Obj RdmCqDemultiplexer (Stack.World ExternalChunkMgr))
            → d.env.mem ≡ t.env
            → IsSend 1 e
            → Completion.on_entry works external_chunk_mgr names e d ≡ fault))
      (send_buf works external_chunk_mgr names 5 6 node)
send_buf-faults_example = send_buf-faults works external_chunk_mgr names 5 6 node (ground arith)
